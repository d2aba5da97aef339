-- ===== src/Boot.antt =====
-- boot/netboot.c: the network bootloader, over the stack of net/ipv6.c.
pub mod Message
pub mod Board
pub mod Netboot
pub mod LineEditor
pub mod Number
pub mod Console
pub mod Dump
