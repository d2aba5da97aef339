-- ===== src/Net.antt =====
-- net/ipv6.c and net/inc/net/ipv6.h: the polled IPv6 stack of the bootloader.
pub mod Wire
pub mod Addresses
pub mod Checksum
pub mod Host
pub mod Tx
pub mod PacketBytes
pub mod Checked
pub mod Layout
pub mod Replies
pub mod Rx
