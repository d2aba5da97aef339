-- ===== src/Boot/Console.antt =====
-- `console_line` and `console_cmd` of boot/console.c: a line is cut into words, in place, and the
-- command that the first word names is called. A command's effects stand in Boot.Dump.
pub mod Defs
pub mod Strings
mod Scan
pub mod Words
pub mod Typed
