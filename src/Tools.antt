-- ===== src/Tools.antt =====
-- The host side of the boot protocol, in tools/.
pub mod Sender
pub mod Exchange
pub mod Link
pub mod Upload
pub mod Options
pub mod Search
pub mod Main
