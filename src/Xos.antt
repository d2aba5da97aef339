-- ===== src/Xos.antt =====
-- The kernel in xos/.
pub mod Vmm
pub mod Kernel
pub mod Trap
