-- ===== src/Kernel.antt =====
-- src/proxyloop/kernel: what the kernel's scheduling holds back.
pub mod Fence
pub mod Calls
pub mod Speaker
