-- ===== src/Kernel.antt =====
-- Services of the kernel, crates/core/seidrum-kernel/src.
pub mod Registry
pub mod Health
pub mod Capabilities
pub mod Cleanup
pub mod Traces
