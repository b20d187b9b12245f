-- ===== src/Kernel.antt =====
-- pkgs/xnu/support: the kernel-side providers.
pub mod Memory
pub mod TrustCache
pub mod Aes
pub mod Random
pub mod Drbg
mod Tests
