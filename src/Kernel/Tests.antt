-- ===== src/Kernel/Tests.antt =====
-- Concrete runs of pkgs/xnu/support.
mod Caches
mod Blocks
mod Draws
mod Generators
