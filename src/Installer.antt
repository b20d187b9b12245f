-- ===== src/Installer.antt =====
-- pkgs/installer: mdpkg, the installer for flat packages.
pub mod Result
pub mod Paths
pub mod Number
pub mod Xml
pub mod Decoding
pub mod Xar
pub mod Entries
pub mod CpioHeader
pub mod Cpio
pub mod Tree
pub mod Transaction
pub mod Staging
pub mod Extraction
pub mod Resolve
pub mod Receipts
pub mod Package
pub mod Placement
mod Tests
