-- ===== src/Installer/Tests.antt =====
-- Concrete runs of pkgs/installer.
mod Strings
mod Archives
mod Links
mod Snapshots
mod Transactions
mod Packages
mod Components
mod Choices
mod Names
mod Trees
mod Placements
mod Roots
