-- ===== src/Installer/Package.antt =====
-- Packages, pkgs/installer/package.c and the records of mdpkg.h that it fills.
pub mod Identifier
pub mod References
pub mod Loading
pub mod Distribution
pub mod Selection
pub mod Opening
use minidarwin.Prelude.{
  ℕ, ◌≡◌, Bool, true, false, Option, none, some, List, [], ◌∷◌, Bytes, codes, if◌then◌else◌,
}
use minidarwin.Installer.Paths.{str_eq}
use minidarwin.Installer.Entries.{Entry}
use minidarwin.Installer.Xml.{XmlNode}
use minidarwin.Installer.Xar.{XarMember}

-- strcmp against the names of a table
unfoldable pub one_of : Bytes → List Bytes → Bool
one_of s [] = false
one_of s (name ∷ names) = let rest = one_of s names in if str_eq s name then true else rest

pub data Hook : Type 0 where
  preflight preinstall postinstall postflight : Hook

-- The script paths of a component, `none` for NULL.
pub record Hooks : Type 0 where
  pub preflight_path : Option Bytes
  pub preinstall_path : Option Bytes
  pub postinstall_path : Option Bytes
  pub postflight_path : Option Bytes

abbrev pub no_hooks : Hooks
no_hooks = record {
  preflight_path = none;
  preinstall_path = none;
  postinstall_path = none;
  postflight_path = none;
}

abbrev pub hook_path : Hooks → Hook → Option Bytes
hook_path h preflight = h.preflight_path
hook_path h preinstall = h.preinstall_path
hook_path h postinstall = h.postinstall_path
hook_path h postflight = h.postflight_path

abbrev pub set_hook : Hooks → Hook → Bytes → Hooks
set_hook h preflight path = record h { preflight_path = some path }
set_hook h preinstall path = record h { preinstall_path = some path }
set_hook h postinstall path = record h { postinstall_path = some path }
set_hook h postflight path = record h { postflight_path = some path }

pub record Component : Type 0 where
  pub xar_dir : Bytes
  pub identifier : Bytes
  pub version : Bytes
  pub location : Bytes
  pub bom : Bytes
  pub payload : List Entry
  pub scripts : List Entry
  pub hooks : Hooks
  pub metadata_only : Bool

-- `members` and `decoded` are the container and the bytes decoded so far; `distribution` is the root
-- of the document that is kept until the target is known.
pub record Package : Type 0 where
  pub members : List XarMember
  pub decoded : ℕ
  pub components : List Component
  pub host_architectures : Option Bytes
  pub allowed_os_versions : Option Bytes
  pub distribution : Option XmlNode
  pub needs_js : Bool
  pub unresolved : Bool
