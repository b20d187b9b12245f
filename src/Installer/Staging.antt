-- ===== src/Installer/Staging.antt =====
-- The copy of a root in pkgs/installer/install.c: `stage_copy` and `restore_base_directories`, on
-- trees with the metadata that they treat. A path is the list of its names.
pub mod Restored
use mathlib.Core.List.{map}
use minidarwin.Prelude.{
  ℕ, ◌+◌, ◌*◌, ◌/◌, ◌%◌, ◌≡◌, Bool, true, false, not, List, [], ◌∷◌, ◌++◌, Bytes, ltb,
  if◌then◌else◌,
}
use minidarwin.Installer.Result.{
  Fault, nesting_limit, has_attributes, unsupported_file, replaced_directory, Result, ok, err,
  ◌>>=◌, ◌>>◌, die_if,
}
use minidarwin.Installer.Paths.{str_eq, limit_depth}

-- A `struct timespec`, and one of whole seconds.
pub record Time : Type 0 where
  pub seconds : ℕ
  pub nanoseconds : ℕ

abbrev pub whole : ℕ → Time
whole seconds = record { seconds = seconds; nanoseconds = 0 }

-- `plain` is an object without flags and extended attributes; `mode` has the permissions.
pub record Meta : Type 0 where
  pub mode : ℕ
  pub uid : ℕ
  pub gid : ℕ
  pub atime : Time
  pub mtime : Time
  pub plain : Bool

-- `special` is an object of another type, such as a device.
mutual
  pub data Object : Type 0 where
    directory : Meta → Listing → Object
    regular : Meta → Bytes → Object
    symlink : Meta → Bytes → Object
    special : Meta → Object

  pub data Listing : Type 0 where
    empty : Listing
    entry : Bytes → Object → Listing → Listing

abbrev pub meta_of : Object → Meta
meta_of (directory m l) = m
meta_of (regular m b) = m
meta_of (symlink m b) = m
meta_of (special m) = m

-- The process: whether it is root's, its own user and group, the permissions that the system gives a
-- new link, and the time.
pub record Process : Type 0 where
  pub privileged : Bool
  pub euid : ℕ
  pub egid : ℕ
  pub link_mode : ℕ
  pub now : Time

-- A new object belongs to the process; chown is root's.
unfoldable pub apply_ownership : Process → ℕ → ℕ → Meta → Meta
apply_ownership p uid gid m =
    if p.privileged
    then record m { uid = uid; gid = gid }
    else record m { uid = p.euid; gid = p.egid }

-- (mode & 07777) | S_IRWXU
unfoldable pub writable : ℕ → ℕ
writable mode = mode / 512 * 512 + 448 + mode % 64

-- A directory to restore: its path below the object that is copied, its mode, and the seconds of its
-- modification time, `st_mtime`.
pub record BaseDirectory : Type 0 where
  pub path : List Bytes
  pub base_mode : ℕ
  pub base_mtime : ℕ

abbrev pub beneath : Bytes → BaseDirectory → BaseDirectory
beneath name d = record d { path = name ∷ d.path }

abbrev pub base_of : Meta → BaseDirectory
base_of m = record { path = []; base_mode = m.mode; base_mtime = m.mtime.seconds }

-- mkdir, chown, and chmod once the content is there
unfoldable pub copied_directory : Process → Meta → Meta
copied_directory p m =
    apply_ownership p m.uid m.gid
      (record m { mode = writable m.mode; atime = p.now; mtime = p.now })

-- A clone, or a copy with the mode and both times
unfoldable pub copied_file : Process → Meta → Meta
copied_file p m = apply_ownership p m.uid m.gid m

unfoldable pub copied_link : Process → Meta → Meta
copied_link p m = apply_ownership p m.uid m.gid (record m { mode = p.link_mode })

-- The checks of every object.
unfoldable pub check_object : ℕ → Meta → Result (Unit {0})
check_object depth m = do
  die_if (ltb limit_depth depth) nesting_limit
  die_if (not m.plain) has_attributes

-- The copy, and the directories in the order in which they are appended. The source passes the path
-- of a directory down; here each directory puts its name before the paths that come up.
unfoldable mutual
  pub stage_copy : Process → ℕ → Object → Result (Object × List BaseDirectory)
  stage_copy p depth (directory m l) = do
    check_object depth m
    out ← stage_listing p (depth + 1) l
    ok (directory (copied_directory p m) out.0, base_of m ∷ out.1)
  stage_copy p depth (regular m b) = do check_object depth m; ok (regular (copied_file p m) b, [])
  stage_copy p depth (symlink m b) = do check_object depth m; ok (symlink (copied_link p m) b, [])
  stage_copy p depth (special m) = do check_object depth m; err unsupported_file

  pub stage_listing : Process → ℕ → Listing → Result (Listing × List BaseDirectory)
  stage_listing p depth empty = ok (empty, [])
  stage_listing p depth (entry name o l) = do
    out ← stage_copy p depth o
    rest ← stage_listing p depth l
    ok (entry name out.0 rest.0, map (beneath name) out.1 ++ rest.1)

-- One round of `restore_base_directories`: lstat, chmod, and whole seconds for both times.
unfoldable mutual
  pub restore_directory : Object → List Bytes → ℕ → ℕ → Result Object
  restore_directory (directory m l) [] mode mtime =
      ok (directory (record m { mode = mode; atime = whole mtime; mtime = whole mtime }) l)
  restore_directory (directory m l) (name ∷ names) mode mtime = do
    out ← restore_entry l name names mode mtime
    ok (directory m out)
  restore_directory (regular m b) names mode mtime = err replaced_directory
  restore_directory (symlink m b) names mode mtime = err replaced_directory
  restore_directory (special m) names mode mtime = err replaced_directory

  pub restore_entry : Listing → Bytes → List Bytes → ℕ → ℕ → Result Listing
  restore_entry empty name names mode mtime = err replaced_directory
  restore_entry (entry own o l) name names mode mtime =
      let here : Result Listing =
        (restore_directory o names mode mtime >>= (λ q. ok (entry own q l))) in
      let later : Result Listing =
        (restore_entry l name names mode mtime >>= (λ r. ok (entry own o r))) in
      if str_eq own name then here else later

-- The loop, from the last directory to the first.
unfoldable pub restore_base_directories : List BaseDirectory → Object → Result Object
restore_base_directories [] o = ok o
restore_base_directories (d ∷ directories) o = do
  q ← restore_base_directories directories o
  restore_directory q d.path d.base_mode d.base_mtime
