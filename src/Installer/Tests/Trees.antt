-- ===== src/Installer/Tests/Trees.antt =====
-- A staged copy and an extraction of pkgs/installer.
use minidarwin.Installer.Paths.{split_slash, str_eq}
use minidarwin.Prelude.{ℕ, ◌≡◌, refl, true, false, none, List, [], ◌∷◌, Bytes, codes}
use minidarwin.Installer.Result.{collision}
use minidarwin.Installer.Entries.{Entry, file_type, is_directory, is_link}
use minidarwin.Installer.Staging.{
  whole, Meta, Object, directory, regular, symlink, empty, entry, Process, BaseDirectory,
  apply_ownership, restore_directory,
}
use minidarwin.Installer.Extraction.{
  Progress, failed, reached, left, extract, journal_undo, locate, add_object, create,
  extract_directory, extract_entry, extract_file, file_object, finish_directory, new_directory,
  path_parents, remove_object,
}
use minidarwin.Installer.Extraction.Standing.{Keeps}
use minidarwin.Installer.Extraction.Kept.{extract_from, undone_tree, Complete, extract_installs}

-- A user's process, at time 9.
abbrev process : Process
process = record { privileged = false; euid = 5; egid = 6; link_mode = 0o755; now = whole 9 }

abbrev owned : ℕ → ℕ → Meta
owned mode mtime = record {
  mode = mode;
  uid = 5;
  gid = 6;
  atime = whole mtime;
  mtime = whole mtime;
  plain = true;
}

-- half a second later, and read later still
abbrev half_past : Meta → Meta
half_past m = record m {
  atime = whole 20;
  mtime = record { seconds = m.mtime.seconds; nanoseconds = 500000000 };
}

-- A root that may not be written, with a file, and a directory that holds a link.
abbrev root : Object
root = directory (half_past (owned 0o555 1)) (
    entry (codes "a") (regular (half_past (owned 0o640 2)) (codes "text")) (
      entry (codes "d")
        (directory (owned 0o500 3)
          (entry (codes "l") (symlink (owned 0o755 4) (codes "../a")) empty))
        empty))

abbrev staged : Object
staged = directory (owned 0o755 9) (
    entry (codes "a") (regular (half_past (owned 0o640 2)) (codes "text")) (
      entry (codes "d")
        (directory (owned 0o700 9)
          (entry (codes "l") (symlink (owned 0o755 4) (codes "../a")) empty))
        empty))

abbrev recorded : List BaseDirectory
recorded =
    record { path = []; base_mode = 0o555; base_mtime = 1 }
    ∷ record { path = codes "d" ∷ []; base_mode = 0o500; base_mtime = 3 }
    ∷ []

abbrev payload_entry : Bytes → ℕ → Entry
payload_entry path mode = record {
  path = path;
  package_path = none;
  change = none;
  link = none;
  mode = mode;
  uid = 0;
  gid = 0;
  mtime = 7;
  contents = codes "new";
}

-- The directory d is there, e/f is not, and neither is its directory.
abbrev payload : List Entry
payload =
    payload_entry (codes "d") 0o040755
    ∷ payload_entry (codes "e/f") 0o100644
    ∷ payload_entry (codes "g") 0o040700
    ∷ []

abbrev extracted : Progress
extracted = record {
  tree = directory (half_past (owned 0o555 1)) (
      entry (codes "a") (regular (half_past (owned 0o640 2)) (codes "text")) (
        entry (codes "d")
          (directory (owned 0o500 3)
            (entry (codes "l") (symlink (owned 0o755 4) (codes "../a")) empty))
          (entry (codes "e")
            (directory (owned 0o755 9)
              (entry (codes "f") (regular (owned 0o644 7) (codes "new")) empty))
            (entry (codes "g") (directory (owned 0o700 7) empty) empty))));
  journal = (codes "g" ∷ []) ∷ (codes "e" ∷ codes "f" ∷ []) ∷ (codes "e" ∷ []) ∷ [];
}

abbrev start : Progress
start = record { tree = root; journal = [] }

extract_run : extract process true payload start ≡ reached tt extracted
unfolding extract extract_entry path_parents split_slash is_directory file_type extract_directory
    locate str_eq add_object create extract_file file_object is_link finish_directory
    restore_directory new_directory apply_ownership
extract_run = refl

-- The entry behind a directory that it has created is in the way of a file.
fails_run :
    extract process true
      (payload_entry (codes "g/h") 0o100644 ∷ payload_entry (codes "a") 0o100644 ∷ [])
      start
    ≡ failed collision (record {
      tree = directory (half_past (owned 0o555 1)) (
          entry (codes "a") (regular (half_past (owned 0o640 2)) (codes "text")) (
            entry
              (codes "d")
              (directory
                (owned 0o500 3)
                (entry (codes "l") (symlink (owned 0o755 4) (codes "../a")) empty))
              (entry
                (codes "g")
                (directory
                  (owned 0o755 9)
                  (entry (codes "h") (regular (owned 0o644 7) (codes "new")) empty))
                empty)));
      journal = (codes "g" ∷ codes "h" ∷ []) ∷ (codes "g" ∷ []) ∷ [];
    })
unfolding extract extract_entry path_parents split_slash locate str_eq add_object create
    is_directory file_type extract_file file_object is_link apply_ownership
fails_run = refl

extract_installs_example :
    Keeps root (left (extract_from process true payload root)).tree
    × Keeps root (undone_tree (extract_from process true payload root))
    × Complete process payload (extract_from process true payload root)
extract_installs_example = extract_installs process true root payload

-- Here nothing that the install has created is left.
undo_run : journal_undo extracted.journal extracted.tree ≡ root
unfolding journal_undo remove_object str_eq
undo_run = refl
