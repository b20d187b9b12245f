-- ===== src/Installer/Tests/Roots.antt =====
-- Snapshots of a root, in pkgs/installer.
use minidarwin.Installer.Paths.{ends_in_slash, path_join, str_eq}
use minidarwin.Prelude.{
  ℕ, ◌≡◌, refl, true, none, some, List, [], ◌∷◌, Bytes, All, Any, codes, arith,
}
use minidarwin.Installer.Result.{ok}
use minidarwin.Installer.Entries.{Entry, entries_append}
use minidarwin.Installer.Staging.{whole, Meta, Object, directory, symlink, empty, entry}
use minidarwin.Installer.Receipts.Snapshot.{
  seen_as, snapshot_tree, describe, is_passed_over, snapshot_entry, snapshot_object, snapshot_walk,
}
use minidarwin.Installer.Extraction.{locate, located}
use minidarwin.Installer.Receipts.Snapshot.Seen.{IsSeen, snapshot_tree-IsSeen}
use minidarwin.Installer.Receipts.Snapshot.Complete.{Describes, snapshot_tree-Describes, IsVisited}

abbrev owned : ℕ → Meta
owned mode = record {
  mode = mode;
  uid = 5;
  gid = 6;
  atime = whole 9;
  mtime = whole 9;
  plain = true;
}

-- d, with the link l, and the directory of the scripts
abbrev root : Object
root = directory (owned 0o755) (
    entry (codes "d")
      (directory (owned 0o700) (entry (codes "l") (symlink (owned 0o755) (codes "x")) empty))
      (entry (codes ".mdpkg-scripts") (directory (owned 0o700) empty) empty))

-- A stand-in for the digest of a file.
abbrev constant : Bytes → Bytes
constant contents = codes "digest"

abbrev listing : List Entry
listing =
    seen_as [] 4 (owned 0o755) none []
    ∷ seen_as (codes "d") 4 (owned 0o700) none []
    ∷ seen_as (codes "d/l") 10 (owned 0o755) (some (codes "x")) []
    ∷ []

snapshot_run : snapshot_tree constant (codes "/r") root ≡ ok listing
unfolding snapshot_tree snapshot_walk snapshot_object snapshot_entry path_join describe
    entries_append is_passed_over str_eq ends_in_slash
snapshot_run = refl

snapshot_tree-IsSeen_example : All (IsSeen constant (codes "/r") root) listing
snapshot_tree-IsSeen_example =
    snapshot_tree-IsSeen constant (codes "/r") root listing (ground arith) snapshot_run

link-IsVisited : IsVisited [] (codes "d" ∷ codes "l" ∷ [])
unfolding locate str_eq is_passed_over path_join
link-IsVisited = (refl, (refl, tt))

link_located :
    locate root (codes "d" ∷ codes "l" ∷ []) ≡ located (symlink (owned 0o755) (codes "x"))
unfolding locate str_eq
link_located = refl

snapshot_tree-Describes_example :
    Any
      (Describes constant
        (codes "/r")
        []
        (codes "d" ∷ codes "l" ∷ [])
        (symlink (owned 0o755) (codes "x")))
      listing
snapshot_tree-Describes_example =
    snapshot_tree-Describes constant (codes "/r") root listing (codes "d" ∷ codes "l" ∷ [])
      (symlink (owned 0o755) (codes "x")) snapshot_run link-IsVisited link_located
