-- ===== src/Installer/Receipts/Snapshot.antt =====
-- The snapshot of a root, pkgs/installer/receipts.c, on the trees of the staged copy.
pub mod Seen
pub mod Complete
use minidarwin.Prelude.{
  ℕ, ◌+◌, ◌-◌, ◌*◌, ◌%◌, Bool, true, false, ◌&&◌, ◌||◌, Option, none, some, List, [], ◌∷◌, Bytes,
  take, ltb, if◌then◌else◌,
}
use minidarwin.Installer.Result.{
  Fault, nesting_limit, unsupported_file, Result, ok, err, ◌>>=◌, ◌>>◌, die_if,
}
use minidarwin.Installer.Paths.{path_max, limit_depth, is_empty, str_eq, dot, dot_dot, path_join}
use minidarwin.Installer.Entries.{Entry, type_directory, type_regular, type_link, entries_append}
use minidarwin.Installer.Staging.{
  Meta, Object, directory, regular, symlink, special, Listing, empty, entry,
}
use minidarwin.Installer.Placement.{scripts_dir}

-- st_mode: the type in the four bits above the permissions
abbrev pub seen_as : Bytes → ℕ → Meta → Option Bytes → Bytes → Entry
seen_as rel type m link contents = record {
  path = rel;
  package_path = none;
  change = none;
  link = link;
  mode = type * 4096 + m.mode % 4096;
  uid = m.uid;
  gid = m.gid;
  mtime = m.mtime.seconds;
  contents = contents;
}

-- ".", "..", and the directory of the scripts in the root
unfoldable pub is_passed_over : Bytes → Bytes → Bool
is_passed_over rel name =
    str_eq name dot || (str_eq name dot_dot || (is_empty rel && str_eq name scripts_dir))

-- `sha256` is the digest of a file's content, and `base` the path of the root.
module _ (sha256 : Bytes → Bytes) (base : Bytes) where
  unfoldable pub describe : Bytes → Object → Result Entry
  describe rel (directory m l) = ok (seen_as rel type_directory m none [])
  describe rel (regular m b) = ok (seen_as rel type_regular m none (sha256 b))
  describe rel (symlink m b) = ok (seen_as rel type_link m (some (take (path_max - 1) b)) [])
  describe rel (special m) = err unsupported_file

  unfoldable pub snapshot_entry : Bytes → Object → Result Entry
  snapshot_entry rel o = do host ← path_join base rel; describe rel o

  -- The tests and the entry of one object.
  unfoldable pub snapshot_object : ℕ → Bytes → Object → List Entry → Result (List Entry)
  snapshot_object depth rel o out = do
    die_if (ltb limit_depth depth) nesting_limit
    e ← snapshot_entry rel o
    entries_append out e

  unfoldable mutual
    pub snapshot_walk : ℕ → Bytes → Object → List Entry → Result (List Entry)
    snapshot_walk depth rel (directory m l) out = do
      longer ← snapshot_object depth rel (directory m l) out
      snapshot_listing (depth + 1) rel l longer
    snapshot_walk depth rel (regular m b) out = snapshot_object depth rel (regular m b) out
    snapshot_walk depth rel (symlink m b) out = snapshot_object depth rel (symlink m b) out
    snapshot_walk depth rel (special m) out = snapshot_object depth rel (special m) out

    pub snapshot_listing : ℕ → Bytes → Listing → List Entry → Result (List Entry)
    snapshot_listing depth rel empty out = ok out
    snapshot_listing depth rel (entry name o l) out =
        let stay = snapshot_listing depth rel l out in
        if is_passed_over rel name then stay else (do
          child ← path_join rel name
          longer ← snapshot_walk depth child o out
          snapshot_listing depth rel l longer)

  unfoldable pub snapshot_tree : Object → Result (List Entry)
  snapshot_tree root = snapshot_walk 0 [] root []
