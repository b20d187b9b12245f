-- ===== src/Installer/Receipts.antt =====
-- `script_changes` of pkgs/installer/receipts.c: what differs between two snapshots of the root.
pub mod Changes
pub mod Snapshot
use minidarwin.Prelude.{
  ◌≡◌, Bool, true, false, not, ◌&&◌, ◌||◌, Option, none, some, List, [], ◌∷◌, ◌++◌, Bytes, ◌==◌,
  if◌then◌else◌,
}
use minidarwin.Installer.Result.{Fault, Result, ok, err, ◌>>=◌, ◌>>◌}
use minidarwin.Installer.Paths.{str_eq}
use minidarwin.Installer.Entries.{
  Change, created, modified, removed, Entry, entries_append, entries_find,
}

-- The links, where one of the entries has one; the data otherwise. `memcmp` of two digests of one
-- length is the equality of their bytes.
unfoldable pub same_target : Entry → Entry → Bool
same_target a b = elim a.link [
  | some x ↦ elim b.link [ some y ↦ str_eq x y | none ↦ false ]
  | none ↦ elim b.link [ some y ↦ false | none ↦ str_eq a.contents b.contents ]
]

unfoldable pub same_entry : Entry → Entry → Bool
same_entry a b =
    if not (a.mode == b.mode) || (not (a.uid == b.uid) || not (a.gid == b.gid))
    then false
    else same_target a b

unfoldable pub copy_entry : Entry → Change → Entry
copy_entry e change = record e { change = some change }

-- The change of an entry of the second snapshot, given what the first has at its path.
unfoldable pub change_of : Entry → Option Entry → Option Change
change_of now none = some created
change_of now (some was) = if same_entry now was then none else some modified

unfoldable pub append_change : List Entry → Entry → Option Change → Result (List Entry)
append_change out e none = ok out
append_change out e (some change) = entries_append out (copy_entry e change)

unfoldable pub changes_after : List Entry → List Entry → List Entry → Result (List Entry)
changes_after out before [] = ok out
changes_after out before (now ∷ after) = do
  out' ← append_change out now (change_of now (entries_find before now.path))
  changes_after out' before after

unfoldable pub change_gone : Option Entry → Option Change
change_gone none = some removed
change_gone (some e) = none

unfoldable pub changes_before : List Entry → List Entry → List Entry → Result (List Entry)
changes_before out after [] = ok out
changes_before out after (was ∷ before) = do
  out' ← append_change out was (change_gone (entries_find after was.path))
  changes_before out' after before

unfoldable pub script_changes : List Entry → List Entry → List Entry → Result (List Entry)
script_changes out before after = do
  out' ← changes_after out before after
  changes_before out' after before
