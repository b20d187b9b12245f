-- ===== src/Installer/Tests/Snapshots.antt =====
-- Two snapshots: of "a", which has changed, "b", which is gone, and "c", which is new.
use minidarwin.Prelude.{◌≡◌, ap, get_or, arith, refl, none, some, List, [], ◌∷◌, Bytes}
use minidarwin.Installer.Result.{ok}
use minidarwin.Installer.Paths.{str_eq}
use minidarwin.Installer.Entries.{created, modified, removed, Entry, entries_append, entries_find}
use minidarwin.Installer.Receipts.{
  same_target, same_entry, copy_entry, change_of, append_change, changes_after, change_gone,
  changes_before, script_changes,
}
use minidarwin.Installer.Receipts.Changes.{recorded, script_changes-recorded}

abbrev file : Bytes → Bytes → Entry
file path digest = record {
  path = path;
  package_path = none;
  change = none;
  link = none;
  mode = 0o100644;
  uid = 0;
  gid = 0;
  mtime = 0;
  contents = digest;
}

abbrev before : List Entry
before = file (b'a' ∷ []) (1 ∷ []) ∷ file (b'b' ∷ []) (2 ∷ []) ∷ []

abbrev after : List Entry
after = file (b'a' ∷ []) (3 ∷ []) ∷ file (b'c' ∷ []) (4 ∷ []) ∷ []

abbrev changes : List Entry
changes =
    record (file (b'a' ∷ []) (3 ∷ [])) { change = some modified }
    ∷ record (file (b'c' ∷ []) (4 ∷ [])) { change = some created }
    ∷ record (file (b'b' ∷ []) (2 ∷ [])) { change = some removed }
    ∷ []

changes_run : script_changes [] before after ≡ ok changes
unfolding script_changes changes_after changes_before append_change change_of change_gone copy_entry
    same_entry same_target str_eq entries_find entries_append
changes_run = refl

script_changes-recorded_example :
    entries_find changes (b'b' ∷ [])
    ≡ recorded (entries_find after (b'b' ∷ [])) (entries_find before (b'b' ∷ []))
script_changes-recorded_example =
    script_changes-recorded before after changes (b'b' ∷ [])
      (((λ e. let h : 97 ≡ 99 = ap (λ s. get_or s 0 0) e in omega arith), tt), (tt, tt)) changes_run
