-- ===== src/Installer/Extraction.antt =====
-- Extraction and its journal, pkgs/installer: `path_parents` of util.c, and `extract`, `journal_add`
-- and `journal_undo` of install.c, on the trees of the staged copy. The time that a directory gets
-- when an entry is added to it is left out.
pub mod Standing
pub mod Steps
pub mod Grown
pub mod Installed
pub mod Kept
use minidarwin.Prelude.{
  ℕ, ◌%◌, ◌≡◌, Bool, true, false, not, ◌&&◌, ◌||◌, Option, none, some, List, [], ◌∷◌, ◌++◌, Bytes,
  if◌then◌else◌,
}
use minidarwin.Installer.Result.{
  Fault, not_a_directory, stat_failed, collision, parent_missing, bad_symlink, Result, ok, err,
  ◌>>=◌, ◌>>◌, die_if,
}
use minidarwin.Installer.Paths.{is_empty, str_eq, split_slash}
use minidarwin.Installer.Entries.{Entry, is_directory, is_link}
use minidarwin.Installer.Staging.{
  whole, Meta, Object, directory, regular, symlink, special, Listing, empty, entry, Process,
  apply_ownership, restore_directory,
}

-- What `lstat` says of a path below a directory: ENOENT, an object, or ENOTDIR.
pub data Located : Type 0 where
  absent : Located
  located : Object → Located
  through_file : Located

abbrev pub is_dir : Object → Bool
is_dir (directory m l) = true
is_dir (regular m b) = false
is_dir (symlink m b) = false
is_dir (special m) = false

unfoldable mutual
  pub locate : Object → List Bytes → Located
  locate (directory m l) [] = located (directory m l)
  locate (directory m l) (name ∷ names) = locate_in l name names
  locate (regular m b) [] = located (regular m b)
  locate (regular m b) (name ∷ names) = through_file
  locate (symlink m b) [] = located (symlink m b)
  locate (symlink m b) (name ∷ names) = through_file
  locate (special m) [] = located (special m)
  locate (special m) (name ∷ names) = through_file

  pub locate_in : Listing → Bytes → List Bytes → Located
  locate_in empty name names = absent
  locate_in (entry own o l) name names =
      let here = locate o names in
      let later = locate_in l name names in if str_eq own name then here else later

-- mkdir, symlink or open with O_EXCL: a new name in a directory that is there.
unfoldable mutual
  pub create : Object → List Bytes → Object → Result Object
  create (directory m l) [] x = err collision
  create (directory m l) (name ∷ names) x = do out ← create_in l name names x; ok (directory m out)
  create (regular m b) names x = err parent_missing
  create (symlink m b) names x = err parent_missing
  create (special m) names x = err parent_missing

  pub create_in : Listing → Bytes → List Bytes → Object → Result Listing
  create_in empty name [] x = ok (entry name x empty)
  create_in empty name (next ∷ names) x = err parent_missing
  create_in (entry own o l) name names x =
      let here : Result Listing = (create o names x >>= (λ q. ok (entry own q l))) in
      let later : Result Listing = (create_in l name names x >>= (λ r. ok (entry own o r))) in
      if str_eq own name then here else later

-- The tree below the base, and the paths that a live install has created, the newest first.
pub record Progress : Type 0 where
  pub tree : Object
  pub journal : List (List Bytes)

-- journal_add, in a live install
abbrev pub journal_add : Bool → List Bytes → List (List Bytes) → List (List Bytes)
journal_add live path journal = if live then path ∷ journal else journal

-- A run that has ended by `die`, or that goes on with a value: either leaves what it has made.
pub data Attempt {ℓ} (Value : Type ℓ) : Type ℓ where
  failed : Fault → Progress → Attempt Value
  reached : Value → Progress → Attempt Value

abbrev pub left {ℓ} : {Value : Type ℓ} → Attempt Value → Progress
left (failed fault s) = s
left (reached value s) = s

abbrev pub and_then {ℓ κ} :
    {Value : Type ℓ} {After : Type κ}
    → Attempt Value
    → (Value → Progress → Attempt After)
    → Attempt After
and_then (failed fault s) next = failed fault s
and_then (reached value s) next = next value s

-- A call that leaves the journal, and the tree too where it fails.
abbrev pub with_tree : Result Object → Progress → Attempt (Unit {0})
with_tree (err fault) s = failed fault s
with_tree (ok tree) s = reached tt (record s { tree = tree })

-- What the process makes.
abbrev pub own_meta : Process → ℕ → Meta
own_meta p mode = record {
  mode = mode;
  uid = p.euid;
  gid = p.egid;
  atime = p.now;
  mtime = p.now;
  plain = true;
}

-- mode & 07777
abbrev pub permissions : ℕ → ℕ
permissions mode = mode % 4096

-- apply_ownership, then `t` for both times
abbrev pub finished_meta : Process → Entry → ℕ → Meta
finished_meta p e mode = record (apply_ownership p e.uid e.gid (own_meta p mode)) {
  atime = whole e.mtime;
  mtime = whole e.mtime;
}

-- A link or a file as it is when its times are set. `symlink` refuses NULL.
unfoldable pub file_object : Process → Entry → Result Object
file_object p e =
    if is_link e.mode
    then elim e.link [
      | none ↦ err bad_symlink
      | some target ↦ ok (symlink (finished_meta p e p.link_mode) target)
    ]
    else ok (regular (finished_meta p e (permissions e.mode)) e.contents)

unfoldable pub new_directory : Process → Entry → Object
new_directory p e = directory (apply_ownership p e.uid e.gid (own_meta p 0o700)) empty

module _ (p : Process) (live : Bool) where
  abbrev pub journaled : List Bytes → Progress → Progress
  journaled path s = record s { journal = journal_add live path s.journal }

  unfoldable pub add_object : List Bytes → Object → Progress → Attempt (Unit {0})
  add_object path x s =
      and_then (with_tree (create s.tree path x) s) (λ made t. reached tt (journaled path t))

  abbrev pub check_parent : List Bytes → Located → Progress → Attempt (Unit {0})
  check_parent path absent s = add_object path (directory (own_meta p 0o755) empty) s
  check_parent path through_file s = failed stat_failed s
  check_parent path (located o) s = if is_dir o then reached tt s else failed not_a_directory s

  -- The loop of `path_parents`: `before` is the part of the path before this component.
  unfoldable pub path_parents : List Bytes → List Bytes → Progress → Attempt (Unit {0})
  path_parents before [] s = reached tt s
  path_parents before (name ∷ []) s = reached tt s
  path_parents before (name ∷ next ∷ names) s =
      let here = before ++ name ∷ [] in
      and_then (check_parent here (locate s.tree here) s)
        (λ made t. path_parents here (next ∷ names) t)

  -- An object that is not there yet, and whether it is a directory to be finished.
  abbrev pub add_new : Bool → List Bytes → Result Object → Progress → Attempt Bool
  add_new created path (err fault) s = failed fault s
  add_new created path (ok x) s = and_then (add_object path x s) (λ made t. reached created t)

  -- A directory of the payload, with whether it has been created.
  unfoldable pub extract_directory : Entry → List Bytes → Located → Progress → Attempt Bool
  extract_directory e path (located o) s = if is_dir o then reached false s else failed collision s
  extract_directory e path absent s = add_new true path (ok (new_directory p e)) s
  extract_directory e path through_file s = add_new true path (ok (new_directory p e)) s

  unfoldable pub extract_file : Entry → List Bytes → Located → Progress → Attempt Bool
  extract_file e path (located o) s = failed collision s
  extract_file e path absent s = add_new false path (file_object p e) s
  extract_file e path through_file s = add_new false path (file_object p e) s

  -- One round of the first loop.
  unfoldable pub extract_entry : Entry → Progress → Attempt Bool
  extract_entry e s =
      let path = split_slash e.path in
      if is_empty e.path
      then reached false s
      else and_then (path_parents [] path s) (λ made t.
        if is_directory e.mode
        then extract_directory e path (locate t.tree path) t
        else extract_file e path (locate t.tree path) t)

  -- chmod and the times of a directory that has been created
  unfoldable pub finish_directory : Bool → Entry → Progress → Attempt (Unit {0})
  finish_directory false e s = reached tt s
  finish_directory true e s =
      with_tree (restore_directory s.tree (split_slash e.path) (permissions e.mode) e.mtime) s

  -- Both loops: the first goes down the list, the second comes back.
  unfoldable pub extract : List Entry → Progress → Attempt (Unit {0})
  extract [] s = reached tt s
  extract (e ∷ entries) s =
      and_then (extract_entry e s)
        (λ created t. and_then (extract entries t) (λ all u. finish_directory created e u))

abbrev pub is_vacant : Object → Bool
is_vacant (directory m empty) = true
is_vacant (directory m (entry own o l)) = false
is_vacant (regular m b) = true
is_vacant (symlink m b) = true
is_vacant (special m) = true

-- rmdir of a directory that is empty, or unlink; anything else leaves the tree as it is
unfoldable mutual
  pub remove_object : Object → List Bytes → Object
  remove_object (directory m l) [] = directory m l
  remove_object (directory m l) (name ∷ names) = directory m (remove_in l name names)
  remove_object (regular m b) names = regular m b
  remove_object (symlink m b) names = symlink m b
  remove_object (special m) names = special m

  pub remove_in : Listing → Bytes → List Bytes → Listing
  remove_in empty name names = empty
  remove_in (entry own o l) name [] =
      let later = entry own o (remove_in l name []) in
      if str_eq own name then (if is_vacant o then l else entry own o l) else later
  remove_in (entry own o l) name (next ∷ names) =
      let here = entry own (remove_object o (next ∷ names)) l in
      let later = entry own o (remove_in l name (next ∷ names)) in
      if str_eq own name then here else later

-- The newest first.
unfoldable pub journal_undo : List (List Bytes) → Object → Object
journal_undo [] tree = tree
journal_undo (path ∷ journal) tree = journal_undo journal (remove_object tree path)
