-- ===== src/Installer/Staging/Restored.antt =====
-- A staged copy whose directories are restored, pkgs/installer/install.c.
use mathlib.Core.List.{map}
use mathlib.Core.Path.{subst}
use minidarwin.Prelude.{
  ℕ, ◌+◌, ◌≡◌, ◌≢◌, refl, sym, ap, ◌∙◌, false, List, [], ◌∷◌, ◌++◌, Bytes, All, All-append, arith,
}
use minidarwin.Installer.Result.{replaced_directory, Result, ok, err, ◌>>=◌, bind-eq-ok, ok-inj}
use minidarwin.Installer.Paths.Prefix.{str_eq_iff}
use minidarwin.Installer.Staging.{
  Meta, Object, directory, regular, symlink, special, Listing, empty, entry, Process,
  apply_ownership, whole, BaseDirectory, beneath, copied_directory, copied_file, copied_link,
  check_object, stage_copy, stage_listing, restore_directory, restore_entry,
  restore_base_directories,
}

-- The process can give the owner of this object to a new one.
abbrev pub OwnerKept : Process → Meta → Type 0
OwnerKept p m = (p.privileged ≡ false → (m.uid ≡ p.euid) × (m.gid ≡ p.egid))

abbrev pub NotThere : Bytes → Listing → Type 0
NotThere name empty = Unit {0}
NotThere name (entry own o l) = (name ≢ own) × NotThere name l

-- Names are different in each directory, and owners and the permissions of links are those that a
-- copy gets.
abbrev mutual
  pub Copyable : Process → Object → Type 0
  Copyable p (directory m l) = OwnerKept p m × CopyableListing p l
  Copyable p (regular m b) = OwnerKept p m
  Copyable p (symlink m b) = OwnerKept p m × (m.mode ≡ p.link_mode)
  Copyable p (special m) = OwnerKept p m

  pub CopyableListing : Process → Listing → Type 0
  CopyableListing p empty = Unit {0}
  CopyableListing p (entry own o l) = NotThere own l × Copyable p o × CopyableListing p l

-- What is left of a tree: each directory has the whole seconds of its modification time, for both of
-- its times, and everything else is as it was.
abbrev pub rounded : Meta → Meta
rounded m = record m { atime = whole m.mtime.seconds; mtime = whole m.mtime.seconds }

abbrev mutual
  pub whole_seconds : Object → Object
  whole_seconds (directory m l) = directory (rounded m) (whole_seconds_in l)
  whole_seconds (regular m b) = regular m b
  whole_seconds (symlink m b) = symlink m b
  whole_seconds (special m) = special m

  pub whole_seconds_in : Listing → Listing
  whole_seconds_in empty = empty
  whole_seconds_in (entry own o l) = entry own (whole_seconds o) (whole_seconds_in l)

-- The same listing with another object in front.
abbrev in_front : Bytes → Object → Object → Result Object
in_front own o (directory m l) = ok (directory m (entry own o l))
in_front own o (regular m b) = err replaced_directory
in_front own o (symlink m b) = err replaced_directory
in_front own o (special m) = err replaced_directory

-- The path leads through another name.
abbrev PathElsewhere : Bytes → List Bytes → Type 0
PathElsewhere own [] = ⊥
PathElsewhere own (name ∷ names) = own ≢ name

abbrev Elsewhere : Bytes → BaseDirectory → Type 0
Elsewhere own d = PathElsewhere own d.path

restore_other :
    (own : Bytes) (o x : Object) (path : List Bytes) (mode mtime : ℕ)
    → PathElsewhere own path
    → (in_front own o x >>= λ q. restore_directory q path mode mtime)
      ≡ (restore_directory x path mode mtime >>= in_front own o)
unfolding restore_directory restore_entry
restore_other own o x [] mode mtime e = absurd e
restore_other own o (directory m l) (name ∷ names) mode mtime e =
    let same = str_eq_iff own name in ground arith
restore_other own o (regular m b) (name ∷ names) mode mtime e = refl
restore_other own o (symlink m b) (name ∷ names) mode mtime e = refl
restore_other own o (special m) (name ∷ names) mode mtime e = refl

restore_same :
    (own : Bytes) (m : Meta) (o : Object) (l : Listing) (path : List Bytes) (mode mtime : ℕ)
    → restore_directory (directory m (entry own o l)) (own ∷ path) mode mtime
      ≡ (restore_directory o path mode mtime >>= λ q. ok (directory m (entry own q l)))
unfolding restore_directory restore_entry
restore_same own m o l path mode mtime = let same = (str_eq_iff own own).1 refl in ground arith

-- Directories below other names are restored behind the first entry.
restore_behind :
    (own : Bytes) (o x : Object) (ds : List BaseDirectory) (y : Object)
    → All (Elsewhere own) ds
    → (q : Object) → in_front own o x ≡ ok y
    → restore_base_directories ds x ≡ ok q
    → restore_base_directories ds y ≡ in_front own o q
unfolding restore_base_directories
restore_behind own o x [] y e q front h = sym front ∙ ap (in_front own o) (ok-inj h)
restore_behind own o x (d ∷ ds) y e q front h =
    let (r, inner, outer) = bind-eq-ok (restore_base_directories ds x) _ h in
    let ih = restore_behind own o x ds y e.1 r front inner in
    ap (λ t. t >>= λ z. restore_directory z d.path d.base_mode d.base_mtime) ih
    ∙ restore_other own o r d.path d.base_mode d.base_mtime e.0
    ∙ ap (λ t. t >>= in_front own o) outer

-- Directories below the first name are restored in its object.
restore_below :
    (own : Bytes) (m : Meta) (o : Object) (l : Listing) (ds : List BaseDirectory) (q : Object)
    → restore_base_directories ds o ≡ ok q
    → restore_base_directories (map (beneath own) ds) (directory m (entry own o l))
      ≡ ok (directory m (entry own q l))
unfolding restore_base_directories
restore_below own m o l [] q h = ap (λ z. ok (directory m (entry own z l))) (ok-inj h)
restore_below own m o l (d ∷ ds) q h =
    let (r, inner, outer) = bind-eq-ok (restore_base_directories ds o) _ h in
    let ih = restore_below own m o l ds r inner in
    ap (λ t. t >>= λ z. restore_directory z (own ∷ d.path) d.base_mode d.base_mtime) ih
    ∙ restore_same own m r l d.path d.base_mode d.base_mtime
    ∙ ap (λ t. t >>= λ z. ok (directory m (entry own z l))) outer

restore_append :
    (a b : List BaseDirectory) (o q : Object)
    → restore_base_directories b o ≡ ok q
    → restore_base_directories (a ++ b) o ≡ restore_base_directories a q
unfolding restore_base_directories
restore_append [] b o q h = h
restore_append (d ∷ a) b o q h =
    ap (λ t. t >>= λ z. restore_directory z d.path d.base_mode d.base_mtime)
      (restore_append a b o q h)

beneath-Elsewhere :
    (name own : Bytes) (ds : List BaseDirectory)
    → own ≢ name
    → All (Elsewhere own) (map (beneath name) ds)
beneath-Elsewhere name own [] n = tt
beneath-Elsewhere name own (d ∷ ds) n = (n, beneath-Elsewhere name own ds n)

mutual
  unfolding stage_copy

  -- The paths of the directories of a listing lead through its names.
  stage_listing-Elsewhere :
      (p : Process) (depth : ℕ) (l : Listing) (out : Listing × List BaseDirectory) (own : Bytes)
      → stage_listing p depth l ≡ ok out
      → NotThere own l
      → All (Elsewhere own) out.1
  stage_listing-Elsewhere p depth empty out own e n =
      subst (λ (o : Listing × List BaseDirectory). All (Elsewhere own) o.1) (ok-inj e) tt
  stage_listing-Elsewhere p depth (entry name o l) out own e n =
      let (c, _, a) = bind-eq-ok (stage_copy p depth o) _ e in
      let (rest, copied, same) = bind-eq-ok (stage_listing p depth l) _ a in
      subst (λ (o : Listing × List BaseDirectory). All (Elsewhere own) o.1) (ok-inj same)
        (All-append (Elsewhere own) (map (beneath name) c.1) rest.1
          (beneath-Elsewhere name own c.1 n.0)
          (stage_listing-Elsewhere p depth l rest own copied n.1))

owner-kept :
    (p : Process) (m n : Meta)
    → OwnerKept p m
    → (n.uid ≡ m.uid)
      × (n.gid ≡ m.gid)
      × (n.mode ≡ m.mode)
      × (n.atime ≡ m.atime)
      × (n.mtime ≡ m.mtime)
      × (n.plain ≡ m.plain)
    → apply_ownership p m.uid m.gid n ≡ m
unfolding apply_ownership
owner-kept p m n k e = ground arith

copied_file-eq : (p : Process) (m : Meta) → OwnerKept p m → copied_file p m ≡ m
unfolding copied_file
copied_file-eq p m k = owner-kept p m m k (refl, refl, refl, refl, refl, refl)

copied_link-eq :
    (p : Process) (m : Meta) → OwnerKept p m → m.mode ≡ p.link_mode → copied_link p m ≡ m
unfolding copied_link
copied_link-eq p m k e =
    owner-kept p m (record m { mode = p.link_mode }) k (refl, refl, sym e, refl, refl, refl)

restored_meta :
    (p : Process) (m : Meta) (l : Listing)
    → OwnerKept p m
    → restore_directory (directory (copied_directory p m) l) [] m.mode m.mtime.seconds
      ≡ ok (directory (rounded m) l)
unfolding copied_directory apply_ownership restore_directory
restored_meta p m l k = ground arith

mutual
  unfolding stage_copy restore_base_directories

  restore-stage_copy :
      (p : Process) (depth : ℕ) (o : Object) (out : Object × List BaseDirectory)
      → Copyable p o
      → stage_copy p depth o ≡ ok out
      → restore_base_directories out.1 out.0 ≡ ok (whole_seconds o)
  restore-stage_copy p depth (directory m l) out c e =
      let (_, checked, a) = bind-eq-ok (check_object depth m) _ e in
      let (below, copied, same) = bind-eq-ok (stage_listing p (depth + 1) l) _ a in
      let inner = restore-stage_listing p (depth + 1) (copied_directory p m) l below c.1 copied in
      subst
        (λ (o : Object × List BaseDirectory).
          restore_base_directories o.1 o.0 ≡ ok (whole_seconds (directory m l)))
        (ok-inj same)
        (ap (λ t. t >>= λ z. restore_directory z [] m.mode m.mtime.seconds) inner
          ∙ restored_meta p m (whole_seconds_in l) c.0)
  restore-stage_copy p depth (regular m b) out c e =
      let (_, checked, same) = bind-eq-ok (check_object depth m) _ e in
      subst
        (λ (o : Object × List BaseDirectory). restore_base_directories o.1 o.0 ≡ ok (regular m b))
        (ok-inj same) (ap (λ n. ok (regular n b)) (copied_file-eq p m c))
  restore-stage_copy p depth (symlink m b) out c e =
      let (_, checked, same) = bind-eq-ok (check_object depth m) _ e in
      subst
        (λ (o : Object × List BaseDirectory). restore_base_directories o.1 o.0 ≡ ok (symlink m b))
        (ok-inj same) (ap (λ n. ok (symlink n b)) (copied_link-eq p m c.0 c.1))
  restore-stage_copy p depth (special m) out c e =
      let (_, checked, bad) = bind-eq-ok (check_object depth m) _ e in cc

  restore-stage_listing :
      (p : Process) (depth : ℕ) (m : Meta) (l : Listing) (out : Listing × List BaseDirectory)
      → CopyableListing p l
      → stage_listing p depth l ≡ ok out
      → restore_base_directories out.1 (directory m out.0) ≡ ok (directory m (whole_seconds_in l))
  restore-stage_listing p depth m empty out c e =
      subst
        (λ (o : Listing × List BaseDirectory).
          restore_base_directories o.1 (directory m o.0) ≡ ok (directory m empty))
        (ok-inj e) refl
  restore-stage_listing p depth m (entry name o l) out c e =
      let (first, one, a) = bind-eq-ok (stage_copy p depth o) _ e in
      let (rest, two, same) = bind-eq-ok (stage_listing p depth l) _ a in
      let object = restore-stage_copy p depth o first c.1 one in
      let others = restore-stage_listing p depth m l rest c.2 two in
      let apart = stage_listing-Elsewhere p depth l rest name two c.0 in
      let behind =
        restore_behind name first.0 (directory m rest.0) rest.1
          (directory m (entry name first.0 rest.0)) apart (directory m (whole_seconds_in l)) refl
          others in
      subst
        (λ (q : Listing × List BaseDirectory).
          restore_base_directories q.1 (directory m q.0)
          ≡ ok (directory m (whole_seconds_in (entry name o l))))
        (ok-inj same)
        (restore_append (map (beneath name) first.1) rest.1
            (directory m (entry name first.0 rest.0))
            (directory m (entry name first.0 (whole_seconds_in l))) behind
          ∙ restore_below name m first.0 (whole_seconds_in l) first.1 (whole_seconds o) object)
