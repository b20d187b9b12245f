-- ===== src/Installer/Extraction/Kept.antt =====
-- What an extraction of pkgs/installer keeps of the tree, and what its journal takes away again.
use mathlib.Core.Path.{subst}
use minidarwin.Prelude.{
  ◌≡◌, refl, Bool, true, false, List, [], ◌∷◌, Bytes, All, All-map, Bool-cases, inl, inr,
}
use minidarwin.Installer.Result.{Result, Result-cases, ok, err, ok-inj}
use minidarwin.Installer.Paths.{is_empty, split_slash}
use minidarwin.Installer.Entries.{Entry, is_directory}
use minidarwin.Installer.Staging.{Object, Process, restore_directory}
use minidarwin.Installer.Extraction.{
  Attempt, failed, reached, left, Located, absent, located, through_file, is_dir, locate, Progress,
  add_object, path_parents, permissions, file_object, new_directory, add_new, extract_directory,
  extract_file, extract_entry, finish_directory, extract, remove_object, journal_undo,
}
use minidarwin.Installer.Extraction.Steps.{remove_object-Stands}
use minidarwin.Installer.Extraction.Standing.{
  Stands, Keeps, Keeps-refl, Keeps-trans, Stands-trans, restore_directory-Keeps,
}
use minidarwin.Installer.Extraction.Grown.{
  Grown, IsGrown, IsNew, Leaves, Leaves-map, Anything, and_then-Grown, add_object-Grown,
  path_parents-Grown, unchanged-Grown,
}
use minidarwin.Installer.Extraction.Installed.{
  Represents, IsInstalled, file_object-Carries, Keeps-IsInstalled,
}

module _ (p : Process) (live : Bool) (base : Object) where
  abbrev Entered : Entry → Bool → Progress → Type 0
  Entered e created t = IsInstalled p t.tree e

  add_new-Entered :
      (created : Bool) (e : Entry) (made : Result Object) (s : Progress)
      → IsNew s.tree (split_slash e.path)
      → IsGrown base s
      → ((x : Object) → made ≡ ok x → Represents p e x)
      → Leaves
          (Grown p live base s)
          (Entered e)
          (add_new p live created (split_slash e.path) made s)
  add_new-Entered created e (err fault) s n g is = unchanged-Grown p live base s g
  add_new-Entered created e (ok x) s n g is =
      let path = split_slash e.path in
      and_then-Grown p live base s (λ _ t. locate t.tree path ≡ located x) (Entered e)
        (add_object p live path x s) _ (add_object-Grown p live base path x s n g)
        (λ _ t h _ there. (unchanged-Grown p live base t h, inr (x, there, is x refl)))

  new_directory-Represents :
      (e : Entry) (x : Object)
      → is_directory e.mode ≡ true
      → ok (new_directory p e) ≡ ok x
      → Represents p e x
  unfolding new_directory
  new_directory-Represents e x d h =
      rw (Represents, d) (subst (λ z. is_dir z ≡ true) (ok-inj h) refl)

  extract_directory-Entered :
      (e : Entry) (r : Located) (s : Progress)
      → locate s.tree (split_slash e.path) ≡ r
      → is_directory e.mode ≡ true
      → IsGrown base s
      → Leaves
          (Grown p live base s)
          (Entered e)
          (extract_directory p live e (split_slash e.path) r s)
  unfolding extract_directory
  extract_directory-Entered e (located o) s l d g = elim (Bool-cases (is_dir o)) [
    | inl is ↦ rw is (unchanged-Grown p live base s g, inr (o, l, rw (Represents, d) is))
    | inr not_dir ↦ rw not_dir (unchanged-Grown p live base s g)
  ]
  extract_directory-Entered e absent s l d g =
      add_new-Entered true e (ok (new_directory p e)) s (λ o h. cc (l, h)) g
        (λ x. new_directory-Represents e x d)
  extract_directory-Entered e through_file s l d g =
      add_new-Entered true e (ok (new_directory p e)) s (λ o h. cc (l, h)) g
        (λ x. new_directory-Represents e x d)

  extract_file-Entered :
      (e : Entry) (r : Located) (s : Progress)
      → locate s.tree (split_slash e.path) ≡ r
      → is_directory e.mode ≡ false
      → IsGrown base s
      → Leaves (Grown p live base s) (Entered e) (extract_file p live e (split_slash e.path) r s)
  unfolding extract_file
  extract_file-Entered e (located o) s l d g = unchanged-Grown p live base s g
  extract_file-Entered e absent s l d g =
      add_new-Entered false e (file_object p e) s (λ o h. cc (l, h)) g
        (λ x made. rw (Represents, d) (file_object-Carries p e x made))
  extract_file-Entered e through_file s l d g =
      add_new-Entered false e (file_object p e) s (λ o h. cc (l, h)) g
        (λ x made. rw (Represents, d) (file_object-Carries p e x made))

  extract_entry-Entered :
      (e : Entry) (s : Progress)
      → IsGrown base s
      → Leaves (Grown p live base s) (Entered e) (extract_entry p live e s)
  unfolding extract_entry
  extract_entry-Entered e s g =
      let path = split_slash e.path in
      elim (Bool-cases (is_empty e.path)) [
        | inl blank ↦ rw blank (unchanged-Grown p live base s g, inl blank)
        | inr full ↦ rw full (
            and_then-Grown p live base s Anything (Entered e) (path_parents p live [] path s) _
              (path_parents-Grown p live base [] path s g)
              (λ _ t h _ _. elim (Bool-cases (is_directory e.mode)) [
                | inl d ↦ rw d (extract_directory-Entered e (locate t.tree path) t refl d h)
                | inr d ↦ rw d (extract_file-Entered e (locate t.tree path) t refl d h)
              ]))
      ]

  finish_directory-Grown :
      (created : Bool) (e : Entry) (s : Progress)
      → IsGrown base s
      → Leaves
          (Grown p live base s)
          (λ _ t. Keeps s.tree t.tree)
          (finish_directory p live created e s)
  unfolding finish_directory Grown
  finish_directory-Grown false e s g = ((g, Keeps-refl s.tree), Keeps-refl s.tree)
  finish_directory-Grown true e s g =
      let path = split_slash e.path in
      elim (Result-cases (restore_directory s.tree path (permissions e.mode) e.mtime)) [
        | inl (fault, r) ↦ rw r (g, Keeps-refl s.tree)
        | inr (tree, r) ↦
            let keeps = restore_directory-Keeps s.tree path (permissions e.mode) e.mtime tree r in
            rw r (
              (
                record { keeps = Keeps-trans base s.tree tree g.keeps keeps; fresh = g.fresh },
                keeps,
              ),
              keeps,
            )
      ]

  abbrev AllInstalled : List Entry → Unit {0} → Progress → Type 0
  AllInstalled entries value t = All (IsInstalled p t.tree) entries

  extract-Grown :
      (entries : List Entry) (s : Progress)
      → IsGrown base s
      → Leaves (Grown p live base s) (AllInstalled entries) (extract p live entries s)
  unfolding extract
  extract-Grown [] s g = (unchanged-Grown p live base s g, tt)
  extract-Grown (e ∷ entries) s g =
      and_then-Grown p live base s (Entered e) (AllInstalled (e ∷ entries))
        (extract_entry p live e s) _ (extract_entry-Entered e s g)
        (λ created t h _ here.
          and_then-Grown p live base t (AllInstalled entries) (AllInstalled (e ∷ entries))
            (extract p live entries t) _ (extract-Grown entries t h)
            (λ _ u k on others.
              Leaves-map (Grown p live base u) (λ _ v. Keeps u.tree v.tree)
                (AllInstalled (e ∷ entries)) (finish_directory p live created e u)
                (λ _ v last. (
                  Keeps-IsInstalled p t.tree v.tree e (Keeps-trans t.tree u.tree v.tree on last)
                      here,
                  All-map (IsInstalled p u.tree) _ (λ x. Keeps-IsInstalled p u.tree v.tree x last)
                      entries others,
                ))
                (finish_directory-Grown created e u k)))

undone :
    (base t : Object) (path q : List Bytes) (o : Object)
    → IsNew base path
    → locate base q ≡ located o
    → Stands o (locate t q)
    → Stands o (locate (remove_object t path) q)
undone base t path q o n e h =
    Stands-trans o (locate t q) (locate (remove_object t path) q) h (λ r there.
      remove_object-Stands t path q r (λ same. n o (subst (λ z. locate base z ≡ located o) same e))
        there)

journal_undo-Keeps :
    (base t : Object) (journal : List (List Bytes))
    → Keeps base t
    → All (IsNew base) journal
    → Keeps base (journal_undo journal t)
unfolding journal_undo
journal_undo-Keeps base t [] k a = k
journal_undo-Keeps base t (path ∷ journal) k a =
    journal_undo-Keeps base (remove_object t path) journal
      (λ q o e. undone base t path q o a.0 e (k q o e)) a.1

-- An extraction into a tree, from an empty journal.
abbrev pub extract_from : Process → Bool → List Entry → Object → Attempt (Unit {0})
extract_from p live entries base = extract p live entries (record { tree = base; journal = [] })

-- The tree, once the journal has been undone.
abbrev pub undone_tree : Attempt (Unit {0}) → Object
undone_tree end = journal_undo (left end).journal (left end).tree

-- What is claimed of an extraction that ends well.
abbrev pub Complete : Process → List Entry → Attempt (Unit {0}) → Type 0
Complete p entries (failed fault s) = Unit
Complete p entries (reached value s) = All (IsInstalled p s.tree) entries

ended :
    (p : Process) (live : Bool) (base : Object) (entries : List Entry) (s : Progress)
    (end : Attempt (Unit {0}))
    → Leaves (Grown p live base s) (λ _ t. All (IsInstalled p t.tree) entries) end
    → Keeps base (left end).tree × Keeps base (undone_tree end) × Complete p entries end
unfolding Grown
ended p live base entries s (failed fault t) (grown, _) =
    (grown.keeps, journal_undo-Keeps base t.tree t.journal grown.keeps grown.fresh, tt)
ended p live base entries s (reached value t) ((grown, _), all) =
    (grown.keeps, journal_undo-Keeps base t.tree t.journal grown.keeps grown.fresh, all)

-- An extraction from an empty journal, whether it ends well or fails, leaves every object of the
-- tree as it was, directories as directories; and so does undoing the journal of what it leaves.
-- Where it ends well, the path of every entry that has one holds a directory for a directory, a
-- link with its target and the permissions of a new link, or a file with its content and
-- permissions. Links and files have the time of the entry in whole seconds, as both their times,
-- and the owner that the entry asks for if the process is privileged, that of the process
-- otherwise.
pub extract_installs :
    (p : Process) (live : Bool) (base : Object) (entries : List Entry)
    → Keeps base (left (extract_from p live entries base)).tree
      × Keeps base (undone_tree (extract_from p live entries base))
      × Complete p entries (extract_from p live entries base)
extract_installs p live base entries =
    let start : Progress = record { tree = base; journal = [] } in
    ended p live base entries start (extract p live entries start)
      (extract-Grown p live base entries start (record { keeps = Keeps-refl base; fresh = tt }))
