-- ===== src/Installer/Receipts/Changes.antt =====
-- The list of `script_changes` of pkgs/installer/receipts.c, path by path.
use mathlib.Core.List.{append_assoc, append-nil}
use minidarwin.Prelude.{
  ◌≡◌, ◌≢◌, refl, sym, ap, ◌∙◌, false, Option, none, some, List, [], ◌∷◌, ◌++◌, Bytes, All, All-map,
  if◌then◌else◌, arith, Bool-cases, inl, inr,
}
use minidarwin.Installer.Result.{ok, bind-eq-ok, ok-inj}
use minidarwin.Installer.Paths.{str_eq}
use minidarwin.Installer.Paths.Prefix.{str_eq_iff}
use minidarwin.Installer.Entries.{
  Change, created, modified, removed, Entry, entries_append, entries_find,
}
use minidarwin.Installer.Entries.Sorting.{Pairs}
use minidarwin.Installer.Receipts.{
  same_entry, copy_entry, change_of, append_change, changes_after, change_gone, changes_before,
  script_changes,
}

abbrev changed : Entry → Option Change → List Entry
changed e none = []
changed e (some c) = copy_entry e c ∷ []

abbrev after_list : List Entry → List Entry → List Entry
after_list before [] = []
after_list before (now ∷ after) =
    changed now (change_of now (entries_find before now.path)) ++ after_list before after

abbrev before_list : List Entry → List Entry → List Entry
before_list after [] = []
before_list after (was ∷ before) =
    changed was (change_gone (entries_find after was.path)) ++ before_list after before

append_change-list :
    (out out' : List Entry) (e : Entry) (c : Option Change)
    → append_change out e c ≡ ok out'
    → out' ≡ out ++ changed e c
unfolding append_change entries_append
append_change-list out out' e none h = sym (ok-inj h) ∙ sym (append-nil out)
append_change-list out out' e (some c) h = ground arith

changes_after-list :
    (out out' before after : List Entry)
    → changes_after out before after ≡ ok out'
    → out' ≡ out ++ after_list before after
unfolding changes_after
changes_after-list out out' before [] h = sym (ok-inj h) ∙ sym (append-nil out)
changes_after-list out out' before (now ∷ after) h =
    let (mid, a, b) =
      bind-eq-ok (append_change out now (change_of now (entries_find before now.path))) _ h in
    changes_after-list mid out' before after b
    ∙ ap (λ m. m ++ after_list before after) (append_change-list out mid now _ a)
    ∙ append_assoc out _ _

changes_before-list :
    (out out' after before : List Entry)
    → changes_before out after before ≡ ok out'
    → out' ≡ out ++ before_list after before
unfolding changes_before
changes_before-list out out' after [] h = sym (ok-inj h) ∙ sym (append-nil out)
changes_before-list out out' after (was ∷ before) h =
    let (mid, a, b) =
      bind-eq-ok (append_change out was (change_gone (entries_find after was.path))) _ h in
    changes_before-list mid out' after before b
    ∙ ap (λ m. m ++ before_list after before) (append_change-list out mid was _ a)
    ∙ append_assoc out _ _

abbrev first_of : Option Entry → Option Entry → Option Entry
first_of (some e) o = some e
first_of none o = o

find-append :
    (xs ys : List Entry) (p : Bytes)
    → entries_find (xs ++ ys) p ≡ first_of (entries_find xs p) (entries_find ys p)
unfolding entries_find
find-append [] ys p = refl
find-append (x ∷ xs) ys p = ground (arith, find-append xs ys p)

-- What the inventory says of a path: by the entry that is there now, and the one that was.
abbrev pub recorded : Option Entry → Option Entry → Option Entry
recorded none none = none
recorded none (some was) = some (copy_entry was removed)
recorded (some now) none = some (copy_entry now created)
recorded (some now) (some was) = if same_entry now was then none else some (copy_entry now modified)

abbrev pub Differ : Entry → Entry → Type 0
Differ a b = a.path ≢ b.path

abbrev copied : Entry → Option Change → Option Entry
copied e none = none
copied e (some c) = some (copy_entry e c)

find_changed :
    (e : Entry) (c : Option Change) (p : Bytes)
    → entries_find (changed e c) p ≡ (if str_eq e.path p then copied e c else none)
unfolding entries_find copy_entry
find_changed e c p = ground arith

first_of-none : (o : Option Entry) → first_of o none ≡ o
first_of-none none = refl
first_of-none (some e) = refl

not_here : (e : Entry) (p : Bytes) → e.path ≢ p → str_eq e.path p ≡ false
not_here e p h = ground (arith, (str_eq_iff e.path p).0)

-- no entry has the path
absent :
    (before after : List Entry) (p : Bytes)
    → All (λ e. e.path ≢ p) after
    → entries_find (after_list before after) p ≡ none
absent before [] p h = unfold entries_find in refl
absent before (now ∷ after) p h =
    let c = change_of now (entries_find before now.path) in
    rw
      (
        find-append (changed now c) (after_list before after) p,
        find_changed now c p,
        not_here now p h.0,
      )
      (absent before after p h.1)

find_head :
    (e : Entry) (es : List Entry) (p : Bytes)
    → entries_find (e ∷ es) p ≡ (if str_eq e.path p then some e else entries_find es p)
unfolding entries_find
find_head e es p = refl

abbrev after_record : Option Entry → Option Entry → Option Entry
after_record none was = none
after_record (some now) was = copied now (change_of now was)

find_after_list :
    (before after : List Entry) (p : Bytes)
    → Pairs Differ after
    → entries_find (after_list before after) p
      ≡ after_record (entries_find after p) (entries_find before p)
find_after_list before [] p d = unfold entries_find in refl
find_after_list before (now ∷ after) p d = elim (Bool-cases (str_eq now.path p)) [
  | inl same ↦
      let e = (str_eq_iff now.path p).0 same in
      let c = change_of now (entries_find before now.path) in
      let none_later =
        absent before after p
          (All-map (Differ now) (λ f. f.path ≢ p) (λ f n x. n (e ∙ sym x)) after d.0) in
      rw
        (
          find-append (changed now c) (after_list before after) p,
          find_changed now c p,
          find_head now after p,
          same,
          none_later,
          first_of-none (copied now c),
        )
        (ap (λ q. copied now (change_of now (entries_find before q))) e)
  | inr other ↦
      let c = change_of now (entries_find before now.path) in
      rw
        (
          find-append (changed now c) (after_list before after) p,
          find_changed now c p,
          find_head now after p,
          other,
        )
        (find_after_list before after p d.1)
]

abbrev before_record : Option Entry → Option Entry → Option Entry
before_record (some now) was = none
before_record none none = none
before_record none (some was) = some (copy_entry was removed)

nothing_before : (o : Option Entry) → none ≡ before_record o none
nothing_before none = refl
nothing_before (some e) = refl

gone_first :
    (o : Option Entry) (was : Entry) (r : Option Entry)
    → first_of (copied was (change_gone o)) (before_record o r) ≡ before_record o (some was)
unfolding change_gone
gone_first none was r = refl
gone_first (some e) was r = refl

find_before_list :
    (after before : List Entry) (p : Bytes)
    → entries_find (before_list after before) p
      ≡ before_record (entries_find after p) (entries_find before p)
find_before_list after [] p = unfold entries_find in nothing_before (entries_find after p)
find_before_list after (was ∷ before) p = elim (Bool-cases (str_eq was.path p)) [
  | inl same ↦
      let e = (str_eq_iff was.path p).0 same in
      let c = change_gone (entries_find after was.path) in
      rw
        (
          find-append (changed was c) (before_list after before) p,
          find_changed was c p,
          find_head was before p,
          same,
          find_before_list after before p,
          ap (entries_find after) e,
        )
        (gone_first (entries_find after p) was (entries_find before p))
  | inr other ↦
      let c = change_gone (entries_find after was.path) in
      rw
        (
          find-append (changed was c) (before_list after before) p,
          find_changed was c p,
          find_head was before p,
          other,
        )
        (find_before_list after before p)
]

both :
    (now was : Option Entry)
    → first_of (after_record now was) (before_record now was) ≡ recorded now was
unfolding change_of
both now was = ground arith

-- Where no path stands twice in the second snapshot, the changes that script_changes lists in an
-- empty list hold, at each path, the entry that appeared, the entry that differs from what was
-- there, the entry that is gone, or nothing.
pub script_changes-recorded :
    (before after out : List Entry) (p : Bytes)
    → Pairs Differ after
    → script_changes [] before after ≡ ok out
    → entries_find out p ≡ recorded (entries_find after p) (entries_find before p)
unfolding script_changes
script_changes-recorded before after out p d h =
    let (mid, a, b) = bind-eq-ok (changes_after [] before after) _ h in
    let list : out ≡ after_list before after ++ before_list after before =
      changes_before-list mid out after before b
      ∙ ap (λ m. m ++ before_list after before) (changes_after-list [] mid before after a) in
    rw
      (
        list,
        find-append (after_list before after) (before_list after before) p,
        find_after_list before after p d,
        find_before_list after before p,
      )
      (both (entries_find after p) (entries_find before p))
