-- ===== src/Installer/Entries/Sorting.antt =====
-- `sort_entries`, which stands for the qsort of pkgs/installer/util.c.
use minidarwin.Prelude.{
  ◌≡◌, ◌≢◌, Ordering, List, [], ◌∷◌, All, All-map, ◌⊎◌, inl, inr, Ordering-cases,
}
use minidarwin.Installer.Entries.{Entry, entry_compare, insert_entry, sort_entries}
use minidarwin.Installer.Entries.Order.{path_compare_swap, path_compare_trans}

abbrev pub NotAbove : Entry → Entry → Type 0
NotAbove e f = entry_compare e f ≢ Ordering.gt

abbrev pub IsSorted : List Entry → Type 0
IsSorted [] = Unit {0}
IsSorted (e ∷ list) = All (NotAbove e) list × IsSorted list

-- a relation between all pairs of entries, the earlier first
abbrev pub Pairs : (Entry → Entry → Type 0) → List Entry → Type 0
Pairs R [] = Unit {0}
Pairs R (e ∷ list) = All (R e) list × Pairs R list

insert_cases :
    (e f : Entry) (list : List Entry)
    → (NotAbove e f × (insert_entry e (f ∷ list) ≡ e ∷ f ∷ list))
      ⊎ ((entry_compare e f ≡ Ordering.gt) × (insert_entry e (f ∷ list) ≡ f ∷ insert_entry e list))
unfolding insert_entry
insert_cases e f list = elim (Ordering-cases (entry_compare e f)) [
  | inl c ↦ inl ((λ k. cc (c, k)), rw (c, insert_entry))
  | inr (inl c) ↦ inl ((λ k. cc (c, k)), rw (c, insert_entry))
  | inr (inr c) ↦ inr (c, rw (c, insert_entry))
]

module _ (P : Entry → Type 0) where
  insert-All : (e : Entry) (list : List Entry) → P e → All P list → All P (insert_entry e list)
  unfolding insert_entry
  insert-All e [] h a = (h, tt)
  insert-All e (f ∷ list) h a = elim (insert_cases e f list) [
    | inl (_, c) ↦ rw c (h, a)
    | inr (_, c) ↦ rw c (a.0, insert-All e list h a.1)
  ]

  All-insert : (e : Entry) (list : List Entry) → All P (insert_entry e list) → P e × All P list
  unfolding insert_entry
  All-insert e [] a = (a.0, tt)
  All-insert e (f ∷ list) a = elim (insert_cases e f list) [
    | inl (_, c) ↦ let b : All P (e ∷ f ∷ list) = rw c at a in (b.0, b.1)
    | inr (_, c) ↦
        let b : All P (f ∷ insert_entry e list) = rw c at a in
        let (h, r) = All-insert e list b.1 in (h, (b.0, r))
  ]

  pub sort-All : (list : List Entry) → All P list → All P (sort_entries list)
  unfolding sort_entries
  sort-All [] a = tt
  sort-All (e ∷ list) a = insert-All e (sort_entries list) a.0 (sort-All list a.1)

  pub All-sort : (list : List Entry) → All P (sort_entries list) → All P list
  unfolding sort_entries
  All-sort [] a = tt
  All-sort (e ∷ list) a = let (h, r) = All-insert e (sort_entries list) a in (h, All-sort list r)

NotAbove-swap : (e f : Entry) → entry_compare e f ≡ Ordering.gt → NotAbove f e
unfolding entry_compare
NotAbove-swap e f h k = cc (path_compare_swap e.path f.path h, k)

NotAbove-trans : (e f g : Entry) → NotAbove e f → NotAbove f g → NotAbove e g
unfolding entry_compare
NotAbove-trans e f g = path_compare_trans e.path f.path g.path

insert-IsSorted : (e : Entry) (list : List Entry) → IsSorted list → IsSorted (insert_entry e list)
unfolding insert_entry
insert-IsSorted e [] s = (tt, tt)
insert-IsSorted e (f ∷ list) s = elim (insert_cases e f list) [
  | inl (low, c) ↦
      rw c ((low, All-map (NotAbove f) (NotAbove e) (λ g. NotAbove-trans e f g low) list s.0), s)
  | inr (high, c) ↦
      rw c (insert-All (NotAbove f) e list (NotAbove-swap e f high) s.0, insert-IsSorted e list s.1)
]

pub sort-IsSorted : (list : List Entry) → IsSorted (sort_entries list)
unfolding sort_entries
sort-IsSorted [] = tt
sort-IsSorted (e ∷ list) = insert-IsSorted e (sort_entries list) (sort-IsSorted list)

module _ (R : Entry → Entry → Type 0) (swap : (e f : Entry) → R e f → R f e) where
  insert-Pairs :
      (e : Entry) (list : List Entry)
      → All (R e) list
      → Pairs R list
      → Pairs R (insert_entry e list)
  unfolding insert_entry
  insert-Pairs e [] a p = (tt, tt)
  insert-Pairs e (f ∷ list) a p = elim (insert_cases e f list) [
    | inl (_, c) ↦ rw c (a, p)
    | inr (_, c) ↦ rw c (insert-All (R f) e list (swap e f a.0) p.0, insert-Pairs e list a.1 p.1)
  ]

  Pairs-insert :
      (e : Entry) (list : List Entry)
      → Pairs R (insert_entry e list)
      → All (R e) list × Pairs R list
  unfolding insert_entry
  Pairs-insert e [] p = (tt, tt)
  Pairs-insert e (f ∷ list) p = elim (insert_cases e f list) [
    | inl (_, c) ↦ let q : Pairs R (e ∷ f ∷ list) = rw c at p in (q.0, q.1)
    | inr (_, c) ↦
        let q : Pairs R (f ∷ insert_entry e list) = rw c at p in
        let (a, r) = Pairs-insert e list q.1 in
        let (h, b) = All-insert (R f) e list q.0 in ((swap f e h, a), (b, r))
  ]

  pub sort-Pairs : (list : List Entry) → Pairs R list → Pairs R (sort_entries list)
  unfolding sort_entries
  sort-Pairs [] p = tt
  sort-Pairs (e ∷ list) p =
      insert-Pairs e (sort_entries list) (sort-All (R e) list p.0) (sort-Pairs list p.1)

  pub Pairs-sort : (list : List Entry) → Pairs R (sort_entries list) → Pairs R list
  unfolding sort_entries
  Pairs-sort [] p = tt
  Pairs-sort (e ∷ list) p =
      let (a, r) = Pairs-insert e (sort_entries list) p in
      (All-sort (R e) list a, Pairs-sort list r)
