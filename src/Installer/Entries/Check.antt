-- ===== src/Installer/Entries/Check.antt =====
-- `entries_check_paths` of pkgs/installer/util.c.
use minidarwin.Prelude.{
  ◌≡◌, ◌≢◌, ◌↔◌, refl, sym, ◌∙◌, Bool, true, false, some, List, [], ◌∷◌, ◌++◌, Bytes, All, All-map,
  All-append, ◌⊎◌, arith, inl, inr, Bool-cases, Ordering-cases, ◌==◌,
}
use minidarwin.Installer.Result.{bind-eq-ok, die-eq-ok, ok}
use minidarwin.Installer.Entries.{
  Entry, sort_entries, is_directory, check_neighbours, path_compare, search_path, ancestors_from,
  ancestors, is_blocked, check_ancestors, check_beneath, entries_check_paths,
}
use minidarwin.Installer.Entries.Order.{Printable, path_compare_eq, path_compare_self}
use minidarwin.Installer.Entries.Sorting.{
  Pairs, sort-All, All-sort, sort-IsSorted, sort-Pairs, Pairs-sort,
}
use minidarwin.Installer.Entries.Neighbours.{
  Compatible, Compatible-swap, Pairs-neighbours, PathsPrintable, neighbours-Pairs,
}

abbrev pub OnlyDirectories : List Entry → Bytes → Type 0
OnlyDirectories list key = All (λ f. f.path ≡ key → is_directory f.mode ≡ true) list

-- Nothing stands beneath an entry that is no directory.
abbrev pub NothingBlocked : List Entry → Type 0
NothingBlocked list = All (λ e. All (OnlyDirectories list) (ancestors e.path)) list

search_cases :
    (key : Bytes) (e : Entry) (list : List Entry)
    → Printable key
    → Printable e.path
    → ((e.path ≡ key) × (search_path key (e ∷ list) ≡ some e))
      ⊎ ((e.path ≢ key) × (search_path key (e ∷ list) ≡ search_path key list))
unfolding search_path
search_cases key e list k p = elim (Ordering-cases (path_compare key e.path)) [
  | inl c ↦ inr ((λ s. cc (c, path_compare_self key, s)), rw (c, search_path))
  | inr (inl c) ↦ inl (sym (path_compare_eq key e.path k p c), rw (c, search_path))
  | inr (inr c) ↦ inr ((λ s. cc (c, path_compare_self key, s)), rw (c, search_path))
]

found_directory :
    (key : Bytes) (list : List Entry)
    → Printable key
    → PathsPrintable list
    → OnlyDirectories list key
    → is_blocked (search_path key list) ≡ false
unfolding is_blocked
found_directory key [] k p h = unfold search_path in refl
found_directory key (e ∷ list) k p h = elim (search_cases key e list k p.0) [
  | inl (same, c) ↦ rw (c, h.0 same)
  | inr (other, c) ↦ rw c (found_directory key list k p.1 h.1)
]

directory_found :
    (allow : Bool) (key : Bytes) (list : List Entry)
    → Printable key
    → PathsPrintable list
    → Pairs (Compatible allow) list
    → is_blocked (search_path key list) ≡ false
    → OnlyDirectories list key
directory_found allow key [] k p c h = tt
directory_found allow key (e ∷ list) k p c h = elim (search_cases key e list k p.0) [
  | inl (same, found) ↦ (
    (λ s. unfold is_blocked in let b : is_blocked (some e) ≡ false = rw found at h in ground arith),
    All-map (Compatible allow e) (λ f. f.path ≡ key → is_directory f.mode ≡ true)
        (λ f cef s. let (_, _, z) = cef (same ∙ sym s) in z) list c.0,
  )
  | inr (other, found) ↦
      ((λ s. absurd (other s)), directory_found allow key list k p.1 c.1 (rw found at h))
]

ancestors_from-Printable :
    (done s : Bytes) → Printable done → Printable s → All Printable (ancestors_from done s)
unfolding ancestors_from
ancestors_from-Printable done [] a b = tt
ancestors_from-Printable done (c ∷ s) a b =
    let rest =
      ancestors_from-Printable (done ++ c ∷ []) s (All-append _ done (c ∷ []) a (b.0, tt)) b.1 in
    elim (Bool-cases (c == b'/')) [ inl e ↦ rw e (a, rest) | inr e ↦ rw e rest ]

module _ (allow : Bool) (sorted : List Entry) (p : PathsPrintable sorted) where
  check_ancestors_iff :
      (keys : List Bytes)
      → All Printable keys
      → Pairs (Compatible allow) sorted
      → (check_ancestors sorted keys ≡ ok tt) ↔ All (OnlyDirectories sorted) keys
  unfolding check_ancestors
  check_ancestors_iff [] k c = ((λ h. tt), (λ h. refl))
  check_ancestors_iff (key ∷ keys) k c = (
    λ h.
        let (a, b) = die-eq-ok _ _ (check_ancestors sorted keys) h in
        (directory_found allow key sorted k.0 p c a, (check_ancestors_iff keys k.1 c).0 b),
    λ h. rw (found_directory key sorted k.0 p h.0) ((check_ancestors_iff keys k.1 c).1 h.1),
  )

  check_beneath_iff :
      (list : List Entry)
      → PathsPrintable list
      → Pairs (Compatible allow) sorted
      → (check_beneath sorted list ≡ ok tt)
        ↔ All (λ e. All (OnlyDirectories sorted) (ancestors e.path)) list
  unfolding check_beneath ancestors
  check_beneath_iff [] q c = ((λ h. tt), (λ h. refl))
  check_beneath_iff (e ∷ list) q c =
      let keys = ancestors_from-Printable [] e.path tt q.0 in
      (
        λ h.
            let (u, a, b) =
              bind-eq-ok (check_ancestors sorted (ancestors_from [] e.path))
                (λ _. check_beneath sorted list) h in
            (
              (check_ancestors_iff (ancestors_from [] e.path) keys c).0 a,
              (check_beneath_iff list q.1 c).0 b,
            ),
        λ h.
            rw ((check_ancestors_iff (ancestors_from [] e.path) keys c).1 h.0)
              ((check_beneath_iff list q.1 c).1 h.1),
      )

abbrev IsDirectoryAt : Bytes → Entry → Type 0
IsDirectoryAt key f = f.path ≡ key → is_directory f.mode ≡ true

blocked_unsort :
    (list : List Entry)
    → All (λ e. All (OnlyDirectories (sort_entries list)) (ancestors e.path)) (sort_entries list)
    → NothingBlocked list
blocked_unsort list n =
    All-map (λ e. All (OnlyDirectories (sort_entries list)) (ancestors e.path))
      (λ e. All (OnlyDirectories list) (ancestors e.path))
      (λ e.
        All-map (OnlyDirectories (sort_entries list)) (OnlyDirectories list)
          (λ key. All-sort (IsDirectoryAt key) list) (ancestors e.path))
      list (All-sort (λ e. All (OnlyDirectories (sort_entries list)) (ancestors e.path)) list n)

blocked_sort :
    (list : List Entry)
    → NothingBlocked list
    → All (λ e. All (OnlyDirectories (sort_entries list)) (ancestors e.path)) (sort_entries list)
blocked_sort list n =
    sort-All (λ e. All (OnlyDirectories (sort_entries list)) (ancestors e.path)) list
      (All-map (λ e. All (OnlyDirectories list) (ancestors e.path))
        (λ e. All (OnlyDirectories (sort_entries list)) (ancestors e.path))
        (λ e.
          All-map (OnlyDirectories list) (OnlyDirectories (sort_entries list))
            (λ key. sort-All (IsDirectoryAt key) list) (ancestors e.path))
        list n)

-- Entries whose paths have no control characters are accepted exactly if two of one path are
-- directories where that is allowed, and every ancestor of a path that is an entry is a directory.
pub entries_check_paths_iff :
    (list : List Entry) (allow : Bool)
    → PathsPrintable list
    → (entries_check_paths list allow ≡ ok tt)
      ↔ (Pairs (Compatible allow) list × NothingBlocked list)
unfolding entries_check_paths
entries_check_paths_iff list allow p =
    let sorted = sort_entries list in
    let ps : PathsPrintable sorted = sort-All (λ e. Printable e.path) list p in
    let swap = Compatible-swap allow in
    (
      λ h.
          let (u, a, b) =
            bind-eq-ok (check_neighbours allow sorted) (λ _. check_beneath sorted sorted) h in
          let c = neighbours-Pairs allow sorted ps (sort-IsSorted list) a in
          let n = (check_beneath_iff allow sorted ps sorted ps c).0 b in
          (Pairs-sort (Compatible allow) swap list c, blocked_unsort list n),
      λ h.
          let c = sort-Pairs (Compatible allow) swap list h.0 in
          rw (Pairs-neighbours allow sorted c)
            ((check_beneath_iff allow sorted ps sorted ps c).1 (blocked_sort list h.1)),
    )
