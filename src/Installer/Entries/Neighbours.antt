-- ===== src/Installer/Entries/Neighbours.antt =====
-- The first loop of `entries_check_paths` of pkgs/installer/util.c, over neighbours of a sorted list.
use minidarwin.Prelude.{
  ◌≡◌, ◌↔◌, refl, sym, ◌∙◌, Bool, true, false, List, [], ◌∷◌, All, All-zip, arith, inl, inr,
  Bool-cases,
}
use minidarwin.Installer.Result.{die-eq-ok, ok}
use minidarwin.Installer.Paths.{str_eq}
use minidarwin.Installer.Paths.Prefix.{str_eq_iff}
use minidarwin.Installer.Entries.{
  Entry, entry_compare, is_directory, is_duplicate, check_neighbours,
}
use minidarwin.Installer.Entries.Order.{Printable, path_compare_eq, path_compare_antisym}
use minidarwin.Installer.Entries.Sorting.{NotAbove, IsSorted, Pairs}

-- Two entries of one path are directories, where that is allowed.
abbrev pub Compatible : Bool → Entry → Entry → Type 0
Compatible allow a b =
    a.path ≡ b.path → (allow ≡ true) × (is_directory a.mode ≡ true) × (is_directory b.mode ≡ true)

abbrev pub PathsPrintable : List Entry → Type 0
PathsPrintable list = All (λ e. Printable e.path) list

pub Compatible-swap : (allow : Bool) (a b : Entry) → Compatible allow a b → Compatible allow b a
Compatible-swap allow a b h e = let (x, y, z) = h (sym e) in (x, z, y)

duplicate_iff :
    (allow : Bool) (a b : Entry) → (is_duplicate allow a b ≡ false) ↔ Compatible allow a b
unfolding is_duplicate
duplicate_iff allow a b = (
  λ h e. let s = (str_eq_iff a.path b.path).1 e in ground arith,
  λ h. elim (Bool-cases (str_eq a.path b.path)) [
    | inl s ↦ let (x, y, z) = h ((str_eq_iff a.path b.path).0 s) in rw (s, x, y, z)
    | inr s ↦ rw s
  ],
)

-- Between a path and an equal one of a sorted list, only equal ones stand.
sandwich :
    (a b c : Entry)
    → Printable a.path
    → Printable b.path
    → NotAbove a b
    → NotAbove b c
    → a.path ≡ c.path
    → a.path ≡ b.path
unfolding entry_compare
sandwich a b c pa pb ab bc e =
    path_compare_eq a.path b.path pa pb (path_compare_antisym a.path b.path ab (rw e bc))

others-Compatible :
    (allow : Bool) (a b : Entry) (list : List Entry)
    → Printable a.path
    → Printable b.path
    → NotAbove a b
    → Compatible allow a b
    → All (NotAbove b) list
    → All (Compatible allow b) list
    → All (Compatible allow a) list
others-Compatible allow a b list pa pb low ab =
    All-zip (NotAbove b) (Compatible allow b) (Compatible allow a)
      (λ g bg cbg e.
        let same = sandwich a b g pa pb low bg e in
        let (x, y, _) = ab same in let (_, _, z) = cbg (sym same ∙ e) in (x, y, z))
      list

pub neighbours-Pairs :
    (allow : Bool) (list : List Entry)
    → PathsPrintable list
    → IsSorted list
    → check_neighbours allow list ≡ ok tt
    → Pairs (Compatible allow) list
unfolding check_neighbours
neighbours-Pairs allow [] p s h = tt
neighbours-Pairs allow (a ∷ []) p s h = (tt, tt)
neighbours-Pairs allow (a ∷ b ∷ list) p s h =
    let (d, rest) = die-eq-ok _ _ (check_neighbours allow (b ∷ list)) h in
    let ab = (duplicate_iff allow a b).0 d in
    let tail = neighbours-Pairs allow (b ∷ list) p.1 s.1 rest in
    ((ab, others-Compatible allow a b list p.0 p.1.0 s.0.0 ab s.1.0 tail.0), tail)

pub Pairs-neighbours :
    (allow : Bool) (list : List Entry)
    → Pairs (Compatible allow) list
    → check_neighbours allow list ≡ ok tt
unfolding check_neighbours
Pairs-neighbours allow [] h = refl
Pairs-neighbours allow (a ∷ []) h = refl
Pairs-neighbours allow (a ∷ b ∷ list) h =
    rw ((duplicate_iff allow a b).1 h.0.0) (Pairs-neighbours allow (b ∷ list) h.1)

-- whatever stands at the path is a directory
