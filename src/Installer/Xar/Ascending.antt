-- ===== src/Installer/Xar/Ascending.antt =====
-- The order of the members of a XAR archive in pkgs/installer, by their names.
use mathlib.Core.Path.{subst}
use minidarwin.Prelude.{
  ◌≡◌, ◌≢◌, ◌⊎◌, refl, sym, Ordering, Ordering-cases, List, [], ◌∷◌, Bytes, All, All-map, arith,
  inl, inr,
}
use minidarwin.Installer.Result.{duplicate_member, ok, die_if, bind-eq-ok}
use minidarwin.Installer.Paths.{str_eq}
use minidarwin.Installer.Paths.Prefix.{str_eq_iff}
use minidarwin.Installer.Xar.{
  XarMember, str_compare, member_compare, insert_member, sort_members, check_members,
}

str_compare_swap : (s t : Bytes) → str_compare s t ≡ Ordering.gt → str_compare t s ≡ Ordering.lt
unfolding str_compare
str_compare_swap [] [] e = cc
str_compare_swap [] (d ∷ t) e = cc
str_compare_swap (c ∷ s) [] e = refl
str_compare_swap (c ∷ s) (d ∷ t) e = ground (arith, str_compare_swap s t)

str_compare_eq : (s t : Bytes) → str_compare s t ≡ Ordering.eq → s ≡ t
unfolding str_compare
str_compare_eq [] [] e = refl
str_compare_eq [] (d ∷ t) e = cc
str_compare_eq (c ∷ s) [] e = cc
str_compare_eq (c ∷ s) (d ∷ t) e = ground (arith, str_compare_eq s t)

pub str_compare_self : (s : Bytes) → str_compare s s ≡ Ordering.eq
unfolding str_compare
str_compare_self [] = refl
str_compare_self (c ∷ s) = ground (arith, str_compare_self s)

str_compare_trans :
    (s t u : Bytes)
    → str_compare s t ≡ Ordering.lt
    → str_compare t u ≡ Ordering.lt
    → str_compare s u ≡ Ordering.lt
unfolding str_compare
str_compare_trans [] [] u h k = cc
str_compare_trans [] (d ∷ t) [] h k = cc
str_compare_trans [] (d ∷ t) (x ∷ u) h k = refl
str_compare_trans (c ∷ s) [] u h k = cc
str_compare_trans (c ∷ s) (d ∷ t) [] h k = cc
str_compare_trans (c ∷ s) (d ∷ t) (x ∷ u) h k = ground (arith, str_compare_trans s t u)

-- The name of the one is not above that of the other.
abbrev NotAbove : XarMember → XarMember → Type 0
NotAbove m n = str_compare m.name n.name ≢ Ordering.gt

abbrev pub Below : XarMember → XarMember → Type 0
Below m n = str_compare m.name n.name ≡ Ordering.lt

abbrev Neighbours : (XarMember → XarMember → Type 0) → List XarMember → Type 0
Neighbours R [] = Unit {0}
Neighbours R (m ∷ []) = Unit {0}
Neighbours R (m ∷ n ∷ list) = R m n × Neighbours R (n ∷ list)

-- Each name is below all that follow it.
abbrev pub IsIncreasing : List XarMember → Type 0
IsIncreasing [] = Unit {0}
IsIncreasing (m ∷ list) = All (Below m) list × IsIncreasing list

Neighbours-tail :
    (n : XarMember) (list : List XarMember)
    → Neighbours NotAbove (n ∷ list)
    → Neighbours NotAbove list
Neighbours-tail n [] h = tt
Neighbours-tail n (o ∷ list) h = h.1

compare_names : (m n : XarMember) → member_compare m n ≡ str_compare m.name n.name
unfolding member_compare
compare_names m n = refl

pub insert_cases :
    (m n : XarMember) (list : List XarMember)
    → (NotAbove m n × (insert_member m (n ∷ list) ≡ m ∷ n ∷ list))
      ⊎ (Below n m × (insert_member m (n ∷ list) ≡ n ∷ insert_member m list))
unfolding insert_member
insert_cases m n list =
    let names = compare_names m n in
    elim (Ordering-cases (member_compare m n)) [
      | inl e ↦ inl ((λ k. cc (e, k, names)), rw (e, insert_member))
      | inr (inl e) ↦ inl ((λ k. cc (e, k, names)), rw (e, insert_member))
      | inr (inr e) ↦ inr (str_compare_swap m.name n.name (cc (e, names)), rw (e, insert_member))
    ]

insert-Below :
    (m n : XarMember) (list : List XarMember)
    → Neighbours NotAbove (n ∷ list)
    → Below n m
    → Neighbours NotAbove (insert_member m list)
    → Neighbours NotAbove (n ∷ insert_member m list)
unfolding insert_member
insert-Below m n [] h k i = ((λ e. cc (e, k)), tt)
insert-Below m n (o ∷ list) h k i = elim (insert_cases m o list) [
  | inl (_, e) ↦
      subst (λ l. Neighbours NotAbove (n ∷ l)) (sym e)
        ((λ f. cc (f, k)), subst (Neighbours NotAbove) e i)
  | inr (_, e) ↦
      subst (λ l. Neighbours NotAbove (n ∷ l)) (sym e) (h.0, subst (Neighbours NotAbove) e i)
]

insert-Neighbours :
    (m : XarMember) (list : List XarMember)
    → Neighbours NotAbove list
    → Neighbours NotAbove (insert_member m list)
unfolding insert_member
insert-Neighbours m [] h = tt
insert-Neighbours m (n ∷ list) h = elim (insert_cases m n list) [
  | inl (low, e) ↦ subst (Neighbours NotAbove) (sym e) (low, h)
  | inr (high, e) ↦
      subst (Neighbours NotAbove) (sym e)
        (insert-Below m n list h high (insert-Neighbours m list (Neighbours-tail n list h)))
]

pub sort-Neighbours : (list : List XarMember) → Neighbours NotAbove (sort_members list)
unfolding sort_members
sort-Neighbours [] = tt
sort-Neighbours (m ∷ list) = insert-Neighbours m (sort_members list) (sort-Neighbours list)

pub check_members-Below :
    (list : List XarMember)
    → Neighbours NotAbove list
    → check_members list ≡ ok tt
    → Neighbours Below list
unfolding check_members
check_members-Below [] h e = tt
check_members-Below (m ∷ []) h e = tt
check_members-Below (m ∷ n ∷ list) h e =
    let (_, differ, rest) = bind-eq-ok (die_if (str_eq m.name n.name) duplicate_member) _ e in
    let same = str_compare_eq m.name n.name in
    (ground (arith, str_eq_iff m.name n.name), check_members-Below (n ∷ list) h.1 rest)

Below-All :
    (m n : XarMember) (list : List XarMember) → Below m n → All (Below n) list → All (Below m) list
Below-All m n list h a =
    All-map (Below n) (Below m) (λ o. str_compare_trans m.name n.name o.name h) list a

pub Neighbours-IsIncreasing : (list : List XarMember) → Neighbours Below list → IsIncreasing list
Neighbours-IsIncreasing [] h = tt
Neighbours-IsIncreasing (m ∷ []) h = (tt, tt)
Neighbours-IsIncreasing (m ∷ n ∷ list) h =
    let rest = Neighbours-IsIncreasing (n ∷ list) h.1 in
    ((h.0, Below-All m n list h.0 rest.0), rest)
