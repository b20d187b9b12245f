-- ===== src/Installer/Entries/Order.antt =====
-- `path_compare` of pkgs/installer/util.c as an order.
use minidarwin.Prelude.{ℕ, ◌≤◌, ◌≡◌, ◌≢◌, refl, Ordering, [], ◌∷◌, Bytes, All, arith}
use minidarwin.Installer.Entries.{order_byte, path_compare}

-- no byte is mistaken for the place of '/'
abbrev pub Printable : Bytes → Type 0
Printable s = All (λ c. 32 ≤ c) s

order_byte_injective : (c d : ℕ) → 32 ≤ c → 32 ≤ d → order_byte c ≡ order_byte d → c ≡ d
unfolding order_byte
order_byte_injective c d h k e = ground arith

pub path_compare_eq :
    (s t : Bytes) → Printable s → Printable t → path_compare s t ≡ Ordering.eq → s ≡ t
unfolding path_compare
path_compare_eq [] [] h k e = refl
path_compare_eq [] (d ∷ t) h k e = cc
path_compare_eq (c ∷ s) [] h k e = cc
path_compare_eq (c ∷ s) (d ∷ t) h k e =
    ground (arith, order_byte_injective c d, path_compare_eq s t h.1 k.1)

pub path_compare_self : (s : Bytes) → path_compare s s ≡ Ordering.eq
unfolding path_compare
path_compare_self [] = refl
path_compare_self (c ∷ s) = ground (arith, path_compare_self s)

pub path_compare_swap :
    (s t : Bytes) → path_compare s t ≡ Ordering.gt → path_compare t s ≡ Ordering.lt
unfolding path_compare
path_compare_swap [] [] e = cc
path_compare_swap [] (d ∷ t) e = cc
path_compare_swap (c ∷ s) [] e = refl
path_compare_swap (c ∷ s) (d ∷ t) e = ground (arith, path_compare_swap s t)

pub path_compare_antisym :
    (s t : Bytes)
    → path_compare s t ≢ Ordering.gt
    → path_compare t s ≢ Ordering.gt
    → path_compare s t ≡ Ordering.eq
unfolding path_compare
path_compare_antisym [] [] h k = refl
path_compare_antisym [] (d ∷ t) h k = absurd (k refl)
path_compare_antisym (c ∷ s) [] h k = absurd (h refl)
path_compare_antisym (c ∷ s) (d ∷ t) h k = ground (arith, path_compare_antisym s t)

pub path_compare_trans :
    (s t u : Bytes)
    → path_compare s t ≢ Ordering.gt
    → path_compare t u ≢ Ordering.gt
    → path_compare s u ≢ Ordering.gt
unfolding path_compare
path_compare_trans [] [] u h k e = k e
path_compare_trans [] (d ∷ t) [] h k e = k refl
path_compare_trans [] (d ∷ t) (x ∷ u) h k e = cc
path_compare_trans (c ∷ s) [] u h k e = h refl
path_compare_trans (c ∷ s) (d ∷ t) [] h k e = k refl
path_compare_trans (c ∷ s) (d ∷ t) (x ∷ u) h k e = ground (arith, path_compare_trans s t u)
