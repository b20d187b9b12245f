-- ===== src/Kernel/Memory/Compare.antt =====
-- `memcmp` as an order on the byte strings of one length.
use native.Mathlib.Nat.{add-zero}
use minidarwin.Prelude.{ℕ, zero, suc, ◌+◌, ◌<◌, ◌≡◌, refl, Ordering, arith}
use minidarwin.Kernel.Memory.{Memory, memcmp}

module _ (mem : Memory) where
  pub memcmp_self : (n p : ℕ) → memcmp mem n p p ≡ Ordering.eq
  unfolding memcmp
  memcmp_self zero p = refl
  memcmp_self (suc n) p = ground (arith, memcmp_self n (p + 1))

  pub memcmp_trans :
      (n p q r : ℕ)
      → memcmp mem n p q ≡ Ordering.lt
      → memcmp mem n q r ≡ Ordering.lt
      → memcmp mem n p r ≡ Ordering.lt
  unfolding memcmp
  memcmp_trans zero p q r h k = cc
  memcmp_trans (suc n) p q r h k = ground (arith, memcmp_trans n (p + 1) (q + 1) (r + 1))

  -- equal strings compare alike with a third
  pub memcmp_eq_left :
      (n p q r : ℕ) → memcmp mem n p q ≡ Ordering.eq → memcmp mem n p r ≡ memcmp mem n q r
  unfolding memcmp
  memcmp_eq_left zero p q r h = refl
  memcmp_eq_left (suc n) p q r h = ground (arith, memcmp_eq_left n (p + 1) (q + 1) (r + 1))

  pub memcmp_swap_lt : (n p q : ℕ) → memcmp mem n p q ≡ Ordering.lt → memcmp mem n q p ≡ Ordering.gt
  unfolding memcmp
  memcmp_swap_lt zero p q h = cc
  memcmp_swap_lt (suc n) p q h = ground (arith, memcmp_swap_lt n (p + 1) (q + 1))

  pub memcmp_swap_gt : (n p q : ℕ) → memcmp mem n p q ≡ Ordering.gt → memcmp mem n q p ≡ Ordering.lt
  unfolding memcmp
  memcmp_swap_gt zero p q h = cc
  memcmp_swap_gt (suc n) p q h = ground (arith, memcmp_swap_gt n (p + 1) (q + 1))

  pub memcmp_swap_eq : (n p q : ℕ) → memcmp mem n p q ≡ Ordering.eq → memcmp mem n q p ≡ Ordering.eq
  unfolding memcmp
  memcmp_swap_eq zero p q h = refl
  memcmp_swap_eq (suc n) p q h = ground (arith, memcmp_swap_eq n (p + 1) (q + 1))

  -- equality by `memcmp` is equality of every byte
  pub memcmp_eq_bytes :
      (n p q i : ℕ) → memcmp mem n p q ≡ Ordering.eq → i < n → mem (p + i) ≡ mem (q + i)
  unfolding memcmp
  memcmp_eq_bytes zero p q i h k = absurd (omega arith)
  memcmp_eq_bytes (suc n) p q zero h k = rw (add-zero p, add-zero q) (ground arith)
  memcmp_eq_bytes (suc n) p q (suc i) h k =
      let e : p + suc i ≡ p + 1 + i = omega arith in
      let e' : q + suc i ≡ q + 1 + i = omega arith in
      rw (e, e') (memcmp_eq_bytes n (p + 1) (q + 1) i (ground arith) (omega arith))
