-- ===== src/Kernel/TrustCache/Search.antt =====
-- The binary search of `trustCacheQuery` over the entries of one module.
use native.Mathlib.Decide.{dec_lt}
use minidarwin.Prelude.{
  ℕ, zero, suc, ◌+◌, ◌-◌, ◌/◌, ◌≤◌, ◌<◌, ◌≡◌, refl, Ordering, Option, none, some, false, ltb, arith,
  inl, inr, lt→ltb, Ordering-cases,
}
use minidarwin.Kernel.Memory.{Memory, memcmp}
use minidarwin.Kernel.Memory.Compare.{memcmp_trans, memcmp_swap_lt, memcmp_swap_gt}
use minidarwin.Kernel.TrustCache.{entry_at, hash_size}
use minidarwin.Kernel.TrustCache.Tokens.{search_entries, search_module}
use minidarwin.Kernel.TrustCache.Validity.{
  EntriesOk, IsModule, module_count, module_stride, entries_ascend,
}

module _ (mem : Memory) (hash p step : ℕ) where
  abbrev pub HasHash : ℕ → Type 0
  HasHash entry = memcmp mem hash_size hash entry ≡ Ordering.eq

  -- An entry among those of index first, …, end - 1 that holds the hash, or none of them does.
  abbrev pub Finds : ℕ → ℕ → Option ℕ → Type 0
  Finds first end (some e) = (i : ℕ) × (first ≤ i) × (i < end) × (e ≡ entry_at p step i) × HasHash e
  Finds first end none = (i : ℕ) → first ≤ i → i < end → ¬ HasHash (entry_at p step i)

  module _ {n : ℕ} (ok : EntriesOk mem p step 0 n) where
    ascend :
        (i j : ℕ)
        → i < j
        → j < n
        → memcmp mem hash_size (entry_at p step i) (entry_at p step j) ≡ Ordering.lt
    ascend i j a b =
        let e : j ≡ suc (i + (j - suc i)) = omega arith in
        rw e (entries_ascend mem p step n i (j - suc i) ok (omega arith))

    not_above :
        (m i : ℕ)
        → memcmp mem hash_size hash (entry_at p step m) ≡ Ordering.lt
        → m ≤ i
        → i < n
        → ¬ HasHash (entry_at p step i)
    not_above m i low a b h = elim (dec_lt m i) [
      | yes c ↦ cc (h, memcmp_trans mem hash_size _ _ _ low (ascend m i c b))
      | no c ↦ let e : i ≡ m = omega arith in cc (low, h, e)
    ]

    not_below_entry :
        (m i : ℕ)
        → memcmp mem hash_size hash (entry_at p step m) ≡ Ordering.gt
        → i ≤ m
        → m < n
        → ¬ HasHash (entry_at p step i)
    not_below_entry m i high a b h = elim (dec_lt i m) [
      | yes c ↦ cc (
        h,
        memcmp_swap_lt mem hash_size _ _ (
            memcmp_trans mem hash_size _ _ _ (ascend i m c b)
              (memcmp_swap_gt mem hash_size _ _ high)),
      )
      | no c ↦ let e : i ≡ m = omega arith in cc (high, h, e)
    ]

    widen_lower :
        (first m end : ℕ) (o : Option ℕ)
        → memcmp mem hash_size hash (entry_at p step m) ≡ Ordering.lt
        → m < end
        → end ≤ n
        → Finds first m o
        → Finds first end o
    widen_lower first m end (some e) low a b (i, c, d, x, y) = (i, c, omega arith, x, y)
    widen_lower first m end none low a b f = λ i c d. elim (dec_lt i m) [
      | yes l ↦ f i c l
      | no l ↦ not_above m i low (omega arith) (omega arith)
    ]

    widen_upper :
        (first m end : ℕ) (o : Option ℕ)
        → memcmp mem hash_size hash (entry_at p step m) ≡ Ordering.gt
        → first ≤ m
        → m < end
        → end ≤ n
        → Finds (m + 1) end o
        → Finds first end o
    widen_upper first m end (some e) high z a b (i, c, d, x, y) = (i, omega arith, d, x, y)
    widen_upper first m end none high z a b f = λ i c d. elim (dec_lt m i) [
      | yes l ↦ f i (omega arith) d
      | no l ↦ not_below_entry m i high (omega arith) (omega arith)
    ]

    search_entries-Finds :
        (fuel first end : ℕ)
        → end - first ≤ fuel
        → end ≤ n
        → Finds first end (search_entries mem fuel hash p step first end)
    unfolding search_entries
    search_entries-Finds zero first end a b = λ i c d. absurd (omega arith)
    search_entries-Finds (suc fuel) first end a b = elim (dec_lt first end) [
      | no c ↦ let e : ltb first end ≡ false = ground arith in rw e (λ i d f. absurd (omega arith))
      | yes c ↦
          let m = first + (end - first) / 2 in
          rw (lt→ltb first end c)
            (elim (Ordering-cases (memcmp mem hash_size hash (entry_at p step m))) [
              | inl low ↦ rw low (
                  widen_lower first m end _ low (omega arith) b
                    (search_entries-Finds fuel first m (omega arith) (omega arith)))
              | inr (inl same) ↦ rw same (m, omega arith, omega arith, refl, same)
              | inr (inr high) ↦ rw high (
                  widen_upper first m end _ high (omega arith) (omega arith) b
                    (search_entries-Finds fuel (m + 1) end (omega arith) b))
            ])
    ]

-- In a well-formed module the binary search returns an entry that holds the hash if there is one,
-- and nothing exactly when there is none.
pub search_module-Finds :
    (mem : Memory) (hash p len actual : ℕ)
    → IsModule mem p len actual
    → Finds mem hash p (module_stride mem p) 0 (module_count mem p) (search_module mem hash p)
unfolding search_module
search_module-Finds mem hash p len actual m =
    search_entries-Finds mem hash p (module_stride mem p) m.entries (module_count mem p) 0
      (module_count mem p) (omega arith) (omega arith)
