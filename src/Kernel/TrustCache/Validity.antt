-- ===== src/Kernel/TrustCache/Validity.antt =====
-- The modules that `validate` of pkgs/xnu/support/trust-cache.c accepts.
use native.Mathlib.Decide.{ℕ_discrete}
use native.Mathlib.Nat.{add-zero, le-div_iff_mul-le}
use minidarwin.Prelude.{
  ℕ, zero, suc, ◌+◌, ◌-◌, ◌*◌, ◌≤◌, ◌<◌, ◌≡◌, ◌≢◌, ◌↔◌, ◌/◌, ◌∙◌, sym, ap, refl, Ordering, true,
  false, ltb, arith,
}
use minidarwin.Kernel.Memory.{Memory, le32, memcmp}
use minidarwin.Kernel.Memory.Compare.{memcmp_trans}
use minidarwin.Kernel.TrustCache.{
  stride, entry_at, bad_entry, scan_entries, hash_size, valid, validate,
}

module _ (mem : Memory) where
  abbrev pub module_count : ℕ → ℕ
  module_count p = le32 mem (p + 20)

  abbrev pub module_stride : ℕ → ℕ
  module_stride p = stride (le32 mem p)

  -- Of the entries i, …, i + n - 1 each is above its predecessor, and has a zero reserved byte in a
  -- module of version 2.
  pub record EntriesOk (p step i n : ℕ) : Type 0 where
    pub reserved : (j : ℕ) → i ≤ j → j < i + n → step ≡ 24 → mem (entry_at p step j + 23) ≡ 0
    pub ascending :
        (j : ℕ)
        → i ≤ suc j
        → suc j < i + n
        → memcmp mem hash_size (entry_at p step j) (entry_at p step (suc j)) ≡ Ordering.lt

  pub record IsModule (p len actual : ℕ) : Type 0 where
    pub not_null : p ≢ 0
    pub version : module_stride p ≢ 0
    pub size : actual ≡ 24 + module_count p * module_stride p
    pub fits : actual ≤ len
    pub entries : EntriesOk p (module_stride p) 0 (module_count p)

  entry_at_pred : (p step j : ℕ) → entry_at p step (suc j) - step ≡ entry_at p step j
  entry_at_pred p step j = omega arith

  bad_entry_reserved :
      (p step j : ℕ) → bad_entry mem p step j ≡ false → step ≡ 24 → mem (entry_at p step j + 23) ≡ 0
  unfolding bad_entry
  bad_entry_reserved p step j h e = ground arith

  bad_entry_ascending :
      (p step j : ℕ)
      → bad_entry mem p step (suc j) ≡ false
      → memcmp mem hash_size (entry_at p step j) (entry_at p step (suc j)) ≡ Ordering.lt
  unfolding bad_entry
  bad_entry_ascending p step j h = ground (arith, entry_at_pred p step j)

  good_entry :
      (p step i : ℕ)
      → (step ≡ 24 → mem (entry_at p step i + 23) ≡ 0)
      → ((j : ℕ)
          → i ≡ suc j
          → memcmp mem hash_size (entry_at p step j) (entry_at p step i) ≡ Ordering.lt)
      → bad_entry mem p step i ≡ false
  unfolding bad_entry
  good_entry p step zero r a = ground arith
  good_entry p step (suc j) r a = ground (arith, a j refl, entry_at_pred p step j)

  EntriesOk-cons :
      (n p step i : ℕ)
      → bad_entry mem p step i ≡ false
      → EntriesOk p step (i + 1) n
      → EntriesOk p step i (suc n)
  EntriesOk-cons n p step i good rest = record {
    reserved = λ j a b e. elim (ℕ_discrete i j) [
      | yes same ↦ bad_entry_reserved p step j (rw (← same) good) e
      | no other ↦ rest.reserved j (omega arith) (omega arith) e
    ];
    ascending = λ j a b. elim (ℕ_discrete i (suc j)) [
      | yes same ↦ bad_entry_ascending p step j (rw (← same) good)
      | no other ↦ rest.ascending j (omega arith) (omega arith)
    ];
  }

  EntriesOk-head : (n p step i : ℕ) → EntriesOk p step i (suc n) → bad_entry mem p step i ≡ false
  EntriesOk-head n p step i ok =
      good_entry p step i (ok.reserved i (omega arith) (omega arith))
        (λ j e. rw e (ok.ascending j (omega arith) (omega arith)))

  EntriesOk-tail : (n p step i : ℕ) → EntriesOk p step i (suc n) → EntriesOk p step (i + 1) n
  EntriesOk-tail n p step i ok = record {
    reserved = λ j a b. ok.reserved j (omega arith) (omega arith);
    ascending = λ j a b. ok.ascending j (omega arith) (omega arith);
  }

  scan_entries-EntriesOk :
      (n p step i : ℕ) → scan_entries mem n p step i ≡ true → EntriesOk p step i n
  unfolding scan_entries
  scan_entries-EntriesOk zero p step i h = record {
    reserved = λ j a b e. absurd (omega arith);
    ascending = λ j a b. absurd (omega arith);
  }
  scan_entries-EntriesOk (suc n) p step i h =
      EntriesOk-cons n p step i (ground arith)
        (scan_entries-EntriesOk n p step (i + 1) (ground arith))

  EntriesOk-scan_entries :
      (n p step i : ℕ) → EntriesOk p step i n → scan_entries mem n p step i ≡ true
  unfolding scan_entries
  EntriesOk-scan_entries zero p step i ok = refl
  EntriesOk-scan_entries (suc n) p step i ok = rw (
    EntriesOk-head n p step i ok,
    EntriesOk-scan_entries n p step (i + 1) (EntriesOk-tail n p step i ok),
  )

  fits_iff :
      (len count step : ℕ)
      → 24 ≤ len
      → step ≢ 0
      → (ltb ((len - 24) / step) count ≡ false) ↔ (24 + count * step ≤ len)
  fits_iff len count step a b =
      let law = le-div_iff_mul-le {k = step} {x = count} {y = len - 24} (omega arith) in
      (λ h. omega (arith, law.0 (ground arith)), λ h. let q = law.1 (omega arith) in ground arith)

  -- The tests of `validate`, in its order.
  validate_tests :
      (p len actual : ℕ)
      → validate mem p len ≡ valid actual
      → (p ≢ 0)
        × (24 ≤ len)
        × (module_stride p ≢ 0)
        × (ltb ((len - 24) / module_stride p) (module_count p) ≡ false)
        × (scan_entries mem (module_count p) p (module_stride p) 0 ≡ true)
        × (actual ≡ 24 + module_count p * module_stride p)
  unfolding validate
  validate_tests p len actual h = ground arith

  validate_accepts :
      (p len : ℕ)
      → p ≢ 0
      → 24 ≤ len
      → module_stride p ≢ 0
      → ltb ((len - 24) / module_stride p) (module_count p) ≡ false
      → scan_entries mem (module_count p) p (module_stride p) 0 ≡ true
      → validate mem p len ≡ valid (24 + module_count p * module_stride p)
  unfolding validate
  validate_accepts p len a b c d e = ground arith

  -- The validation of a module accepts it with a size exactly when the module is well formed, fits
  -- the length and has that size.
  pub validate_iff :
      (p len actual : ℕ) → (validate mem p len ≡ valid actual) ↔ IsModule p len actual
  validate_iff p len actual = (
    λ h.
        let (null, room, version, fits, scanned, size) = validate_tests p len actual h in
        record {
          not_null = null;
          version = version;
          size = size;
          fits =
              omega (arith, (fits_iff len (module_count p) (module_stride p) room version).0 fits);
          entries = scan_entries-EntriesOk (module_count p) p (module_stride p) 0 scanned;
        },
    λ m.
        let fits : 24 + module_count p * module_stride p ≤ len = omega (arith, m.size, m.fits) in
        validate_accepts p len m.not_null (omega arith) m.version
          ((fits_iff len (module_count p) (module_stride p) (omega arith) m.version).1 fits)
          (EntriesOk-scan_entries (module_count p) p (module_stride p) 0 m.entries)
        ∙ ap valid (sym m.size),
  )

  -- In a well-formed module every entry is below every later one.
  pub entries_ascend :
      (p step n i d : ℕ)
      → EntriesOk p step 0 n
      → suc (i + d) < n
      → memcmp mem hash_size (entry_at p step i) (entry_at p step (suc (i + d))) ≡ Ordering.lt
  entries_ascend p step n i zero ok h = rw (add-zero i) (ok.ascending i (omega arith) (omega arith))
  entries_ascend p step n i (suc d) ok h =
      let e : suc (i + suc d) ≡ suc (suc (i + d)) = omega arith in
      rw e (
        memcmp_trans mem hash_size _ (entry_at p step (suc (i + d))) _
          (entries_ascend p step n i d ok (omega arith))
          (ok.ascending (suc (i + d)) (omega arith) (omega arith)))
