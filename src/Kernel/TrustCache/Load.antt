-- ===== src/Kernel/TrustCache/Load.antt =====
-- `trustCacheLoadModule` of pkgs/xnu/support/trust-cache.c, by its results.
use minidarwin.Prelude.{
  ℕ, ◌+◌, ◌≤◌, ◌≡◌, ◌≢◌, ◌⊎◌, inl, inr, refl, ap, Option-cases, true, false, none, some, List,
  arith,
}
use minidarwin.Kernel.Memory.{Memory}
use minidarwin.Kernel.TrustCache.{
  TcReturn, success, TrustCache, Runtime, type_static, type_engineering, type_legacy, uintptr_max,
  Validation, valid, refused, validate, find_uuid, check_runtime_for_uuid, is_linked, has_next,
  is_null, link, all_caches, load_validated, load_present, load_module,
}
use minidarwin.Kernel.TrustCache.Validity.{IsModule, validate_iff}

module _ (mem : Memory) where
  abbrev pub new_node : ℕ → ℕ → ℕ → ℕ → TrustCache
  new_node kind tc address size = record {
    self = tc;
    kind = kind;
    module_size = size;
    module_at = address;
  }

  check-find_uuid :
      (r : Runtime) (loaded : List TrustCache) (uuid : ℕ)
      → r.loadable ≡ some loaded
      → uuid ≢ 0
      → (check_runtime_for_uuid mem (some r) uuid).0 ≢ success
      → find_uuid mem uuid (all_caches r loaded) ≡ none
  unfolding check_runtime_for_uuid
  check-find_uuid r loaded uuid e n h = ground arith

  pub check_found :
      (r : Runtime) (loaded : List TrustCache) (uuid : ℕ) (tc : TrustCache)
      → r.loadable ≡ some loaded
      → uuid ≢ 0
      → find_uuid mem uuid (all_caches r loaded) ≡ some tc
      → check_runtime_for_uuid mem (some r) uuid ≡ (success, some tc)
  unfolding check_runtime_for_uuid
  check_found r loaded uuid tc e n h = ground arith

  -- What a successful load has established, and the runtime that it leaves.
  pub record Loads (r : Runtime) (loaded : List TrustCache) (kind tc address len : ℕ) (r' : Runtime)
      : Type 0 where
    pub size : ℕ
    pub node_not_null : tc ≢ 0
    pub unlinked : is_linked tc (all_caches r loaded) ≡ false
    pub no_wrap : address + len ≤ uintptr_max
    pub is_module : IsModule mem address len size
    pub fresh : find_uuid mem (address + 4) (all_caches r loaded) ≡ none
    pub kind_known : (kind ≡ type_static) ⊎ (kind ≡ type_engineering) ⊎ (kind ≡ type_legacy)
    pub engineering_allowed : kind ≡ type_engineering → r.allow_engineering ≡ true
    pub legacy_allowed : kind ≡ type_legacy → r.allow_legacy ≡ true
    pub static_room :
        kind ≡ type_static
        → (is_null r.static_head ≡ true)
          ⊎ ((r.allow_second_static ≡ true) × (has_next r.static_head ≡ false))
    pub result : r' ≡ link r loaded (new_node kind tc address size)

  load_tests :
      (r r' : Runtime) (loaded : List TrustCache) (kind tc address len : ℕ)
      → load_present mem r loaded kind tc address len ≡ (success, r')
      → (tc ≢ 0)
        × (address ≢ 0)
        × (is_linked tc (all_caches r loaded) ≡ false)
        × (address + len ≤ uintptr_max)
        × ((kind ≡ type_static) ⊎ (kind ≡ type_engineering) ⊎ (kind ≡ type_legacy))
        × (kind ≡ type_engineering → r.allow_engineering ≡ true)
        × (kind ≡ type_legacy → r.allow_legacy ≡ true)
        × (load_validated mem r loaded kind tc address (validate mem address len) ≡ (success, r'))
  unfolding load_present
  load_tests r r' loaded kind tc address len h = ground arith

  validate-ne-success : (p len : ℕ) → validate mem p len ≢ refused success
  unfolding validate
  validate-ne-success p len h = ground arith

  validated_tests :
      (r r' : Runtime) (loaded : List TrustCache) (kind tc address : ℕ) (v : Validation)
      → v ≢ refused success
      → load_validated mem r loaded kind tc address v ≡ (success, r')
      → (size : ℕ) × (v ≡ valid size)
        × ((check_runtime_for_uuid mem (some r) (address + 4)).0 ≢ success)
        × (kind ≡ type_static
            → (is_null r.static_head ≡ true)
              ⊎ ((r.allow_second_static ≡ true) × (has_next r.static_head ≡ false)))
        × (r' ≡ link r loaded (new_node kind tc address size))
  unfolding load_validated
  validated_tests r r' loaded kind tc address (refused error) n h =
      absurd (n (ap refused (ap (λ (t : TcReturn × Runtime). t.0) h)))
  validated_tests r r' loaded kind tc address (valid size) n h =
      (size, refl, ground arith, ground arith, ground arith)

  load_present-Loads :
      (r r' : Runtime) (loaded : List TrustCache) (kind tc address len : ℕ)
      → r.loadable ≡ some loaded
      → load_present mem r loaded kind tc address len ≡ (success, r')
      → Loads r loaded kind tc address len r'
  load_present-Loads r r' loaded kind tc address len e h =
      let (node, module_at, unlinked, wrap, known, eng, leg, v) =
        load_tests r r' loaded kind tc address len h in
      let (size, accepted, fresh, room, result) =
        validated_tests r r' loaded kind tc address (validate mem address len)
          (validate-ne-success address len) v in
      record {
        size = size;
        node_not_null = node;
        unlinked = unlinked;
        no_wrap = wrap;
        is_module = (validate_iff mem address len size).0 accepted;
        fresh = check-find_uuid r loaded (address + 4) e (omega arith) fresh;
        kind_known = known;
        engineering_allowed = eng;
        legacy_allowed = leg;
        static_room = room;
        result = result;
      }

  -- A load that does not succeed leaves the runtime as it was.
  pub load_refused :
      (r : Runtime) (kind tc address len : ℕ)
      → (load_module mem r kind tc address len).0 ≢ success
      → (load_module mem r kind tc address len).1 ≡ r
  unfolding load_module load_present load_validated
  load_refused r kind tc address len h = ground arith

  pub load_module-Loads :
      (r r' : Runtime) (kind tc address len : ℕ)
      → load_module mem r kind tc address len ≡ (success, r')
      → (loaded : List TrustCache) × (r.loadable ≡ some loaded)
        × Loads r loaded kind tc address len r'
  unfolding load_module
  load_module-Loads r r' kind tc address len h = elim (Option-cases r.loadable) [
    | inl e ↦ cc (rw e at h)
    | inr (loaded, e) ↦
        (loaded, e, load_present-Loads r r' loaded kind tc address len e (ground arith))
  ]
