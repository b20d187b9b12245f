-- ===== src/Kernel/TrustCache/Fields.antt =====
-- The accessors of a token of pkgs/xnu/support/trust-cache.c.
use minidarwin.Prelude.{ℕ, ◌+◌, ◌/◌, ◌%◌, ◌<◌, ◌≤◌, ◌≡◌, ◌↔◌, true, some, arith}
use minidarwin.Kernel.Memory.{Memory, le32}
use minidarwin.Kernel.TrustCache.{success, stride}
use minidarwin.Kernel.TrustCache.Tokens.{
  QueryToken, token_valid, field, get_capabilities, query_get_capabilities, query_get_hash_type,
  query_get_flags, query_get_constraint_category,
}

module _ (mem : Memory) where
  token_bounds :
      (t : QueryToken)
      → token_valid mem (some t) ≡ true
      → (t.cache.module_at + 24 ≤ t.entry)
        × (t.entry + stride (le32 mem t.cache.module_at) ≤ t.cache.module_at + t.cache.module_size)
  unfolding token_valid
  token_bounds t h = ground arith

  field_tests :
      (t : QueryToken) (offset out value : ℕ)
      → field mem (some t) offset out ≡ (success, some value)
      → (token_valid mem (some t) ≡ true)
        × (offset < stride (le32 mem t.cache.module_at))
        × (mem (t.entry + offset) ≡ value)
  unfolding field
  field_tests t offset out value h = ground arith

  -- When an accessor succeeds, the byte that it has read lies in the module of the token and is the
  -- value that it returns.
  pub field_in_module :
      (t : QueryToken) (offset out value : ℕ)
      → field mem (some t) offset out ≡ (success, some value)
      → (t.cache.module_at < t.entry + offset)
        × (t.entry + offset < t.cache.module_at + t.cache.module_size)
        × (mem (t.entry + offset) ≡ value)
  field_in_module t offset out value h =
      let (v, o, m) = field_tests t offset out value h in
      (omega (arith, token_bounds t v), omega (arith, token_bounds t v), m)

  -- For a token of which the capabilities can be read, bits 0, 1 and 2 of these say whether the
  -- accessors of the hash type, of the flags and of the constraint category succeed.
  pub capabilities_lem :
      (t : QueryToken) (out caps : ℕ)
      → query_get_capabilities mem (some t) out ≡ (success, some caps)
      → ((caps % 2 ≡ 1) ↔ ((query_get_hash_type mem (some t) out).0 ≡ success))
        × ((caps / 2 % 2 ≡ 1) ↔ ((query_get_flags mem (some t) out).0 ≡ success))
        × ((caps / 4 % 2 ≡ 1) ↔ ((query_get_constraint_category mem (some t) out).0 ≡ success))
  unfolding query_get_capabilities get_capabilities query_get_hash_type query_get_flags
      query_get_constraint_category field stride
  capabilities_lem t out caps h = ground arith
