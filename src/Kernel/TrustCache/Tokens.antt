-- ===== src/Kernel/TrustCache/Tokens.antt =====
-- Queries and the accessors of pkgs/xnu/support/trust-cache.c.
use minidarwin.Prelude.{
  ℕ, zero, suc, ◌+◌, ◌-◌, ◌/◌, ◌%◌, Ordering, Bool, false, not, ◌&&◌, ◌||◌, Option, none, some,
  List, [], ◌∷◌, ltb, leb, ◌==◌, if◌then◌else◌,
}
use minidarwin.Kernel.Memory.{Memory, le32, memcmp}
use minidarwin.Kernel.TrustCache.{
  TcReturn, success, unsupported, not_found, invalid_arguments, TrustCache, Runtime, hash_size,
  query_static, query_loadable, query_total, stride, entry_at,
}

-- A token as `trustCacheQuery` writes it through `out`: `none` is the cleared token.
pub record QueryToken : Type 0 where
  pub cache : TrustCache
  pub entry : ℕ

module _ (mem : Memory) where
  -- The `while (first < end)` of `trustCacheQuery` over one module. The fuel bounds `end - first`,
  -- so the loop has ended where it is used up.
  unfoldable pub search_entries : ℕ → ℕ → ℕ → ℕ → ℕ → ℕ → Option ℕ
  search_entries zero hash p step first end = none
  search_entries (suc fuel) hash p step first end =
      let middle = first + (end - first) / 2 in
      let lower = search_entries fuel hash p step first middle in
      let upper = search_entries fuel hash p step (middle + 1) end in
      if ltb first end
      then elim (memcmp mem hash_size hash (entry_at p step middle)) [
        | Ordering.eq ↦ some (entry_at p step middle)
        | Ordering.lt ↦ lower
        | Ordering.gt ↦ upper
      ]
      else none

  unfoldable pub search_module : ℕ → ℕ → Option ℕ
  search_module hash p =
      search_entries (le32 mem (p + 20)) hash p (stride (le32 mem p)) 0 (le32 mem (p + 20))

  -- One chain.
  unfoldable pub search_chain : ℕ → List TrustCache → Option QueryToken
  search_chain hash [] = none
  search_chain hash (tc ∷ rest) = elim (search_module hash tc.module_at) [
    | some entry ↦ some (record { cache = tc; entry = entry })
    | none ↦ search_chain hash rest
  ]

  -- The loop over `heads`, whose `i` is 0, 1 and 2.
  unfoldable pub search_heads : ℕ → ℕ → ℕ → List (List TrustCache) → Option QueryToken
  search_heads kind hash i [] = none
  search_heads kind hash i (head ∷ heads) =
      let rest = search_heads kind hash (i + 1) heads in
      if (kind == query_static && i == 2) || (kind == query_loadable && not (i == 2))
      then rest
      else elim (search_chain hash head) [ some token ↦ some token | none ↦ rest ]

  unfoldable pub query : Option Runtime → ℕ → ℕ → ℕ → TcReturn × Option QueryToken
  query none kind hash out = (invalid_arguments, none)
  query (some r) kind hash out = elim r.loadable [
    | none ↦ (invalid_arguments, none)
    | some loaded ↦
        if hash == 0 || (out == 0 || leb query_total kind)
        then (invalid_arguments, none)
        else elim (search_heads kind hash 0 (r.static_head ∷ r.engineering_head ∷ loaded ∷ [])) [
          | some token ↦ (success, some token)
          | none ↦ (not_found, none)
        ]
  ]

  -- The capability mask, and the value written through `out` where one is written.
  unfoldable pub get_capabilities : Option TrustCache → ℕ → TcReturn × Option ℕ
  get_capabilities none out = (invalid_arguments, none)
  get_capabilities (some tc) out =
      let version = le32 mem tc.module_at in
      if tc.module_at == 0 || (ltb tc.module_size 24 || out == 0)
      then (invalid_arguments, none)
      else if stride version == 0
      then (unsupported, none)
      else (success, some (if version == 0 then 0 else if version == 1 then 3 else 7))

  -- The 16 bytes at the address that it returns are copied to `out`.
  unfoldable pub get_uuid : Option TrustCache → ℕ → TcReturn × Option ℕ
  get_uuid none out = (invalid_arguments, none)
  get_uuid (some tc) out =
      if tc.module_at == 0 || (ltb tc.module_size 24 || out == 0)
      then (invalid_arguments, none)
      else (success, some (tc.module_at + 4))

  unfoldable pub token_valid : Option QueryToken → Bool
  token_valid none = false
  token_valid (some t) =
      let start = t.cache.module_at in
      let step = stride (le32 mem start) in
      if start == 0 || (t.entry == 0 || ltb t.cache.module_size 24)
      then false
      else not (step == 0)
        && (leb (24 + step) t.cache.module_size
            && (leb start t.entry
                && (leb 24 (t.entry - start)
                    && (leb (t.entry - start) (t.cache.module_size - step)
                        && (t.entry - start - 24) % step == 0))))

  unfoldable pub query_get_tc_type : Option QueryToken → ℕ → TcReturn × Option ℕ
  query_get_tc_type none out = (invalid_arguments, none)
  query_get_tc_type (some t) out =
      if not (token_valid (some t)) || out == 0
      then (invalid_arguments, none)
      else (success, some t.cache.kind)

  unfoldable pub query_get_capabilities : Option QueryToken → ℕ → TcReturn × Option ℕ
  query_get_capabilities none out = (invalid_arguments, none)
  query_get_capabilities (some t) out =
      if not (token_valid (some t))
      then (invalid_arguments, none)
      else get_capabilities (some t.cache) out

  unfoldable pub field : Option QueryToken → ℕ → ℕ → TcReturn × Option ℕ
  field none offset out = (invalid_arguments, none)
  field (some t) offset out =
      if not (token_valid (some t)) || out == 0
      then (invalid_arguments, none)
      else if leb (stride (le32 mem t.cache.module_at)) offset
      then (unsupported, none)
      else (success, some (mem (t.entry + offset)))

  unfoldable pub query_get_hash_type : Option QueryToken → ℕ → TcReturn × Option ℕ
  query_get_hash_type t out = field t 20 out

  -- `&value` of the source is not NULL: here it is `out`, which has been tested.
  unfoldable pub query_get_flags : Option QueryToken → ℕ → TcReturn × Option ℕ
  query_get_flags t out = if out == 0 then (invalid_arguments, none) else field t 21 out

  unfoldable pub query_get_constraint_category : Option QueryToken → ℕ → TcReturn × Option ℕ
  query_get_constraint_category t out = field t 22 out

  unfoldable pub query_get_uuid : Option QueryToken → ℕ → TcReturn × Option ℕ
  query_get_uuid none out = (invalid_arguments, none)
  query_get_uuid (some t) out =
      if not (token_valid (some t)) then (invalid_arguments, none) else get_uuid (some t.cache) out

-- The module's address and size, written through `out` and `size`.
unfoldable pub get_module : Option TrustCache → ℕ → ℕ → TcReturn × Option (ℕ × ℕ)
get_module none out size = (invalid_arguments, none)
get_module (some tc) out size =
    if out == 0 || size == 0
    then (invalid_arguments, none)
    else (success, some (tc.module_at, tc.module_size))
