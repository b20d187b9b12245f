-- ===== src/Kernel/TrustCache/Query.antt =====
-- `trustCacheQuery` of pkgs/xnu/support/trust-cache.c over the chains of the runtime.
use native.Mathlib.Nat.{mul-mod_left}
use mathlib.Core.Path.{subst}
use minidarwin.Prelude.{
  ℕ, suc, ◌+◌, ◌-◌, ◌*◌, ◌%◌, ◌≤◌, ◌<◌, ◌≡◌, ◌≢◌, ◌⊎◌, inl, inr, refl, true, false, Option, none,
  some, List, [], ◌∷◌, ◌++◌, All, All-split, All-append, Bool-cases, sym, ap, ◌∙◌, Ordering, arith,
  ◌==◌, if◌then◌else◌,
}
use minidarwin.Kernel.Memory.{Memory, memcmp}
use minidarwin.Kernel.TrustCache.{
  TcReturn, success, not_found, TrustCache, Runtime, query_static, query_loadable, query_total,
  entry_at, all_caches, load_module, hash_size, query_all,
}
use minidarwin.Kernel.TrustCache.Tokens.{
  QueryToken, search_module, search_chain, search_heads, query, token_valid,
}
use minidarwin.Kernel.TrustCache.Validity.{IsModule, module_count, module_stride}
use minidarwin.Kernel.TrustCache.Search.{HasHash, Finds, search_module-Finds}
use minidarwin.Kernel.TrustCache.Load.{new_node}
use minidarwin.Kernel.TrustCache.Invariant.{RuntimeOk, load_module-Inserted}
use minidarwin.Kernel.TrustCache.Chain.{Inserted, here, there}

module _ (mem : Memory) (hash : ℕ) where
  -- One of the entries of the module of `tc` holds the hash.
  abbrev pub Holds : TrustCache → ℕ → Type 0
  Holds tc entry =
      (i : ℕ) × (i < module_count mem tc.module_at)
      × (entry ≡ entry_at tc.module_at (module_stride mem tc.module_at) i)
      × HasHash mem hash tc.module_at (module_stride mem tc.module_at) entry

  abbrev pub Lacks : TrustCache → Type 0
  Lacks tc =
      (i : ℕ)
      → i < module_count mem tc.module_at
      → ¬ HasHash mem hash tc.module_at (module_stride mem tc.module_at)
          (entry_at tc.module_at (module_stride mem tc.module_at) i)

  -- The first cache of the list that holds the hash, with the entry, or no cache of it does.
  abbrev pub Answers : List TrustCache → Option QueryToken → Type 0
  Answers [] none = Unit {0}
  Answers [] (some t) = ⊥
  Answers (tc ∷ rest) none = Lacks tc × Answers rest none
  Answers (tc ∷ rest) (some t) =
      ((t.cache ≡ tc) × Holds tc t.entry) ⊎ (Lacks tc × Answers rest (some t))

  abbrev IsOk : TrustCache → Type 0
  IsOk tc = IsModule mem tc.module_at tc.module_size tc.module_size

  lacking :
      (tc : TrustCache) (rest : List TrustCache) (o : Option QueryToken)
      → Lacks tc
      → Answers rest o
      → Answers (tc ∷ rest) o
  lacking tc rest none l a = (l, a)
  lacking tc rest (some t) l a = inr (l, a)

  abbrev or_else : Option QueryToken → Option QueryToken → Option QueryToken
  or_else o o' = elim o [ some token ↦ some token | none ↦ o' ]

  Answers-append :
      (xs ys : List TrustCache) (o o' : Option QueryToken)
      → Answers xs o
      → Answers ys o'
      → Answers (xs ++ ys) (or_else o o')
  Answers-append [] ys none o' a b = b
  Answers-append [] ys (some t) o' a b = absurd a
  Answers-append (x ∷ xs) ys none o' a b =
      lacking x (xs ++ ys) o' a.0 (Answers-append xs ys none o' a.1 b)
  Answers-append (x ∷ xs) ys (some t) o' (inl h) b = inl h
  Answers-append (x ∷ xs) ys (some t) o' (inr h) b =
      inr (h.0, Answers-append xs ys (some t) o' h.1 b)

  Answers-cons :
      (tc : TrustCache) (rest : List TrustCache) (o : Option ℕ) (r : Option QueryToken)
      → Finds mem hash tc.module_at
          (module_stride mem tc.module_at)
          0
          (module_count mem tc.module_at)
          o
      → Answers rest r
      → Answers
          (tc ∷ rest)
          (elim o [ some entry ↦ some (record { cache = tc; entry = entry }) | none ↦ r ])
  Answers-cons tc rest none r f a = lacking tc rest r (λ i b. f i (omega arith) b) a
  Answers-cons tc rest (some e) r (i, low, high, at, h) a = inl (refl, (i, high, at, h))

  search_chain-Answers :
      (xs : List TrustCache) → All IsOk xs → Answers xs (search_chain mem hash xs)
  unfolding search_chain
  search_chain-Answers [] ok = tt
  search_chain-Answers (tc ∷ rest) ok =
      Answers-cons tc rest (search_module mem hash tc.module_at) (search_chain mem hash rest)
        (search_module-Finds mem hash tc.module_at tc.module_size tc.module_size ok.0)
        (search_chain-Answers rest ok.1)

  -- the caches that a query of the kind looks through, in its order
  abbrev pub searched : ℕ → Runtime → List TrustCache → List TrustCache
  searched kind r loaded =
      if kind == query_static
      then r.static_head ++ r.engineering_head
      else if kind == query_loadable
      then loaded
      else r.static_head ++ (r.engineering_head ++ loaded)

  abbrev heads_searched : Runtime → List TrustCache → ℕ → Option QueryToken
  heads_searched r loaded kind =
      search_heads mem kind hash 0 (r.static_head ∷ r.engineering_head ∷ loaded ∷ [])

  abbrev chain : List TrustCache → Option QueryToken
  chain = search_chain mem hash

  module _ (r : Runtime) (loaded : List TrustCache) (ok : All IsOk (all_caches r loaded)) where
    parts : All IsOk r.static_head × All IsOk r.engineering_head × All IsOk loaded
    parts =
        let (s, rest) = All-split IsOk r.static_head _ ok in
        let (e, l) = All-split IsOk r.engineering_head loaded rest in (s, e, l)

    heads_static :
        (kind : ℕ)
        → (kind == query_static) ≡ true
        → heads_searched r loaded kind ≡ or_else (chain r.static_head) (chain r.engineering_head)
    unfolding search_heads
    heads_static kind h = ground arith

    heads_loadable :
        (kind : ℕ) → (kind == query_loadable) ≡ true → heads_searched r loaded kind ≡ chain loaded
    unfolding search_heads
    heads_loadable kind h = ground arith

    heads_all :
        (kind : ℕ)
        → (kind == query_static) ≡ false
        → (kind == query_loadable) ≡ false
        → heads_searched r loaded kind
          ≡ or_else (chain r.static_head) (or_else (chain r.engineering_head) (chain loaded))
    unfolding search_heads
    heads_all kind h k = ground arith

    search_heads-Answers :
        (kind : ℕ) → Answers (searched kind r loaded) (heads_searched r loaded kind)
    search_heads-Answers kind =
        let (s, e, l) = parts in
        let sa = search_chain-Answers r.static_head s in
        let ae = search_chain-Answers r.engineering_head e in
        let al = search_chain-Answers loaded l in
        elim (Bool-cases (kind == query_static)) [
          | inl a ↦
              rw (heads_static kind a, a)
                (Answers-append r.static_head r.engineering_head _ _ sa ae)
          | inr a ↦ elim (Bool-cases (kind == query_loadable)) [
            | inl b ↦ rw (heads_loadable kind b, a, b) al
            | inr b ↦
                rw (heads_all kind a b, a, b)
                  (Answers-append r.static_head _ _ _ sa
                    (Answers-append r.engineering_head loaded _ _ ae al))
          ]
        ]

  abbrev pub status : Option QueryToken → TcReturn
  status none = not_found
  status (some t) = success

  query_eq :
      (r : Runtime) (loaded : List TrustCache) (kind out : ℕ)
      → r.loadable ≡ some loaded
      → hash ≢ 0
      → out ≢ 0
      → kind < query_total
      → query mem (some r) kind hash out
        ≡ (status (heads_searched r loaded kind), heads_searched r loaded kind)
  unfolding query
  query_eq r loaded kind out e h k b = ground arith

  -- With arguments that are not NULL and a query type that exists, in a runtime that satisfies the
  -- invariant, a query succeeds exactly if an entry of the caches it looks through holds the hash,
  -- and its token names the first such cache and such an entry.
  pub query_lem :
      (r : Runtime) (kind out : ℕ) (ok : RuntimeOk mem r)
      → hash ≢ 0
      → out ≢ 0
      → kind < query_total
      → (o : Option QueryToken) × (query mem (some r) kind hash out ≡ (status o, o))
        × Answers (searched kind r ok.loaded) o
  query_lem r kind out ok h k b = (
    heads_searched r ok.loaded kind,
    query_eq r ok.loaded kind out ok.present h k b,
    search_heads-Answers r ok.loaded ok.caches.modules kind,
  )

  module _ (tc : TrustCache) (entry : ℕ) (ok : IsOk tc) (h : Holds tc entry) where
    offset_bounds :
        (24 ≤ entry - tc.module_at)
        × (entry - tc.module_at + module_stride mem tc.module_at ≤ tc.module_size)
        × (tc.module_at ≤ entry)
    offset_bounds =
        let (i, b, e, _) = h in
        let room : suc i * module_stride mem tc.module_at
            ≤ module_count mem tc.module_at * module_stride mem tc.module_at =
          grind arith in
        (omega (arith, ok.size), omega (arith, ok.size), omega arith)

    offset_aligned : (entry - tc.module_at - 24) % module_stride mem tc.module_at ≡ 0
    offset_aligned =
        let (i, b, e, _) = h in
        let s : entry - tc.module_at - 24 ≡ i * module_stride mem tc.module_at = omega arith in
        rw s (mul-mod_left i (module_stride mem tc.module_at))

    -- The token of an entry that holds the hash is accepted by every accessor.
    token_valid_lem : token_valid mem (some (record { cache = tc; entry = entry })) ≡ true
    unfolding token_valid
    token_valid_lem =
        ground (arith, offset_bounds, offset_aligned, ok.not_null, ok.version, ok.size, ok.fits)

  Answers-token :
      (xs : List TrustCache) (t : QueryToken)
      → All IsOk xs
      → Answers xs (some t)
      → IsOk t.cache × Holds t.cache t.entry
  Answers-token [] t ok a = absurd a
  Answers-token (x ∷ xs) t ok (inl (e, h)) =
      (subst IsOk (sym e) ok.0, subst (λ c. Holds c t.entry) (sym e) h)
  Answers-token (x ∷ xs) t ok (inr (l, a)) = Answers-token xs t ok.1 a

  Answers-none :
      (x : TrustCache) {xs ys : List TrustCache} → Inserted x xs ys → Answers ys none → Lacks x
  Answers-none x here a = a.0
  Answers-none x (there i) a = Answers-none x i a.1

  succeeds :
      (x : TrustCache) {xs ys : List TrustCache} (i : ℕ) (o : Option QueryToken)
      → Inserted x xs ys
      → Answers ys o
      → i < module_count mem x.module_at
      → HasHash mem hash x.module_at
          (module_stride mem x.module_at)
          (entry_at x.module_at (module_stride mem x.module_at) i)
      → status o ≡ success
  succeeds x i (some t) ins a b h = refl
  succeeds x i none ins a b h = absurd (Answers-none x ins a i b h)

  searched-IsOk :
      (kind : ℕ) (r : Runtime) (loaded : List TrustCache)
      → All IsOk (all_caches r loaded)
      → All IsOk (searched kind r loaded)
  searched-IsOk kind r loaded ok =
      let (s, e, l) = parts r loaded ok in
      elim (Bool-cases (kind == query_static)) [
        | inl a ↦ rw a (All-append IsOk r.static_head _ s e)
        | inr a ↦ elim (Bool-cases (kind == query_loadable)) [
          | inl b ↦ rw (a, b) l
          | inr b ↦ rw (a, b) ok
        ]
      ]

  query_arguments :
      (r : Runtime) (kind out : ℕ) (t : QueryToken)
      → query mem (some r) kind hash out ≡ (success, some t)
      → (hash ≢ 0) × (out ≢ 0) × (kind < query_total)
  unfolding query
  query_arguments r kind out t h = ground arith

  -- In a runtime that satisfies the invariant, a query that succeeds returns an entry that holds the
  -- hash, in a token that passes the check of every accessor.
  pub query_token :
      (r : Runtime) (kind out : ℕ) (t : QueryToken)
      → RuntimeOk mem r
      → query mem (some r) kind hash out ≡ (success, some t)
      → (memcmp mem hash_size hash t.entry ≡ Ordering.eq) × (token_valid mem (some t) ≡ true)
  query_token r kind out t ok h =
      let (a, b, c) = query_arguments r kind out t h in
      let (o, e, answers) = query_lem r kind out ok a b c in
      let same : o ≡ some t = ap (λ (q : TcReturn × Option QueryToken). q.1) (sym e ∙ h) in
      let (is, holds) =
        Answers-token (searched kind r ok.loaded) t
          (searched-IsOk kind r ok.loaded ok.caches.modules)
          (subst (Answers (searched kind r ok.loaded)) same answers) in
      (holds.3, token_valid_lem t.cache t.entry is holds)

  -- After a module has been loaded into a runtime that satisfies the invariant, a query of every
  -- cache succeeds for each hash that the module holds.
  pub query-load_module :
      (r r' : Runtime) (kind tc address len out i : ℕ)
      → RuntimeOk mem r
      → load_module mem r kind tc address len ≡ (success, r')
      → hash ≢ 0
      → out ≢ 0
      → i < module_count mem address
      → memcmp mem hash_size hash (entry_at address (module_stride mem address) i) ≡ Ordering.eq
      → (query mem (some r') query_all hash out).0 ≡ success
  query-load_module r r' kind tc address len out i ok h a b c same =
      let (ok', size, ins) = load_module-Inserted mem r r' kind tc address len h ok in
      let (o, e, answers) = query_lem r' query_all out ok' a b (omega arith) in
      ap (λ (q : TcReturn × Option QueryToken). q.0) e
      ∙ succeeds (new_node mem kind tc address size) i o ins answers c same
