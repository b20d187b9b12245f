-- ===== src/Kernel/TrustCache/Invariant.antt =====
-- The invariant of the runtime of pkgs/xnu/support/trust-cache.c.
use native.Mathlib.Nat.{le_refl}
use mathlib.Core.Path.{subst}
use minidarwin.Prelude.{
  ℕ, ◌+◌, ◌≤◌, ◌≡◌, ◌⊎◌, sym, ap, ◌∙◌, if◌then◌else◌, ◌||◌, inl, inr, refl, Bool, true, false, some,
  List, [], ◌∷◌, All, length, arith, ◌==◌, Bool-cases,
}
use minidarwin.Kernel.Memory.{Memory}
use minidarwin.Kernel.TrustCache.{
  TcReturn, success, TrustCache, Runtime, type_static, type_engineering, type_legacy, has_next,
  is_null, link, all_caches, load_module, initialize_runtime, check_runtime_for_uuid,
  TcReturn-discrete,
}
use minidarwin.Kernel.TrustCache.Validity.{IsModule}
use minidarwin.Kernel.TrustCache.Load.{
  Loads, load_module-Loads, load_refused, new_node, check_found,
}
use minidarwin.Kernel.TrustCache.Chain.{
  Inserted, here, Inserted-append, All-Inserted, PairwiseApart, PairwiseApart-Inserted,
  unlinked-Apart, find_uuid-Inserted,
}

-- The chain of loadable caches after a load.
abbrev pub loadable_after : List TrustCache → TrustCache → List TrustCache
loadable_after loaded tc =
    if tc.kind == type_static || tc.kind == type_engineering then loaded else tc ∷ loaded

-- A load puts its node into the chains at one place, and changes nothing else of them.
pub link-Inserted :
    (r : Runtime) (loaded : List TrustCache) (tc : TrustCache)
    → Inserted tc (all_caches r loaded) (all_caches (link r loaded tc) (loadable_after loaded tc))
unfolding link
link-Inserted r loaded tc = elim (Bool-cases (tc.kind == type_static)) [
  | inl a ↦ rw a here
  | inr a ↦ elim (Bool-cases (tc.kind == type_engineering)) [
    | inl b ↦ rw (a, b) (Inserted-append r.static_head here)
    | inr b ↦ rw (a, b) (Inserted-append r.static_head (Inserted-append r.engineering_head here))
  ]
]

pub link-loadable :
    (r : Runtime) (loaded : List TrustCache) (tc : TrustCache)
    → r.loadable ≡ some loaded
    → (link r loaded tc).loadable ≡ some (loadable_after loaded tc)
unfolding link
link-loadable r loaded tc e = ground arith

has_next-length : (xs : List TrustCache) → has_next xs ≡ false → length xs ≤ 1
unfolding has_next
has_next-length [] h = omega arith
has_next-length (x ∷ []) h = omega arith
has_next-length (x ∷ y ∷ xs) h = cc

is_null-length : (xs : List TrustCache) → is_null xs ≡ true → length xs ≡ 0
is_null-length [] h = refl
is_null-length (x ∷ xs) h = cc

module _ (mem : Memory) where
  -- Every linked cache holds a well-formed module; UUIDs and nodes are pairwise different.
  pub record CachesOk (caches : List TrustCache) : Type 0 where
    pub modules : All (λ tc. IsModule mem tc.module_at tc.module_size tc.module_size) caches
    pub apart : PairwiseApart mem caches

  -- Each chain holds its own kind; there is a second static cache only where that is allowed, and
  -- never a third; engineering and legacy caches are there only where they are allowed.
  pub record PolicyOk (r : Runtime) (loaded : List TrustCache) : Type 0 where
    pub static_kinds : All (λ tc. tc.kind ≡ type_static) r.static_head
    pub engineering_kinds : All (λ tc. tc.kind ≡ type_engineering) r.engineering_head
    pub loadable_kinds : All (λ tc. tc.kind ≡ type_legacy) loaded
    pub static_bound : length r.static_head ≤ 2
    pub one_static : r.allow_second_static ≡ false → length r.static_head ≤ 1
    pub no_engineering : r.allow_engineering ≡ false → r.engineering_head ≡ []
    pub no_legacy : r.allow_legacy ≡ false → loaded ≡ []

  policy_link :
      (tc : TrustCache) (r : Runtime) (loaded : List TrustCache)
      → (tc.kind ≡ type_static) ⊎ (tc.kind ≡ type_engineering) ⊎ (tc.kind ≡ type_legacy)
      → (tc.kind ≡ type_engineering → r.allow_engineering ≡ true)
      → (tc.kind ≡ type_legacy → r.allow_legacy ≡ true)
      → (tc.kind ≡ type_static
          → (is_null r.static_head ≡ true)
            ⊎ ((r.allow_second_static ≡ true) × (has_next r.static_head ≡ false)))
      → PolicyOk r loaded
      → PolicyOk (link r loaded tc) (loadable_after loaded tc)
  unfolding link
  policy_link tc r loaded known eng leg room ok =
      ground (arith, has_next-length r.static_head, is_null-length r.static_head)

  IsModule-resize : (p len size : ℕ) → IsModule mem p len size → IsModule mem p size size
  IsModule-resize p len size m = record {
    not_null = m.not_null;
    version = m.version;
    size = m.size;
    fits = le_refl size;
    entries = m.entries;
  }

  caches_after :
      (r r' : Runtime) (loaded : List TrustCache) (kind tc address len : ℕ)
      → (l : Loads mem r loaded kind tc address len r') → CachesOk (all_caches r loaded)
      → CachesOk (all_caches r' (loadable_after loaded (new_node mem kind tc address l.size)))
  caches_after r r' loaded kind tc address len l ok =
      let node = new_node mem kind tc address l.size in
      let i = link-Inserted r loaded node in
      rw l.result (record {
        modules = All-Inserted _ i (IsModule-resize address len l.size l.is_module) ok.modules;
        apart =
            PairwiseApart-Inserted mem i (unlinked-Apart mem node _ l.fresh l.unlinked) ok.apart;
      })

  policy_after :
      (r r' : Runtime) (loaded : List TrustCache) (kind tc address len : ℕ)
      → (l : Loads mem r loaded kind tc address len r') → PolicyOk r loaded
      → PolicyOk r' (loadable_after loaded (new_node mem kind tc address l.size))
  policy_after r r' loaded kind tc address len l ok = rw l.result (
      policy_link (new_node mem kind tc address l.size) r loaded l.kind_known l.engineering_allowed
        l.legacy_allowed l.static_room ok)

  pub record RuntimeOk (r : Runtime) : Type 0 where
    pub loaded : List TrustCache
    pub present : r.loadable ≡ some loaded
    pub caches : CachesOk (all_caches r loaded)
    pub policy : PolicyOk r loaded

  load_success-RuntimeOk :
      (r r' : Runtime) (kind tc address len : ℕ)
      → load_module mem r kind tc address len ≡ (success, r')
      → RuntimeOk r
      → RuntimeOk r'
  load_success-RuntimeOk r r' kind tc address len h ok =
      let (loaded, e, l) = load_module-Loads mem r r' kind tc address len h in
      let same : ok.loaded ≡ loaded = cc (ok.present, e) in
      record {
        loaded = loadable_after loaded (new_node mem kind tc address l.size);
        present =
            ap (λ (q : Runtime). q.loadable) l.result
            ∙ link-loadable r loaded (new_node mem kind tc address l.size) e;
        caches =
            caches_after r r' loaded kind tc address len l
              (subst (λ c. CachesOk (all_caches r c)) same ok.caches);
        policy =
            policy_after r r' loaded kind tc address len l
              (subst (λ c. PolicyOk r c) same ok.policy);
      }

  -- A successful load adds one node, which holds the module at the address.
  pub load_module-Inserted :
      (r r' : Runtime) (kind tc address len : ℕ)
      → load_module mem r kind tc address len ≡ (success, r')
      → (ok : RuntimeOk r)
      → (ok' : RuntimeOk r') × (size : ℕ) × Inserted
          (new_node mem kind tc address size)
          (all_caches r ok.loaded)
          (all_caches r' ok'.loaded)
  unfolding load_success-RuntimeOk
  load_module-Inserted r r' kind tc address len h ok =
      let (loaded, e, l) = load_module-Loads mem r r' kind tc address len h in
      let node = new_node mem kind tc address l.size in
      let same : ok.loaded ≡ loaded = cc (ok.present, e) in
      (
        load_success-RuntimeOk r r' kind tc address len h ok,
        l.size,
        rw (l.result, same) (link-Inserted r loaded node),
      )

  -- Every load, successful or refused, keeps the invariant.
  pub load_module-RuntimeOk :
      (r : Runtime) (kind tc address len : ℕ)
      → RuntimeOk r
      → RuntimeOk (load_module mem r kind tc address len).1
  load_module-RuntimeOk r kind tc address len ok =
      elim (TcReturn-discrete (load_module mem r kind tc address len).0 success) [
        | yes e ↦
            load_success-RuntimeOk r (load_module mem r kind tc address len).1 kind tc address len
              (ap (λ (c : TcReturn). (c, (load_module mem r kind tc address len).1)) e) ok
        | no n ↦ subst RuntimeOk (sym (load_refused mem r kind tc address len n)) ok
      ]

  pub initialize_runtime-RuntimeOk :
      (second engineering legacy : Bool) → RuntimeOk (initialize_runtime second engineering legacy)
  unfolding initialize_runtime
  initialize_runtime-RuntimeOk second engineering legacy = record {
    loaded = [];
    present = refl;
    caches = record { modules = tt; apart = tt };
    policy = ground arith;
  }

  -- the arguments of one call of `load_module`
  pub record Request : Type 0 where
    pub kind : ℕ
    pub node : ℕ
    pub address : ℕ
    pub len : ℕ

  pub load_all : Runtime → List Request → Runtime
  load_all r [] = r
  load_all r (q ∷ rest) = load_all (load_module mem r q.kind q.node q.address q.len).1 rest

  load_all-RuntimeOk : (qs : List Request) (r : Runtime) → RuntimeOk r → RuntimeOk (load_all r qs)
  unfolding load_all
  load_all-RuntimeOk [] r ok = ok
  load_all-RuntimeOk (q ∷ rest) r ok =
      load_all-RuntimeOk rest _ (load_module-RuntimeOk r q.kind q.node q.address q.len ok)

  -- After any sequence of loads, refused ones included, into a runtime that has just been
  -- initialised, every linked cache holds a well-formed module, UUIDs and nodes are pairwise
  -- different, and each chain keeps to the kinds and the limits that the runtime allows.
  pub loads_keep_invariant :
      (second engineering legacy : Bool) (qs : List Request)
      → RuntimeOk (load_all (initialize_runtime second engineering legacy) qs)
  loads_keep_invariant second engineering legacy qs =
      load_all-RuntimeOk qs _ (initialize_runtime-RuntimeOk second engineering legacy)

  -- After a load that succeeds, the lookup by the UUID of the module finds the node of that load.
  pub check_runtime-load_module :
      (r r' : Runtime) (kind tc address len : ℕ)
      → load_module mem r kind tc address len ≡ (success, r')
      → (size : ℕ) × (check_runtime_for_uuid mem (some r') (address + 4)
          ≡ (success, some (new_node mem kind tc address size)))
  check_runtime-load_module r r' kind tc address len h =
      let (loaded, e, l) = load_module-Loads mem r r' kind tc address len h in
      let node = new_node mem kind tc address l.size in
      let found = find_uuid-Inserted mem node (link-Inserted r loaded node) l.fresh in
      (
        l.size,
        rw l.result (
            check_found mem (link r loaded node) (loadable_after loaded node) (address + 4) node
              (link-loadable r loaded node e) (omega arith) found),
      )
