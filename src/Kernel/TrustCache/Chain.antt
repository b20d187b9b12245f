-- ===== src/Kernel/TrustCache/Chain.antt =====
-- Chains of trust caches of pkgs/xnu/support/trust-cache.c: lookups by UUID and by node, and one
-- node more.
use minidarwin.Prelude.{
  ℕ, ◌+◌, ◌≡◌, ◌≢◌, Ordering, false, none, some, List, [], ◌∷◌, ◌++◌, All, arith,
}
use minidarwin.Kernel.Memory.{Memory, memcmp}
use minidarwin.Kernel.Memory.Compare.{memcmp_self, memcmp_swap_eq}
use minidarwin.Kernel.TrustCache.{TrustCache, uuid_size, find_uuid, is_linked}

-- `xs` with `x` at some place
pub data Inserted (x : TrustCache) : List TrustCache → List TrustCache → Type 0 where
  here : {xs : List TrustCache} → Inserted x xs (x ∷ xs)
  there :
      {y : TrustCache} {xs ys : List TrustCache} → Inserted x xs ys → Inserted x (y ∷ xs) (y ∷ ys)

pub Inserted-append :
    {x : TrustCache} {ys zs : List TrustCache} (xs : List TrustCache)
    → Inserted x ys zs
    → Inserted x (xs ++ ys) (xs ++ zs)
Inserted-append [] i = i
Inserted-append (y ∷ xs) i = there (Inserted-append xs i)

pub All-Inserted {κ} :
    {x : TrustCache} {xs ys : List TrustCache} (P : TrustCache → Type κ)
    → Inserted x xs ys
    → P x
    → All P xs
    → All P ys
All-Inserted P here h a = (h, a)
All-Inserted P (there i) h a = (a.0, All-Inserted P i h a.1)

module _ (mem : Memory) where
  -- two caches with different UUIDs, in different nodes
  abbrev pub Apart : TrustCache → TrustCache → Type 0
  Apart x y =
      (memcmp mem uuid_size (y.module_at + 4) (x.module_at + 4) ≢ Ordering.eq) × (y.self ≢ x.self)

  Apart-swap : (x y : TrustCache) → Apart x y → Apart y x
  Apart-swap x y a = ((λ e. a.0 (memcmp_swap_eq mem uuid_size _ _ e)), (λ e. a.1 (cc e)))

  abbrev pub PairwiseApart : List TrustCache → Type 0
  PairwiseApart [] = Unit {0}
  PairwiseApart (x ∷ xs) = All (Apart x) xs × PairwiseApart xs

  pub PairwiseApart-Inserted :
      {x : TrustCache} {xs ys : List TrustCache}
      → Inserted x xs ys
      → All (Apart x) xs
      → PairwiseApart xs
      → PairwiseApart ys
  PairwiseApart-Inserted here a p = (a, p)
  PairwiseApart-Inserted {x} (there {y} i) a p =
      (All-Inserted (Apart y) i (Apart-swap x y a.0) p.0, PairwiseApart-Inserted i a.1 p.1)

  -- what the two lookups that precede a load have excluded
  pub unlinked-Apart :
      (x : TrustCache) (xs : List TrustCache)
      → find_uuid mem (x.module_at + 4) xs ≡ none
      → is_linked x.self xs ≡ false
      → All (Apart x) xs
  unfolding find_uuid is_linked
  unlinked-Apart x [] f l = tt
  unlinked-Apart x (y ∷ xs) f l =
      ((ground arith, ground arith), unlinked-Apart x xs (ground arith) (ground arith))

  -- The lookup by UUID finds a new node.
  pub find_uuid-Inserted :
      (x : TrustCache) {xs ys : List TrustCache}
      → Inserted x xs ys
      → find_uuid mem (x.module_at + 4) xs ≡ none
      → find_uuid mem (x.module_at + 4) ys ≡ some x
  unfolding find_uuid
  find_uuid-Inserted x here f = rw (find_uuid, memcmp_self mem uuid_size (x.module_at + 4))
  find_uuid-Inserted x (there {y} {xs} i) f = ground (arith, find_uuid-Inserted x i)

  -- and any other lookup that succeeded before still does, with the same cache
  pub find_uuid-Inserted_ne :
      (x : TrustCache) (uuid : ℕ) {xs ys : List TrustCache}
      → Inserted x xs ys
      → memcmp mem uuid_size (x.module_at + 4) uuid ≢ Ordering.eq
      → find_uuid mem uuid ys ≡ find_uuid mem uuid xs
  unfolding find_uuid
  find_uuid-Inserted_ne x uuid here h = ground arith
  find_uuid-Inserted_ne x uuid (there i) h = ground (arith, find_uuid-Inserted_ne x uuid i h)
