-- ===== src/Kernel/Drbg/Counter.antt =====
-- The reseed counter of pkgs/xnu/support/kernel-drbg.c, over the calls between two seeds.
use Prim.Native.Nat.{min}
use mathlib.Core.Path.{subst}
use minidarwin.Prelude.{
  ℕ, suc, ◌+◌, ◌≤◌, ◌<◌, ◌≡◌, refl, ◌∙◌, Bool, true, false, Option, none, some, List, [], ◌∷◌,
  length, leb, ◌==◌, if◌then◌else◌, arith, Bool-cases, inl, inr, All, ◌↔◌,
}
use minidarwin.Kernel.Drbg.{
  Digest, Input, size, State, success, turn, update, must_reseed, blocks, produce, refuses,
  generate, is_provided,
}

-- A request: the size, whether the output is not NULL, and the additional input.
pub record Request : Type 0 where
  pub amount : ℕ
  pub output : Bool
  pub extra : Input

-- the state behind a list of calls of `generate`, whatever they return
unfoldable pub serve : Digest → Option State → List Request → Option State
serve d state [] = state
serve d state (r ∷ rs) = serve d ((generate d state r.amount r.output r.extra).1) rs

turn_keeps :
    (d : Digest) (sep : ℕ) (inputs : List Input) (s : State)
    → ((turn d sep inputs s).initialized ≡ s.initialized)
      × ((turn d sep inputs s).reseed_counter ≡ s.reseed_counter)
unfolding turn
turn_keeps d sep inputs s = (refl, refl)

update_keeps :
    (d : Digest) (inputs : List Input) (s : State)
    → ((update d inputs s).initialized ≡ s.initialized)
      × ((update d inputs s).reseed_counter ≡ s.reseed_counter)
unfolding update turn
update_keeps d inputs s = elim (Bool-cases (is_provided inputs)) [
  | inl t ↦ rw t (refl, refl)
  | inr t ↦ rw t (refl, refl)
]

produce_counts :
    (d : Digest) (s : State) (n : ℕ) (extra : Input)
    → ((produce d s n extra).0.initialized ≡ s.initialized)
      × ((produce d s n extra).0.reseed_counter ≡ s.reseed_counter + 1)
unfolding produce
produce_counts d s n extra =
    let first = update_keeps d (extra ∷ []) s in
    elim (Bool-cases (size extra == 0)) [
      | inl t ↦ rw t (
          let last =
            update_keeps d (extra ∷ []) (record s { value = (blocks d n n s.key s.value).0 }) in
          (last.0, omega (arith, last.1)))
      | inr t ↦ rw t (
          let s1 = update d (extra ∷ []) s in
          let last =
            update_keeps d (extra ∷ []) (record s1 { value = (blocks d n n s1.key s1.value).0 }) in
          (last.0 ∙ first.0, omega (arith, last.1, first.1)))
    ]

abbrev pub IsServed : Digest → Request → Type 0
IsServed d r = refuses d r.amount r.output r.extra ≡ false

-- A seeded state, at a count of at most one above the interval.
Counts : Digest → ℕ → Option State → Type 0
Counts d n none = ⊥
Counts d n (some s) = (s.initialized ≡ true) × (s.reseed_counter ≡ n)

generate_state :
    (d : Digest) (state : Option State) (r : Request) (n : ℕ)
    → IsServed d r
    → 0 < n
    → Counts d n state
    → Counts d
        (if leb n d.reseed_interval then n + 1 else n)
        (generate d state r.amount r.output r.extra).1
unfolding generate must_reseed Counts
generate_state d none r n v h c = elim c [ ]
generate_state d (some s) r n v h c =
    let p = produce_counts d s r.amount r.extra in rw v (ground (arith, p))

generate_status :
    (d : Digest) (state : Option State) (r : Request) (n : ℕ)
    → IsServed d r
    → 0 < n
    → Counts d n state
    → ((generate d state r.amount r.output r.extra).0 ≡ success) ↔ (n ≤ d.reseed_interval)
unfolding generate must_reseed Counts
generate_status d none r n v h c = elim c [ ]
generate_status d (some s) r n v h c = rw v (ground arith)

next_min :
    (n l interval : ℕ)
    → n ≤ interval + 1
    → min ((if leb n interval then n + 1 else n) + l) (interval + 1)
      ≡ min (n + suc l) (interval + 1)
next_min n l interval k = ground arith

serve-Counts :
    (d : Digest) (state : Option State) (rs : List Request) (n : ℕ)
    → All (IsServed d) rs
    → 0 < n
    → n ≤ d.reseed_interval + 1
    → Counts d n state
    → Counts d (min (n + length rs) (d.reseed_interval + 1)) (serve d state rs)
unfolding serve
serve-Counts d state [] n v h k c =
    let e : n ≡ min (n + 0) (d.reseed_interval + 1) = omega arith in
    subst (λ m. Counts d m state) e c
serve-Counts d state (r ∷ rs) n v h k c =
    let next = if leb n d.reseed_interval then n + 1 else n in
    let c' = generate_state d state r n v.0 h c in
    let rest =
      serve-Counts d ((generate d state r.amount r.output r.extra).1) rs next v.1 (ground arith)
        (ground arith) c' in
    subst (λ m. Counts d m (serve d (generate d state r.amount r.output r.extra).1 rs))
      (next_min n (length rs) d.reseed_interval k) rest

-- From a seeded state whose counter is 1, and after any number of requests with valid arguments, a
-- further one is served exactly if fewer than the reseed interval have gone before it.
pub generate_served :
    (d : Digest) (s : State) (rs : List Request) (r : Request)
    → s.initialized ≡ true
    → s.reseed_counter ≡ 1
    → All (IsServed d) rs
    → IsServed d r
    → ((generate d (serve d (some s) rs) r.amount r.output r.extra).0 ≡ success)
      ↔ (length rs < d.reseed_interval)
generate_served d s rs r i c v w =
    let at = serve-Counts d (some s) rs 1 v (omega arith) (omega arith) (unfold Counts in (i, c)) in
    let status =
      generate_status d (serve d (some s) rs) r (min (1 + length rs) (d.reseed_interval + 1)) w
        (omega arith) at in
    ((λ e. omega (arith, status.0 e)), (λ e. status.1 (omega arith)))
