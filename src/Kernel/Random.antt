-- ===== src/Kernel/Random.antt =====
-- Uniform numbers below a bound: `md_rng_uniform` of pkgs/xnu/support/kernel-rng.c, and
-- `ccrng_uniform` of pkgs/libsystem/runtime-rng.c, which is the same but for its errors.
pub mod Fair
use minidarwin.Prelude.{
  ℕ, zero, suc, ◌+◌, ◌-◌, ◌/◌, ◌%◌, ◌^◌, ◌≡◌, Bool, true, false, Option, none, some, List, [], ◌∷◌,
  ltb, ◌==◌, if◌then◌else◌,
}

abbrev pub word : ℕ
word = 2 ^ 64

-- What a call of the generator gives: 64 random bits, or an error.
pub data Draw : Type 0 where
  bits : ℕ → Draw
  failure : ℕ → Draw

-- `waits` is a loop that goes on behind the draws that are there.
pub data Drawn : Type 0 where
  result : ℕ → Drawn
  error : ℕ → Drawn
  waits : Drawn

-- (uint64_t)(-bound) % bound
unfoldable pub threshold : ℕ → ℕ
threshold bound = (word - bound) % word % bound

-- the loop, with the generator's successive answers
unfoldable pub sample : ℕ → List Draw → Drawn
sample bound [] = waits
sample bound (failure rc ∷ draws) = error rc
sample bound (bits value ∷ draws) =
    let more = sample bound draws in
    if ltb value (threshold bound) then more else result (value % bound)

-- CCERR_PARAMETER, or EINVAL
unfoldable pub uniform : ℕ → ℕ → Bool → List Draw → Drawn
uniform parameter bound out draws =
    if out then (if bound == 0 then error parameter else sample bound draws) else error parameter
