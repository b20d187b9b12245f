-- ===== src/Kernel/Tests/Draws.antt =====
-- A bound that is not a power of two: of the draws, 0 is rejected for 3.
use minidarwin.Prelude.{◌/◌, ◌≡◌, refl, true, [], ◌∷◌, arith}
use minidarwin.Kernel.Random.{word, bits, failure, error, threshold, sample, uniform}
use minidarwin.Kernel.Random.Fair.{count, returns, uniform_fair}

threshold_runs : threshold 3 ≡ 1
unfolding threshold
threshold_runs = refl

failure_runs : uniform 7 3 true (bits 0 ∷ failure 5 ∷ bits 4 ∷ []) ≡ error 5
unfolding uniform sample threshold
failure_runs = refl

uniform_fair_example : count (returns 3 2) word ≡ word / 3
uniform_fair_example = uniform_fair 3 2 (omega arith) (omega arith)
