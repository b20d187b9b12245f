-- ===== src/Kernel/Random/Fair.antt =====
-- How the results of `md_rng_uniform` of pkgs/xnu/support/kernel-rng.c are distributed.
use Prim.Native.Nat.mul
use native.Mathlib.Nat.{mod-eq_of_lt, add-mod_right, mod-lt, div-add-mod', mod-eq-sub-mod}
use minidarwin.Prelude.{
  ℕ, zero, suc, ◌+◌, ◌-◌, ◌*◌, ◌/◌, ◌%◌, ◌≤◌, ◌<◌, ◌≡◌, refl, sym, ap, ◌∙◌, Bool, true, false,
  Bool-cases, inl, inr, leb→le, All, ◌++◌, not, ◌&&◌, List, [], ◌∷◌, leb, ltb, ◌==◌, arith,
}
use minidarwin.Kernel.Random.{word, Draw, bits, result, error, waits, threshold, sample, uniform}

abbrev bit : Bool → ℕ
bit true = 1
bit false = 0

-- the number of values below n that pass
unfoldable pub count : (ℕ → Bool) → ℕ → ℕ
count f zero = 0
count f (suc n) = bit (f n) + count f n

count-ext : (f g : ℕ → Bool) (n : ℕ) → ((i : ℕ) → i < n → f i ≡ g i) → count f n ≡ count g n
unfolding count
count-ext f g zero h = refl
count-ext f g (suc n) h = rw (h n (omega arith), count-ext f g n (λ i k. h i (omega arith))) refl

count-suc : (f : ℕ → Bool) (n : ℕ) → count f (suc n) ≡ bit (f n) + count f n
unfolding count
count-suc f n = refl

count-zero : (f : ℕ → Bool) → count f 0 ≡ 0
unfolding count
count-zero f = refl

count_add : (f : ℕ → Bool) (n m : ℕ) → count f (n + m) ≡ count f n + count (λ i. f (n + i)) m
count_add f n zero =
    let e : n + 0 ≡ n = omega arith in omega (arith, ap (count f) e, count-zero (λ i. f (n + i)))
count_add f n (suc m) =
    let e : n + suc m ≡ suc (n + m) = omega arith in
    omega
      (arith, ap (count f) e, count-suc f (n + m), count-suc (λ i. f (n + i)) m, count_add f n m)

-- the value at a distance from s has the residue
abbrev hits : ℕ → ℕ → ℕ → ℕ → Bool
hits b r s i = (s + i) % b == r

hits-suc : (b r s i : ℕ) → hits b r s (suc i) ≡ hits b r (suc s) i
hits-suc b r s i = ap (λ v. v % b == r) (omega arith)

hits_period : (b r s : ℕ) → hits b r s b ≡ hits b r s 0
hits_period b r s =
    let e : s + 0 ≡ s = omega arith in
    ap (λ v. v == r) (add-mod_right s b ∙ sym (ap (λ v. v % b) e))

count_low : (b r n : ℕ) → n ≤ b → count (hits b r 0) n ≡ bit (ltb r n)
unfolding count
count_low b r zero h = ground arith
count_low b r (suc n) h =
    let e : 0 + n ≡ n = omega arith in
    ground (arith, count_low b r n, mod-eq_of_lt {n = n} {m = b} h, ap (λ v. v % b) e)

count_window : (b r s : ℕ) → r < b → count (hits b r s) b ≡ 1
count_window b r zero h = ground (arith, count_low b r b)
count_window b r (suc s) h =
    let before = count_window b r s h in
    let front = count_add (hits b r s) 1 b in
    let shift =
      count-ext (λ i. hits b r s (1 + i)) (hits b r (suc s)) b
        (λ i k. ap (λ v. v % b == r) (omega arith)) in
    let e : 1 + b ≡ suc b = omega arith in
    let one = count-suc (hits b r s) 0 in
    let top = count-suc (hits b r s) b in
    let same = ap bit (hits_period b r s) in
    omega (
      arith,
      before,
      front,
      shift,
      ap (count (hits b r s)) e,
      one,
      top,
      same,
      count-zero (hits b r s),
    )

count_windows : (b r s q : ℕ) → r < b → count (hits b r s) (q * b) ≡ q
count_windows b r s zero h =
    let e : 0 * b ≡ 0 = omega arith in ap (count (hits b r s)) e ∙ count-zero (hits b r s)
count_windows b r s (suc q) h =
    let e : suc q * b ≡ b + q * b = mul.suc q b in
    let shift =
      count-ext (λ i. hits b r s (b + i)) (hits b r (s + b)) (q * b)
        (λ i k. ap (λ v. v % b == r) (omega arith)) in
    omega (
      arith,
      ap (count (hits b r s)) e,
      count_add (hits b r s) b (q * b),
      count_window b r s h,
      shift,
      count_windows b r (s + b) q h,
    )

count_none : (f : ℕ → Bool) (n : ℕ) → ((i : ℕ) → i < n → f i ≡ false) → count f n ≡ 0
unfolding count
count_none f zero h = refl
count_none f (suc n) h =
    omega (arith, ap bit (h n (omega arith)), count_none f n (λ i k. h i (omega arith)))

abbrev accepts : ℕ → ℕ → ℕ → ℕ → Bool
accepts t b r v = not (ltb v t) && (v % b == r)

count_accepted : (b r n : ℕ) → r < b → count (accepts (n % b) b r) n ≡ n / b
count_accepted b r n h =
    let t = n % b in
    let whole : t + n / b * b ≡ n = omega (arith, div-add-mod' n b) in
    let low = count_none (accepts t b r) t (λ i k. ground arith) in
    let high =
      count-ext (λ i. accepts t b r (t + i)) (hits b r t) (n / b * b) (λ i k. ground arith) in
    omega (
      arith,
      ap (count (accepts t b r)) whole,
      count_add (accepts t b r) t (n / b * b),
      low,
      high,
      count_windows b r t (n / b) h,
    )

threshold_rest : (b : ℕ) → 0 < b → b < word → threshold b ≡ word % b
unfolding threshold
threshold_rest b h k =
    let less : word - b < word = omega arith in
    ap (λ x. x % b) (mod-eq_of_lt less) ∙ sym (mod-eq-sub-mod (omega arith))

-- whether one draw gives r at once
abbrev pub returns : ℕ → ℕ → ℕ → Bool
returns b r v = elim (uniform 1 b true (bits v ∷ [])) [
  | result x ↦ x == r
  | error e ↦ false
  | waits ↦ false
]

returns-accepts : (b r v : ℕ) → r < b → returns b r v ≡ accepts (threshold b) b r v
unfolding uniform sample
returns-accepts b r v h = ground arith

-- For a bound below 2 to the 64, of the 2 to the 64 values that a draw can have, equally many are
-- accepted and give each number below the bound: the whole part of the quotient.
pub uniform_fair : (b r : ℕ) → r < b → b < word → count (returns b r) word ≡ word / b
uniform_fair b r h k =
    count-ext (returns b r) (accepts (word % b) b r) word (λ v _.
      returns-accepts b r v h ∙ ap (λ t. accepts t b r v) (threshold_rest b (omega arith) k))
    ∙ count_accepted b r word h

-- For a bound above 0 and below 2 to the 64, fewer than half of the values of a draw are rejected.
pub threshold-half : (b : ℕ) → 0 < b → b < word → 2 * threshold b < word
threshold-half b h k =
    let t = threshold_rest b h k in
    let small : word % b < b = mod-lt word h in
    elim (Bool-cases (leb b (word - b))) [
      | inl low ↦ omega (arith, t, small, leb→le b (word - b) low)
      | inr high ↦
          let less : b ≤ word = omega arith in
          let over : word - b < b = ground arith in
          omega (arith, t, mod-eq-sub-mod less, mod-eq_of_lt over)
    ]

abbrev pub draws : List ℕ → List Draw
draws [] = []
draws (v ∷ vs) = bits v ∷ draws vs

sample_first :
    (b v : ℕ) (rejected : List ℕ) (more : List Draw)
    → All (λ x. x < threshold b) rejected
    → threshold b ≤ v
    → sample b (draws rejected ++ bits v ∷ more) ≡ result (v % b)
unfolding sample
sample_first b v [] more a k = ground arith
sample_first b v (x ∷ rejected) more a k = ground (arith, sample_first b v rejected more a.1 k)

-- For a bound above 0 and a result that is asked for, draws below the threshold are passed over,
-- and the first that is not below it gives the result, which is below the bound, whatever follows.
pub uniform_first :
    (parameter b v : ℕ) (rejected : List ℕ) (more : List Draw)
    → 0 < b
    → All (λ x. x < threshold b) rejected
    → threshold b ≤ v
    → (uniform parameter b true (draws rejected ++ bits v ∷ more) ≡ result (v % b)) × (v % b < b)
unfolding uniform
uniform_first parameter b v rejected more h a k =
    (ground (arith, sample_first b v rejected more a k), mod-lt v h)
