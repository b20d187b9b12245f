-- ===== src/Installer/Number/Decimal.antt =====
-- `parse_uint` of pkgs/installer/util.c on texts of digits.
use minidarwin.Prelude.{
  ℕ, ◌+◌, ◌-◌, ◌*◌, ◌%◌, ◌<◌, ◌≤◌, ◌≡◌, refl, true, false, some, [], ◌∷◌, Bytes, All, arith, leb,
  Bool, none, Option, if◌then◌else◌, ◌==◌, Bool-cases, inl, inr,
}
use minidarwin.Installer.Result.{ok, err, invalid_integer}
use minidarwin.Installer.Number.{
  u64_mod, digit_value, is_space, Scan, scan_digits, skip_spaces, skip_prefix, finish,
  unsigned_part, signed_part, whole, strtoull, parse_uint,
}

finish-lt :
    (start : Bytes) (n : Bool) (s : Scan) (v : ℕ) (rest : Bytes)
    → finish start n s ≡ some (v, rest)
    → v < u64_mod
unfolding finish
finish-lt start n s v rest h = ground arith

signed_part-lt :
    (base : ℕ) (start s : Bytes) (v : ℕ) (rest : Bytes)
    → signed_part base start s ≡ some (v, rest)
    → v < u64_mod
unfolding signed_part unsigned_part
signed_part-lt base start [] v rest h = ground arith
signed_part-lt base start (c ∷ s) v rest h = elim (Bool-cases (c == b'-')) [
  | inl a ↦ finish-lt start true _ v rest (rw (a, signed_part) at h)
  | inr a ↦ elim (Bool-cases (c == b'+')) [
    | inl b ↦ finish-lt start false _ v rest (rw (a, b, signed_part) at h)
    | inr b ↦ finish-lt start false _ v rest (rw (a, b, signed_part) at h)
  ]
]

whole-eq-ok : (o : Option (ℕ × Bytes)) (v : ℕ) → whole o ≡ ok v → o ≡ some (v, [])
unfolding whole
whole-eq-ok none v h = cc
whole-eq-ok (some (u, [])) v h = ground arith
whole-eq-ok (some (u, c ∷ e)) v h = cc

parse_uint-whole :
    (s : Bytes) (base v : ℕ) → parse_uint s base ≡ ok v → whole (strtoull base s) ≡ ok v
unfolding parse_uint
parse_uint-whole s base v h = ground arith

-- Every number that parse_uint returns is below 2 to the 64.
pub parse_uint-lt : (s : Bytes) (base v : ℕ) → parse_uint s base ≡ ok v → v < u64_mod
parse_uint-lt s base v h =
    signed_part-lt base s (skip_spaces s) v []
      (unfold strtoull in whole-eq-ok (strtoull base s) v (parse_uint-whole s base v h))

-- The value of a text of digits, from the value of what stands before it.
abbrev pub value_onto : ℕ → ℕ → Bytes → ℕ
value_onto base v [] = v
value_onto base v (c ∷ s) = value_onto base (v * base + digit_value c) s

abbrev pub AreDigits : ℕ → Bytes → Type 0
AreDigits base s = All (λ c. digit_value c < base) s

scan_digits-value :
    (base v : ℕ) (any : Bool) (c : ℕ) (s : Bytes)
    → AreDigits base (c ∷ s)
    → scan_digits base v any (c ∷ s)
      ≡ record { value = value_onto base v (c ∷ s); any = true; rest = [] }
unfolding scan_digits
scan_digits-value base v any c [] h = ground arith
scan_digits-value base v any c (d ∷ s) h =
    ground (arith, scan_digits-value base (v * base + digit_value c) true d s h.1)

digit_start :
    (c : ℕ)
    → digit_value c < 36
    → (is_space c ≡ false) × ((c == b'-') ≡ false) × ((c == b'+') ≡ false) × ((c == 32) ≡ false)
unfolding digit_value is_space
digit_start c h = ground arith

skip_prefix-small : (base : ℕ) (s : Bytes) → base ≤ 10 → skip_prefix base s ≡ s
unfolding skip_prefix
skip_prefix-small base [] h = refl
skip_prefix-small base (z ∷ []) h = refl
skip_prefix-small base (z ∷ x ∷ []) h = refl
skip_prefix-small base (z ∷ x ∷ d ∷ s) h = let e : (base == 16) ≡ false = ground arith in rw e

strtoull-digits :
    (base c : ℕ) (s : Bytes)
    → base ≤ 10
    → AreDigits base (c ∷ s)
    → strtoull base (c ∷ s)
      ≡ finish (c ∷ s) false (record { value = value_onto base 0 (c ∷ s); any = true; rest = [] })
unfolding strtoull skip_spaces signed_part unsigned_part
strtoull-digits base c s b h =
    let (sp, minus, plus, _) = digit_start c (omega arith) in
    rw (sp, minus, plus, skip_prefix-small base (c ∷ s) b, scan_digits-value base 0 false c s h)

-- In a base of at most 10, a text of digits is read as its value if that is below 2 to the 64, and
-- refused otherwise.
pub parse_uint-digits :
    (base c : ℕ) (s : Bytes)
    → base ≤ 10
    → AreDigits base (c ∷ s)
    → parse_uint (c ∷ s) base ≡ (
        if leb u64_mod (value_onto base 0 (c ∷ s))
        then err invalid_integer
        else ok (value_onto base 0 (c ∷ s)))
unfolding parse_uint whole finish
parse_uint-digits base c s b h =
    let (_, minus, plus, space) = digit_start c (omega arith) in
    rw (minus, plus, space, strtoull-digits base c s b h) (ground arith)

-- In a base of at most 10, a tab, a minus sign and digits of a value below 2 to the 64 are
-- accepted, and read as the negated value modulo 2 to the 64.
pub parse_uint_tab_minus :
    (base c : ℕ) (s : Bytes)
    → base ≤ 10
    → AreDigits base (c ∷ s)
    → value_onto base 0 (c ∷ s) < u64_mod
    → parse_uint (9 ∷ b'-' ∷ c ∷ s) base ≡ ok ((u64_mod - value_onto base 0 (c ∷ s)) % u64_mod)
unfolding parse_uint strtoull skip_spaces is_space signed_part unsigned_part finish whole
parse_uint_tab_minus base c s b h small =
    let e : leb u64_mod (value_onto base 0 (c ∷ s)) ≡ false = ground arith in
    rw (skip_prefix-small base (c ∷ s) b, scan_digits-value base 0 false c s h, e)
