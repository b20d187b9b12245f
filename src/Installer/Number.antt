-- ===== src/Installer/Number.antt =====
-- `parse_uint` of pkgs/installer/util.c over C's `strtoull`, for the bases 8, 10 and 16 that the
-- program uses.
pub mod Decimal
use minidarwin.Prelude.{
  ℕ, zero, suc, ◌+◌, ◌-◌, ◌*◌, ◌%◌, ◌^◌, ◌≡◌, Bool, true, false, not, ◌&&◌, ◌||◌, Option, none,
  some, List, [], ◌∷◌, Bytes, ltb, leb, ◌==◌, if◌then◌else◌,
}
use minidarwin.Installer.Result.{
  Fault, missing_integer, invalid_integer, Result, ok, err, ◌>>=◌, ◌>>◌, die_if,
}
use minidarwin.Installer.Paths.{is_empty}

-- ULLONG_MAX + 1
abbrev pub u64_mod : ℕ
u64_mod = 2 ^ 64

-- the value of a digit, or 36 for no digit
unfoldable pub digit_value : ℕ → ℕ
digit_value c =
    if leb b'0' c && leb c b'9'
    then c - b'0'
    else if leb b'a' c && leb c b'z'
    then c - b'a' + 10
    else if leb b'A' c && leb c b'Z'
    then c - b'A' + 10
    else 36

unfoldable pub is_space : ℕ → Bool
is_space c = c == 32 || (leb 9 c && leb c 13)

-- what `strtoull` has read: the value, without a bound; whether it read a digit; what is left
pub record Scan : Type 0 where
  pub value : ℕ
  pub any : Bool
  pub rest : Bytes

unfoldable pub scan_digits : ℕ → ℕ → Bool → Bytes → Scan
scan_digits base v any [] = record { value = v; any = any; rest = [] }
scan_digits base v any (c ∷ s) =
    let more = scan_digits base (v * base + digit_value c) true s in
    if ltb (digit_value c) base then more else record { value = v; any = any; rest = c ∷ s }

unfoldable pub skip_spaces : Bytes → Bytes
skip_spaces [] = []
skip_spaces (c ∷ s) = let rest = skip_spaces s in if is_space c then rest else c ∷ s

-- "0x" before a hexadecimal digit is passed over in base 16
unfoldable pub skip_prefix : ℕ → Bytes → Bytes
skip_prefix base (z ∷ x ∷ d ∷ s) =
    if base == 16 && (z == b'0' && ((x == b'x' || x == b'X') && ltb (digit_value d) 16))
    then d ∷ s
    else z ∷ x ∷ d ∷ s
skip_prefix base s = s

-- `strtoull(s, &end, base)`: `none` stands for ERANGE; else the value and the text at `end`. With no
-- digit `end` is the start of the text.
unfoldable pub finish : Bytes → Bool → Scan → Option (ℕ × Bytes)
finish start negative scan =
    if not scan.any
    then some (0, start)
    else if leb u64_mod scan.value
    then none
    else some ((if negative then (u64_mod - scan.value) % u64_mod else scan.value), scan.rest)

unfoldable pub unsigned_part : ℕ → Bytes → Bool → Bytes → Option (ℕ × Bytes)
unsigned_part base start negative s =
    finish start negative (scan_digits base 0 false (skip_prefix base s))

-- after the spaces: an optional sign
unfoldable pub signed_part : ℕ → Bytes → Bytes → Option (ℕ × Bytes)
signed_part base start [] = some (0, start)
signed_part base start (c ∷ s) =
    if c == b'-'
    then unsigned_part base start true s
    else if c == b'+'
    then unsigned_part base start false s
    else unsigned_part base start false (c ∷ s)

unfoldable pub strtoull : ℕ → Bytes → Option (ℕ × Bytes)
strtoull base start = signed_part base start (skip_spaces start)

-- The test of `parse_uint` before it calls `strtoull`.
abbrev pub refused_start : Bytes → Bool
refused_start [] = true
refused_start (c ∷ s) = c == b'-' || (c == b'+' || c == 32)

-- errno || *end
unfoldable pub whole : Option (ℕ × Bytes) → Result ℕ
whole none = err invalid_integer
whole (some (v, end)) = if is_empty end then ok v else err invalid_integer

unfoldable pub parse_uint : Bytes → ℕ → Result ℕ
parse_uint s base = if refused_start s then err missing_integer else whole (strtoull base s)
