-- ===== src/Installer/Package/Identifier.antt =====
-- `check_identifier` of pkgs/installer/package.c.
use minidarwin.Prelude.{
  ℕ, ◌≤◌, ◌≡◌, ◌≢◌, ◌↔◌, ◌⊎◌, refl, Bool, true, not, ◌&&◌, ◌||◌, [], ◌∷◌, Bytes, All, All-map,
  length, ltb, leb, ◌==◌, arith,
}
use minidarwin.Installer.Result.{invalid_identifier, Result, ok, ◌>>◌, die_if}
use minidarwin.Installer.Paths.{is_empty, str_eq, dot, dot_dot}
use minidarwin.Installer.Paths.Prefix.{str_eq_iff}
use minidarwin.Installer.Paths.Normal.{IsName}

unfoldable pub is_identifier_byte : ℕ → Bool
is_identifier_byte c =
    (((leb b'a' c && leb c b'z') || (leb b'A' c && leb c b'Z')) || (leb b'0' c && leb c b'9'))
    || (c == b'.' || c == b'-' || c == b'_')

unfoldable pub all_identifier : Bytes → Bool
all_identifier [] = true
all_identifier (c ∷ s) = is_identifier_byte c && all_identifier s

unfoldable pub check_identifier : Bytes → Result (Unit {0})
check_identifier s = do
  die_if (is_empty s || ltb 200 (length s) || str_eq s dot || str_eq s dot_dot) invalid_identifier
  die_if (not (all_identifier s)) invalid_identifier

-- A letter, a digit, '.', '-' or '_'.
abbrev pub IsIdentifierByte : ℕ → Type 0
IsIdentifierByte c =
    ((b'a' ≤ c) × (c ≤ b'z'))
    ⊎ ((b'A' ≤ c) × (c ≤ b'Z'))
    ⊎ ((b'0' ≤ c) × (c ≤ b'9'))
    ⊎ (c ≡ b'.')
    ⊎ (c ≡ b'-')
    ⊎ (c ≡ b'_')

pub record IsIdentifier (s : Bytes) : Type 0 where
  pub not_empty : s ≢ []
  pub short : length s ≤ 200
  pub not_dot : s ≢ dot
  pub not_dot_dot : s ≢ dot_dot
  pub bytes : All IsIdentifierByte s

byte_iff : (c : ℕ) → (is_identifier_byte c ≡ true) ↔ IsIdentifierByte c
unfolding is_identifier_byte
byte_iff c = ground arith

bytes_iff : (s : Bytes) → (all_identifier s ≡ true) ↔ All IsIdentifierByte s
unfolding all_identifier
bytes_iff [] = (λ h. tt, λ h. refl)
bytes_iff (c ∷ s) = (
  λ h. ((byte_iff c).0 (ground arith), (bytes_iff s).0 (ground arith)),
  λ h. let a = (byte_iff c).1 h.0 in let b = (bytes_iff s).1 h.1 in ground arith,
)

identifier_tests :
    (s : Bytes)
    → (check_identifier s ≡ ok tt)
      ↔ ((s ≢ []) × (length s ≤ 200) × (s ≢ dot) × (s ≢ dot_dot) × (all_identifier s ≡ true))
unfolding check_identifier
identifier_tests [] = ground arith
identifier_tests (c ∷ s) = ground (arith, str_eq_iff (c ∷ s) dot, str_eq_iff (c ∷ s) dot_dot)

-- check_identifier accepts exactly the texts of 1 to 200 letters, digits, dots, dashes and
-- underscores that are neither "." nor "..".
pub check_identifier_iff : (s : Bytes) → (check_identifier s ≡ ok tt) ↔ IsIdentifier s
check_identifier_iff s = (
  λ h.
      let (a, b, c, d, e) = (identifier_tests s).0 h in
      record { not_empty = a; short = b; not_dot = c; not_dot_dot = d; bytes = (bytes_iff s).0 e },
  λ h.
      (identifier_tests s).1
        (h.not_empty, h.short, h.not_dot, h.not_dot_dot, (bytes_iff s).1 h.bytes),
)

-- An identifier can stand in a path as one component.
pub IsIdentifier-IsName : (s : Bytes) → IsIdentifier s → IsName s
IsIdentifier-IsName s h = record {
  not_empty = h.not_empty;
  not_dot = h.not_dot;
  not_dot_dot = h.not_dot_dot;
  short = omega (arith, h.short);
  printable = All-map IsIdentifierByte _ (λ c b. (ground arith, ground arith)) s h.bytes;
  no_slash = All-map IsIdentifierByte _ (λ c b. ground arith) s h.bytes;
}
