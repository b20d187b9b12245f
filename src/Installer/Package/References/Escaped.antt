-- ===== src/Installer/Package/References/Escaped.antt =====
-- The percent escapes that `embedded_reference` of pkgs/installer/package.c decodes.
use minidarwin.Prelude.{
  ℕ, ◌+◌, ◌*◌, ◌/◌, ◌%◌, ◌≤◌, ◌<◌, ◌≡◌, ◌≢◌, refl, false, [], ◌∷◌, Bytes, All, arith, ap, ◌∙◌,
}
use minidarwin.Installer.Result.{ok}
use minidarwin.Installer.Paths.Fixed.{IsNormal, IsNormal-path_normalize}
use minidarwin.Installer.Number.{
  digit_value, is_space, scan_digits, skip_spaces, skip_prefix, finish, unsigned_part, signed_part,
  strtoull, whole, parse_uint,
}
use minidarwin.Installer.Decoding.{hex_digit}
use minidarwin.Installer.Package.References.{percent_decode, embedded_reference}

-- Every byte as %XX.
abbrev pub escape : Bytes → Bytes
escape [] = []
escape (c ∷ s) = b'%' ∷ hex_digit (c / 16) ∷ hex_digit (c % 16) ∷ escape s

hex_digit-value :
    (n : ℕ)
    → n < 16
    → (digit_value (hex_digit n) ≡ n)
      × (is_space (hex_digit n) ≡ false)
      × (48 ≤ hex_digit n)
      × (hex_digit n < 120)
unfolding digit_value hex_digit is_space
hex_digit-value n h = ground arith

two_digits :
    (a b x y : ℕ)
    → (digit_value a ≡ x) × (is_space a ≡ false) × (48 ≤ a) × (a < 120)
    → (digit_value b ≡ y) × (is_space b ≡ false) × (48 ≤ b) × (b < 120)
    → x < 16
    → y < 16
    → parse_uint (a ∷ b ∷ []) 16 ≡ ok (x * 16 + y)
unfolding parse_uint strtoull skip_spaces signed_part unsigned_part skip_prefix scan_digits finish
    whole
two_digits a b x y h k p q = ground arith

escaped_byte :
    (c : ℕ) → c < 256 → parse_uint (hex_digit (c / 16) ∷ hex_digit (c % 16) ∷ []) 16 ≡ ok c
escaped_byte c h =
    let high : c / 16 < 16 = omega arith in
    let low : c % 16 < 16 = omega arith in
    let sum : c / 16 * 16 + c % 16 ≡ c = omega arith in
    two_digits (hex_digit (c / 16)) (hex_digit (c % 16)) (c / 16) (c % 16)
      (hex_digit-value (c / 16) high) (hex_digit-value (c % 16) low) high low
    ∙ ap (λ v. ok v) sum

percent_decode-escape :
    (s : Bytes) → All (λ c. (0 < c) × (c < 256)) s → percent_decode (escape s) ≡ ok s
unfolding percent_decode
percent_decode-escape [] h = refl
percent_decode-escape (c ∷ s) h =
    let byte = escaped_byte c (h.0.1) in let rest = percent_decode-escape s h.1 in ground arith

-- For a normalized path that is not empty and consists of bytes, a reference that writes every
-- byte as a percent escape is decoded to the path.
pub embedded_reference-escape :
    (path : Bytes)
    → IsNormal path
    → path ≢ []
    → All (λ c. (0 < c) × (c < 256)) path
    → embedded_reference (b'#' ∷ escape path) ≡ ok path
unfolding embedded_reference
embedded_reference-escape path normal full bytes =
    let decoded = percent_decode-escape path bytes in
    let same = IsNormal-path_normalize path normal in ground arith
