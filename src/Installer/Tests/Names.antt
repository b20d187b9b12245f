-- ===== src/Installer/Tests/Names.antt =====
-- Identifiers and references of pkgs/installer/package.c.
use minidarwin.Installer.Number.{
  digit_value, finish, is_space, parse_uint, scan_digits, signed_part, skip_prefix, skip_spaces,
  strtoull, unsigned_part, whole,
}
use minidarwin.Prelude.{◌≡◌, arith, refl, false, ◌∷◌, codes, get_or, ap}
use minidarwin.Installer.Result.{ok}
use minidarwin.Installer.Paths.{
  path_normalize, check_component, has_bad_character, normalize_body, normalize_onto, skipped,
  split_slash, str_eq,
}
use minidarwin.Installer.Paths.Fixed.{path_normalize-IsNormal}
use minidarwin.Installer.Package.References.{embedded_reference, percent_decode}
use minidarwin.Installer.Package.References.Escaped.{escape, embedded_reference-escape}

normalized : path_normalize (codes "A b.pkg") false ≡ ok (codes "A b.pkg")
unfolding path_normalize normalize_body normalize_onto split_slash skipped str_eq check_component
    has_bad_character
normalized = refl

embedded_reference-escape_example :
    embedded_reference (b'#' ∷ escape (codes "A b.pkg")) ≡ ok (codes "A b.pkg")
embedded_reference-escape_example =
    embedded_reference-escape (codes "A b.pkg")
      (path_normalize-IsNormal (codes "A b.pkg") false (codes "A b.pkg") normalized)
      (λ e. let h : 65 ≡ 97 = ap (λ s. get_or s 0 97) e in omega arith) (omega arith)

-- A space as it is written in the packages of Apple.
space_run : embedded_reference (codes "#A%20b.pkg") ≡ ok (codes "A b.pkg")
unfolding embedded_reference percent_decode parse_uint whole strtoull signed_part skip_spaces
    is_space unsigned_part finish scan_digits skip_prefix digit_value path_normalize normalize_body
    normalize_onto split_slash skipped str_eq check_component has_bad_character
space_run = refl
