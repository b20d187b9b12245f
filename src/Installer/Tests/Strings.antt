-- ===== src/Installer/Tests/Strings.antt =====
-- Paths and numbers.
use minidarwin.Prelude.{◌≡◌, ◌↔◌, refl, false, [], ◌∷◌, ◌++◌, Bytes, arith}
use minidarwin.Installer.Result.{ok}
use minidarwin.Installer.Paths.{
  str_eq, path_normalize, normalize_body, normalize_onto, split_slash, append_component, skipped,
  check_component, has_bad_character, symlink_check_lexical, starts_with_slash,
}
use minidarwin.Installer.Paths.Components.{join}
use minidarwin.Installer.Paths.Fixed.{NormalizesTo, path_normalize_iff}
use minidarwin.Installer.Paths.Lexical.{descend, enclosing, verdict, symlink_check_lexical_lem}
use minidarwin.Installer.Number.{digit_value, parse_uint}
use minidarwin.Installer.Number.Decimal.{parse_uint-digits, parse_uint_tab_minus}

-- "./usr//bin", "usr/bin", "usr"
abbrev untidy : Bytes
untidy = b'.' ∷ b'/' ∷ b'u' ∷ b's' ∷ b'r' ∷ b'/' ∷ b'/' ∷ b'b' ∷ b'i' ∷ b'n' ∷ []

abbrev usr : Bytes
usr = b'u' ∷ b's' ∷ b'r' ∷ []

abbrev bin : Bytes
bin = b'b' ∷ b'i' ∷ b'n' ∷ []

abbrev tidy : Bytes
tidy = usr ++ (b'/' ∷ bin)

untidy_runs : path_normalize untidy false ≡ ok tidy
unfolding path_normalize normalize_body normalize_onto split_slash append_component skipped
    check_component has_bad_character str_eq
untidy_runs = refl

path_normalize_iff_example :
    (path_normalize untidy false ≡ ok tidy)
    ↔ ((starts_with_slash untidy ≡ false) × NormalizesTo untidy tidy)
path_normalize_iff_example = path_normalize_iff untidy tidy

-- "usr/bin" as a link to "../bin"
symlink_check_lexical_lem_example :
    symlink_check_lexical (join (usr ∷ bin ∷ [])) (b'.' ∷ b'.' ∷ b'/' ∷ bin)
    ≡ verdict (descend (enclosing [] usr (bin ∷ [])) (split_slash (b'.' ∷ b'.' ∷ b'/' ∷ bin)))
symlink_check_lexical_lem_example =
    symlink_check_lexical_lem usr (bin ∷ []) (b'.' ∷ b'.' ∷ b'/' ∷ bin) (ground arith)

-- "42" is 42, and 0o42 is 34
abbrev forty_two : Bytes
forty_two = b'4' ∷ b'2' ∷ []

parse_uint-digits_example : parse_uint forty_two 8 ≡ ok 34
unfolding digit_value
parse_uint-digits_example = parse_uint-digits 8 b'4' (b'2' ∷ []) (omega arith) (ground arith)

-- a tab and "-1"
parse_uint_tab_minus_example : parse_uint (9 ∷ b'-' ∷ b'1' ∷ []) 10 ≡ ok 18446744073709551615
unfolding digit_value
parse_uint_tab_minus_example =
    parse_uint_tab_minus 10 b'1' [] (omega arith) (ground arith) (omega arith)
