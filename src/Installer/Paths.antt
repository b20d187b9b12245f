-- ===== src/Installer/Paths.antt =====
-- Paths of pkgs/installer/util.c: `path_join`, `path_parent`, `path_has_prefix`, `path_normalize` and
-- `symlink_check_lexical`. A string is its bytes, without the NUL that ends it.
pub mod Prefix
pub mod Components
pub mod Normal
pub mod Fixed
pub mod Lexical
use minidarwin.Prelude.{
  ℕ, zero, suc, ◌+◌, ◌-◌, ◌≡◌, Bool, true, false, not, ◌&&◌, ◌||◌, Option, none, some, List, [],
  ◌∷◌, ◌++◌, Bytes, length, take, ltb, leb, ◌==◌, if◌then◌else◌,
}
use minidarwin.Installer.Result.{
  Fault, path_too_long, relative_location, absolute_archive_path, unsafe_path, nesting_limit,
  bad_character, bad_symlink, symlink_escape, Result, ok, err, ◌>>=◌, ◌>>◌, die_if,
}

-- Darwin's PATH_MAX and NAME_MAX, and LIMIT_DEPTH of mdpkg.h
abbrev pub path_max : ℕ
path_max = 1024

abbrev pub name_max : ℕ
name_max = 255

abbrev pub limit_depth : ℕ
limit_depth = 128

abbrev pub is_empty : Bytes → Bool
is_empty [] = true
is_empty (c ∷ s) = false

-- !strcmp(s, t)
unfoldable pub str_eq : Bytes → Bytes → Bool
str_eq [] [] = true
str_eq [] (d ∷ t) = false
str_eq (c ∷ s) [] = false
str_eq (c ∷ s) (d ∷ t) = c == d && str_eq s t

-- s[strlen(s) - 1] == '/'
unfoldable pub ends_in_slash : Bytes → Bool
ends_in_slash [] = false
ends_in_slash (c ∷ []) = c == b'/'
ends_in_slash (c ∷ d ∷ s) = ends_in_slash (d ∷ s)

unfoldable pub path_join : Bytes → Bytes → Result Bytes
path_join a b =
    if is_empty a
    then ok b
    else if is_empty b
    then ok a
    else if ltb path_max (length a + length b + 2)
    then err path_too_long
    else ok (a ++ (if ends_in_slash a then b else b'/' ∷ b))

-- the offset of strrchr(s, '/')
unfoldable pub last_slash : Bytes → Option ℕ
last_slash [] = none
last_slash (c ∷ s) = elim (last_slash s) [
  | some i ↦ some (suc i)
  | none ↦ if c == b'/' then some 0 else none
]

unfoldable pub path_parent : Bytes → Bytes
path_parent path = elim (last_slash path) [
  | none ↦ []
  | some i ↦ if i == 0 then b'/' ∷ [] else take i path
]

-- `strncmp` up to the end of the prefix, then the byte of the path that follows
unfoldable pub path_has_prefix : Bytes → Bytes → Bool
path_has_prefix [] [] = true
path_has_prefix (c ∷ path) [] = c == b'/'
path_has_prefix [] (d ∷ prefix) = false
path_has_prefix (c ∷ path) (d ∷ prefix) = c == d && path_has_prefix path prefix

abbrev pub cons_head : ℕ → List Bytes → List Bytes
cons_head c [] = (c ∷ []) ∷ []
cons_head c (n ∷ ns) = (c ∷ n) ∷ ns

-- The pieces between the slashes, as the `strchr` loops step through them.
unfoldable pub split_slash : Bytes → List Bytes
split_slash [] = [] ∷ []
split_slash (c ∷ s) = let rest = split_slash s in if c == b'/' then [] ∷ rest else cons_head c rest

abbrev pub dot : Bytes
dot = b'.' ∷ []

abbrev pub dot_dot : Bytes
dot_dot = b'.' ∷ b'.' ∷ []

-- (unsigned char)s[i] < 32 || s[i] == '\\'
unfoldable pub has_bad_character : Bytes → Bool
has_bad_character [] = false
has_bad_character (c ∷ s) = (ltb c 32 || c == 92) || has_bad_character s

unfoldable pub skipped : Bytes → Bool
skipped n = is_empty n || str_eq n dot

-- out[used++] = '/' where something is there already, then the component
abbrev pub append_component : Bytes → Bytes → Bytes
append_component [] n = n
append_component (c ∷ out) n = (c ∷ out) ++ (b'/' ∷ n)

-- The checks on one component, at the depth that it has.
unfoldable pub check_component : Bytes → ℕ → Result (Unit {0})
check_component n depth = do
  die_if (str_eq n dot_dot || ltb name_max (length n)) unsafe_path
  die_if (ltb limit_depth depth) nesting_limit
  die_if (has_bad_character n) bad_character

-- The loop of `path_normalize`.
unfoldable pub normalize_onto : Bytes → ℕ → List Bytes → Result Bytes
normalize_onto out depth [] = ok out
normalize_onto out depth (n ∷ ns) =
    let stay = normalize_onto out depth ns in
    let go = normalize_onto (append_component out n) (depth + 1) ns in
    if skipped n then stay else (check_component n (depth + 1) >> go)

-- while (*s == '/') s++;
unfoldable pub skip_slashes : Bytes → Bytes
skip_slashes [] = []
skip_slashes (c ∷ s) = let rest = skip_slashes s in if c == b'/' then rest else c ∷ s

abbrev pub starts_with_slash : Bytes → Bool
starts_with_slash [] = false
starts_with_slash (c ∷ s) = c == b'/'

unfoldable pub normalize_body : Bytes → Result Bytes
normalize_body s = do
  out ← normalize_onto [] 0 (split_slash s)
  die_if (leb (path_max - name_max) (length out)) path_too_long
  ok out

unfoldable pub path_normalize : Bytes → Bool → Result Bytes
path_normalize path true = do
  die_if (not (starts_with_slash path)) relative_location
  normalize_body (skip_slashes path)
path_normalize path false = do
  die_if (starts_with_slash path) absolute_archive_path
  normalize_body path

-- depth += *p == '/'
unfoldable pub count_slashes : Bytes → ℕ
count_slashes [] = 0
count_slashes (c ∷ s) = (if c == b'/' then 1 else 0) + count_slashes s

-- The `strtok_r` loop, which passes over empty pieces.
unfoldable pub lexical_walk : ℕ → List Bytes → Result (Unit {0})
lexical_walk depth [] = ok tt
lexical_walk depth (n ∷ ns) =
    let same = lexical_walk depth ns in
    let up = lexical_walk (depth - 1) ns in
    let down = lexical_walk (depth + 1) ns in
    if is_empty n
    then same
    else if str_eq n dot_dot
    then (if depth == 0 then err symlink_escape else up)
    else if str_eq n dot
    then same
    else down

unfoldable pub symlink_check_lexical : Bytes → Bytes → Result (Unit {0})
symlink_check_lexical path target = do
  die_if (is_empty target || starts_with_slash target) bad_symlink
  lexical_walk (count_slashes path) (split_slash target)
