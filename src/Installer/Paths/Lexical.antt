-- ===== src/Installer/Paths/Lexical.antt =====
-- `symlink_check_lexical` of pkgs/installer/util.c, and the directories that a target names one
-- after the other.
use native.Mathlib.Numerals.{add-one, sub-one}
use minidarwin.Prelude.{
  ℕ, suc, ◌+◌, ◌≡◌, refl, false, Option, none, some, List, [], ◌∷◌, ◌++◌, Bytes, All, length, arith,
  if◌then◌else◌, ◌==◌, Bool-cases, inl, inr,
}
use minidarwin.Installer.Result.{Result, ok, err, symlink_escape, bad_symlink}
use minidarwin.Installer.Paths.{
  count_slashes, lexical_walk, symlink_check_lexical, split_slash, is_empty, str_eq, dot, dot_dot,
  starts_with_slash,
}
use minidarwin.Installer.Paths.Components.{join, NoSlash}

-- `cd` by each piece in turn, from a stack of directories with the innermost first. `none`: a ".."
-- has left the root.
abbrev pub descend : List Bytes → List Bytes → Option (List Bytes)
descend stack [] = some stack
descend stack (n ∷ ns) =
    if is_empty n
    then descend stack ns
    else if str_eq n dot_dot
    then elim stack [ [] ↦ none | d ∷ ds ↦ descend ds ns ]
    else if str_eq n dot
    then descend stack ns
    else descend (n ∷ stack) ns

-- the directories that hold the last of the names, the innermost first
abbrev pub enclosing : List Bytes → Bytes → List Bytes → List Bytes
enclosing stack n [] = stack
enclosing stack n (m ∷ ns) = enclosing (n ∷ stack) m ns

abbrev pub verdict : Option (List Bytes) → Result (Unit {0})
verdict none = err symlink_escape
verdict (some stack) = ok tt

step_over :
    (c : ℕ) (m : Bytes) (ns stack : List Bytes)
    → str_eq (c ∷ m) dot_dot ≡ false
    → lexical_walk (length stack) ns ≡ verdict (descend stack ns)
    → lexical_walk (suc (length stack)) ns ≡ verdict (descend ((c ∷ m) ∷ stack) ns)
    → lexical_walk (length stack) ((c ∷ m) ∷ ns) ≡ verdict (descend stack ((c ∷ m) ∷ ns))
unfolding lexical_walk
step_over c m ns stack e same down = elim (Bool-cases (str_eq (c ∷ m) dot)) [
  | inl d ↦ rw (e, d) same
  | inr d ↦ rw (e, d, add-one) down
]

lexical_walk-descend :
    (ns stack : List Bytes) → lexical_walk (length stack) ns ≡ verdict (descend stack ns)
unfolding lexical_walk
lexical_walk-descend [] stack = refl
lexical_walk-descend ([] ∷ ns) stack = lexical_walk-descend ns stack
lexical_walk-descend ((c ∷ m) ∷ ns) [] = elim (Bool-cases (str_eq (c ∷ m) dot_dot)) [
  | inl e ↦ rw e
  | inr e ↦
      step_over c m ns [] e (lexical_walk-descend ns []) (lexical_walk-descend ns ((c ∷ m) ∷ []))
]
lexical_walk-descend ((c ∷ m) ∷ ns) (d ∷ ds) = elim (Bool-cases (str_eq (c ∷ m) dot_dot)) [
  | inl e ↦
      let z : (suc (length ds) == 0) ≡ false = ground arith in
      rw (e, z, sub-one) (lexical_walk-descend ns ds)
  | inr e ↦
      step_over c m ns (d ∷ ds) e (lexical_walk-descend ns (d ∷ ds))
        (lexical_walk-descend ns ((c ∷ m) ∷ d ∷ ds))
]

count_slashes-piece : (n : Bytes) → NoSlash n → count_slashes n ≡ 0
unfolding count_slashes
count_slashes-piece [] h = refl
count_slashes-piece (c ∷ n) h = ground (arith, count_slashes-piece n)

count_slashes-append : (s t : Bytes) → count_slashes (s ++ t) ≡ count_slashes s + count_slashes t
unfolding count_slashes
count_slashes-append [] t = omega arith
count_slashes-append (c ∷ s) t = omega (arith, count_slashes-append s t)

slash_counts : (s : Bytes) → count_slashes (b'/' ∷ s) ≡ 1 + count_slashes s
unfolding count_slashes
slash_counts s = refl

count_slashes-join :
    (n : Bytes) (ns : List Bytes) → All NoSlash (n ∷ ns) → count_slashes (join (n ∷ ns)) ≡ length ns
count_slashes-join n [] h = count_slashes-piece n h.0
count_slashes-join n (m ∷ ns) h = omega (
  arith,
  count_slashes-append n (b'/' ∷ join (m ∷ ns)),
  slash_counts (join (m ∷ ns)),
  count_slashes-piece n h.0,
  count_slashes-join m ns h.1,
)

length-enclosing :
    (stack : List Bytes) (n : Bytes) (ns : List Bytes)
    → length (enclosing stack n ns) ≡ length stack + length ns
length-enclosing stack n [] = omega arith
length-enclosing stack n (m ∷ ns) = omega (arith, length-enclosing (n ∷ stack) m ns)

-- For a link at the path of names without slashes, the check accepts exactly if the target is
-- neither empty nor absolute and following its pieces from the directory of the link never leaves
-- the root.
pub symlink_check_lexical_lem :
    (n : Bytes) (ns : List Bytes) (target : Bytes)
    → All NoSlash (n ∷ ns)
    → symlink_check_lexical (join (n ∷ ns)) target ≡ (
        if is_empty target
        then err bad_symlink
        else if starts_with_slash target
        then err bad_symlink
        else verdict (descend (enclosing [] n ns) (split_slash target)))
unfolding symlink_check_lexical
symlink_check_lexical_lem n ns target h =
    let e : count_slashes (join (n ∷ ns)) ≡ length (enclosing [] n ns) =
      omega (arith, count_slashes-join n ns h, length-enclosing [] n ns) in
    ground (arith, e, lexical_walk-descend (split_slash target) (enclosing [] n ns))
