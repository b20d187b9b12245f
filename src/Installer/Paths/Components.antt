-- ===== src/Installer/Paths/Components.antt =====
-- The pieces of a path between its slashes, for pkgs/installer/util.c.
use mathlib.Core.List.{append_assoc}
use minidarwin.Prelude.{
  ℕ, ◌≡◌, ◌≢◌, refl, ap, ◌∙◌, List, [], ◌∷◌, ◌++◌, Bytes, All, arith, ◌==◌, inl, inr, Bool-cases,
}
use minidarwin.Installer.Paths.{split_slash, cons_head, append_component}

abbrev pub join : List Bytes → Bytes
join [] = []
join (n ∷ []) = n
join (n ∷ m ∷ ns) = n ++ (b'/' ∷ join (m ∷ ns))

abbrev pub NoSlash : Bytes → Type 0
NoSlash n = All (λ c. c ≢ b'/') n

split_piece : (n : Bytes) → NoSlash n → split_slash n ≡ n ∷ []
unfolding split_slash
split_piece [] h = refl
split_piece (c ∷ n) h = ground (arith, split_piece n)

split_first : (n s : Bytes) → NoSlash n → split_slash (n ++ (b'/' ∷ s)) ≡ n ∷ split_slash s
unfolding split_slash
split_first [] s h = refl
split_first (c ∷ n) s h = ground (arith, split_first n s)

-- Splitting a join gives its pieces back.
pub split_slash-join :
    (n : Bytes) (ns : List Bytes) → All NoSlash (n ∷ ns) → split_slash (join (n ∷ ns)) ≡ n ∷ ns
split_slash-join n [] h = split_piece n h.0
split_slash-join n (m ∷ ns) h =
    split_first n (join (m ∷ ns)) h.0 ∙ ap (λ r. n ∷ r) (split_slash-join m ns h.1)

cons_head-NoSlash :
    (c : ℕ) (ns : List Bytes) → c ≢ b'/' → All NoSlash ns → All NoSlash (cons_head c ns)
cons_head-NoSlash c [] h a = ((h, tt), tt)
cons_head-NoSlash c (n ∷ ns) h a = ((h, a.0), a.1)

pub split_slash-NoSlash : (s : Bytes) → All NoSlash (split_slash s)
unfolding split_slash
split_slash-NoSlash [] = (tt, tt)
split_slash-NoSlash (c ∷ s) = elim (Bool-cases (c == b'/')) [
  | inl e ↦ rw e (tt, split_slash-NoSlash s)
  | inr e ↦ rw e (cons_head-NoSlash c (split_slash s) (ground arith) (split_slash-NoSlash s))
]

-- Appending components one at a time, as the code does.
abbrev pub append_all : Bytes → List Bytes → Bytes
append_all out [] = out
append_all out (n ∷ ns) = append_all (append_component out n) ns

join-merge :
    (a n : Bytes) (ns : List Bytes) → join ((a ++ (b'/' ∷ n)) ∷ ns) ≡ a ++ (b'/' ∷ join (n ∷ ns))
join-merge a n [] = refl
join-merge a n (m ∷ ns) = append_assoc a (b'/' ∷ n) (b'/' ∷ join (m ∷ ns))

append_all-cons :
    (ns : List Bytes) (c : ℕ) (out : Bytes) → append_all (c ∷ out) ns ≡ join ((c ∷ out) ∷ ns)
append_all-cons [] c out = refl
append_all-cons (n ∷ ns) c out =
    append_all-cons ns c (out ++ (b'/' ∷ n)) ∙ join-merge (c ∷ out) n ns

pub append_all-join : (ns : List Bytes) → All (λ n. n ≢ []) ns → append_all [] ns ≡ join ns
append_all-join [] h = refl
append_all-join ([] ∷ ns) h = absurd (h.0 refl)
append_all-join ((c ∷ n) ∷ ns) h = append_all-cons ns c n
