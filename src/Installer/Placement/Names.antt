-- ===== src/Installer/Placement/Names.antt =====
-- The last name of a path and its parent, for pkgs/installer.
use mathlib.Core.Path.{subst}
use minidarwin.Prelude.{
  ℕ, zero, suc, if◌then◌else◌, ◌≡◌, refl, ap, ◌⊎◌, inl, inr, Option, none, some, [], ◌∷◌, ◌++◌,
  Bytes, take, drop, ◌==◌, arith, Bool-cases, Option-cases,
}
use minidarwin.Installer.Paths.{last_slash, path_parent}
use minidarwin.Installer.Paths.Components.{NoSlash}
use minidarwin.Installer.Placement.{base_name}

-- A path is one name, or a name behind a slash, and then a parent: what stands before the slash,
-- which is "/" where this is nothing.
abbrev pub HasName : Bytes → Bytes → Bytes → Type 0
HasName path above name =
    NoSlash name
    × (((path ≡ name) × (above ≡ []))
        ⊎ ((front : Bytes) × (path ≡ front ++ (b'/' ∷ name))
            × ((above ≡ front) ⊎ ((front ≡ []) × (above ≡ b'/' ∷ [])))))

-- What the place of the last slash says of a path.
abbrev Parts : Bytes → Option ℕ → Type 0
Parts path none = NoSlash path
Parts path (some i) =
    NoSlash (drop (suc i) path) × (path ≡ take i path ++ (b'/' ∷ drop (suc i) path))

last_slash-Parts : (path : Bytes) → Parts path (last_slash path)
unfolding last_slash
last_slash-Parts [] = tt
last_slash-Parts (c ∷ s) = elim (Option-cases (last_slash s)) [
  | inr (i, e) ↦
      let ih : Parts s (some i) = subst (Parts s) e (last_slash-Parts s) in
      rw (e, Parts) (ih.0, ap (λ r. c ∷ r) ih.1)
  | inl e ↦
      let ih : Parts s none = subst (Parts s) e (last_slash-Parts s) in
      elim (Bool-cases (c == b'/')) [
        | inl slash ↦ rw (e, slash, Parts) (ih, ground arith)
        | inr other ↦ rw (e, other, Parts) (ground arith, ih)
      ]
]

front_cases :
    (i : ℕ) (path : Bytes)
    → let above = if i == 0 then b'/' ∷ [] else take i path in
      (above ≡ take i path) ⊎ ((take i path ≡ []) × (above ≡ b'/' ∷ []))
front_cases zero path = inr (refl, refl)
front_cases (suc i) path = inl (ground arith)

pub base_name-HasName : (path : Bytes) → HasName path (path_parent path) (base_name path)
unfolding base_name path_parent
base_name-HasName path = elim (Option-cases (last_slash path)) [
  | inl e ↦
      let parts : Parts path none = subst (Parts path) e (last_slash-Parts path) in
      rw (base_name, path_parent, e) (parts, inl (refl, refl))
  | inr (i, e) ↦
      let parts : Parts path (some i) = subst (Parts path) e (last_slash-Parts path) in
      rw (base_name, path_parent, e) (parts.0, inr (take i path, parts.1, front_cases i path))
]
