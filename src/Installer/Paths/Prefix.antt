-- ===== src/Installer/Paths/Prefix.antt =====
-- `path_has_prefix` of pkgs/installer/util.c.
use minidarwin.Prelude.{◌≡◌, ◌↔◌, ◌⊎◌, inl, inr, refl, true, [], ◌∷◌, ◌++◌, Bytes, arith}
use minidarwin.Installer.Paths.{path_has_prefix, str_eq}

pub str_eq_iff : (s t : Bytes) → (str_eq s t ≡ true) ↔ (s ≡ t)
unfolding str_eq
str_eq_iff (c ∷ s) (d ∷ t) = ground (arith, str_eq_iff s t)
str_eq_iff _ _ = ground arith

-- PATH is PREFIX or lies beneath it.
abbrev pub Beneath : Bytes → Bytes → Type 0
Beneath path prefix = (path ≡ prefix) ⊎ ((rest : Bytes) × (path ≡ prefix ++ (b'/' ∷ rest)))

prefix-Beneath : (path prefix : Bytes) → path_has_prefix path prefix ≡ true → Beneath path prefix
unfolding path_has_prefix
prefix-Beneath [] [] h = inl refl
prefix-Beneath (c ∷ path) [] h = inr (path, ground arith)
prefix-Beneath [] (d ∷ prefix) h = cc
prefix-Beneath (c ∷ path) (d ∷ prefix) h =
    let e : c ≡ d = ground arith in
    elim (prefix-Beneath path prefix (ground arith)) [
      | inl same ↦ inl (cc (e, same))
      | inr (rest, below) ↦ inr (rest, cc (e, below))
    ]

prefix_self : (path : Bytes) → path_has_prefix path path ≡ true
unfolding path_has_prefix
prefix_self [] = refl
prefix_self (c ∷ path) = ground (arith, prefix_self path)

prefix-append : (prefix rest : Bytes) → path_has_prefix (prefix ++ (b'/' ∷ rest)) prefix ≡ true
unfolding path_has_prefix
prefix-append [] rest = refl
prefix-append (c ∷ prefix) rest = ground (arith, prefix-append prefix rest)

-- The prefix test holds exactly for the prefix itself and for what lies beneath it behind a slash.
pub path_has_prefix_iff :
    (path prefix : Bytes) → (path_has_prefix path prefix ≡ true) ↔ Beneath path prefix
path_has_prefix_iff path prefix = (
  prefix-Beneath path prefix,
  λ b. elim b [
    | inl same ↦ rw same (prefix_self prefix)
    | inr (rest, below) ↦ rw below (prefix-append prefix rest)
  ],
)
