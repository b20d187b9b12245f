-- ===== src/Installer/Paths/Normal.antt =====
-- The loop of `path_normalize` of pkgs/installer/util.c.
use minidarwin.Prelude.{
  ℕ, ◌+◌, ◌≤◌, ◌≡◌, ◌≢◌, ◌↔◌, refl, false, List, [], ◌∷◌, Bytes, All, length, arith, inl, inr,
  Bool-cases, if◌then◌else◌,
}
use minidarwin.Installer.Result.{Result, ok, err, ◌>>◌}
use minidarwin.Installer.Paths.{
  dot, dot_dot, has_bad_character, skipped, append_component, check_component, normalize_onto,
  name_max, limit_depth,
}
use minidarwin.Installer.Paths.Prefix.{str_eq_iff}
use minidarwin.Installer.Paths.Components.{NoSlash, append_all}

-- A component that may stand in a normalized path.
pub record IsName (n : Bytes) : Type 0 where
  pub not_empty : n ≢ []
  pub not_dot : n ≢ dot
  pub not_dot_dot : n ≢ dot_dot
  pub short : length n ≤ name_max
  pub printable : All (λ c. (32 ≤ c) × (c ≢ 92)) n
  pub no_slash : NoSlash n

-- The components that the loop does not pass over.
abbrev pub kept : List Bytes → List Bytes
kept [] = []
kept (n ∷ ns) = if skipped n then kept ns else n ∷ kept ns

bad_character_iff : (n : Bytes) → (has_bad_character n ≡ false) ↔ All (λ c. (32 ≤ c) × (c ≢ 92)) n
unfolding has_bad_character
bad_character_iff [] = (λ h. tt, λ h. refl)
bad_character_iff (c ∷ n) = (
  λ h. ((ground arith, ground arith), (bad_character_iff n).0 (ground arith)),
  λ h. let rest = (bad_character_iff n).1 h.1 in ground arith,
)

skipped-false : (n : Bytes) → (skipped n ≡ false) ↔ ((n ≢ []) × (n ≢ dot))
unfolding skipped
skipped-false [] = ground (arith, str_eq_iff [] dot)
skipped-false (c ∷ n) = ground (arith, str_eq_iff (c ∷ n) dot)

check_component_iff :
    (n : Bytes) (depth : ℕ)
    → (check_component n depth ≡ ok tt) ↔ (
        (n ≢ dot_dot)
        × (length n ≤ name_max)
        × (depth ≤ limit_depth)
        × (has_bad_character n ≡ false))
unfolding check_component
check_component_iff n depth = ground (arith, str_eq_iff n dot_dot)

component-IsName :
    (n : Bytes) (depth : ℕ)
    → NoSlash n
    → skipped n ≡ false
    → check_component n depth ≡ ok tt
    → IsName n
component-IsName n depth s k c =
    let (a, b) = (skipped-false n).0 k in
    let (d, e, _, p) = (check_component_iff n depth).0 c in
    record {
      not_empty = a;
      not_dot = b;
      not_dot_dot = d;
      short = e;
      printable = (bad_character_iff n).0 p;
      no_slash = s;
    }

pub IsName-component :
    (n : Bytes) (depth : ℕ)
    → IsName n
    → depth ≤ limit_depth
    → (skipped n ≡ false) × (check_component n depth ≡ ok tt)
IsName-component n depth h d = (
  (skipped-false n).1 (h.not_empty, h.not_dot),
  (check_component_iff n depth).1 (h.not_dot_dot, h.short, d, (bad_character_iff n).1 h.printable),
)

bind_check :
    (m : Result (Unit {0})) (k : Result Bytes) {r : Bytes}
    → (m >> k) ≡ ok r
    → (m ≡ ok tt) × (k ≡ ok r)
bind_check (ok tt) k h = (refl, h)
bind_check (err e) k h = cc

-- The loop appends the components that it keeps, and has checked each of them.
pub normalize_onto-kept :
    (ns : List Bytes) (out : Bytes) (depth : ℕ) {r : Bytes}
    → All NoSlash ns
    → depth ≤ limit_depth
    → normalize_onto out depth ns ≡ ok r
    → (r ≡ append_all out (kept ns))
      × All IsName (kept ns)
      × (depth + length (kept ns) ≤ limit_depth)
unfolding normalize_onto
normalize_onto-kept [] out depth s d h = (ground arith, tt, omega arith)
normalize_onto-kept (n ∷ ns) out depth s d h = elim (Bool-cases (skipped n)) [
  | inl e ↦ rw e (normalize_onto-kept ns out depth s.1 d (rw (e, normalize_onto) at h))
  | inr e ↦
      let (c, k) =
        bind_check (check_component n (depth + 1))
          (normalize_onto (append_component out n) (depth + 1) ns) (rw (e, normalize_onto) at h) in
      let (_, _, deep, _) = (check_component_iff n (depth + 1)).0 c in
      let (same, names, bound) =
        normalize_onto-kept ns (append_component out n) (depth + 1) s.1 deep k in
      rw e (same, (component-IsName n (depth + 1) s.0 e c, names), omega arith)
]
