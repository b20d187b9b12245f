-- ===== src/Installer/Paths/Fixed.antt =====
-- `path_normalize` of pkgs/installer/util.c as a whole.
use mathlib.Core.Path.{subst}
use minidarwin.Prelude.{
  ℕ, ◌+◌, ◌-◌, ◌≤◌, ◌<◌, ◌≡◌, ◌≢◌, ◌↔◌, refl, ap, sym, ◌∙◌, Bool, true, false, List, [], ◌∷◌, Bytes,
  All, All-map, length, arith, leb, inl, inr, Bool-cases,
}
use minidarwin.Installer.Result.{path_too_long, Result, ok, err, ◌>>=◌, ◌>>◌, die_if}
use minidarwin.Installer.Paths.{
  skipped, append_component, normalize_onto, split_slash, normalize_body, path_normalize,
  starts_with_slash, skip_slashes, name_max, limit_depth, path_max,
}
use minidarwin.Installer.Paths.Components.{
  join, NoSlash, append_all, append_all-join, split_slash-join, split_slash-NoSlash,
}
use minidarwin.Installer.Paths.Normal.{IsName, kept, IsName-component, normalize_onto-kept}

normalize_onto-ok :
    (ns : List Bytes) (out : Bytes) (depth : ℕ)
    → All IsName (kept ns)
    → depth + length (kept ns) ≤ limit_depth
    → normalize_onto out depth ns ≡ ok (append_all out (kept ns))
unfolding normalize_onto
normalize_onto-ok [] out depth a b = refl
normalize_onto-ok (n ∷ ns) out depth a b = elim (Bool-cases (skipped n)) [
  | inl e ↦ rw e (normalize_onto-ok ns out depth (rw e at a) (rw e at b))
  | inr e ↦
      let names : All IsName (n ∷ kept ns) = rw e at a in
      let deep : depth + length (n ∷ kept ns) ≤ limit_depth = rw e at b in
      let (_, c) = IsName-component n (depth + 1) names.0 (omega arith) in
      rw (e, c) (normalize_onto-ok ns (append_component out n) (depth + 1) names.1 (omega arith))
]

-- A root-relative path: names joined by single slashes, within the limits of mdpkg.
pub record IsNormal (path : Bytes) : Type 0 where
  pub names : List Bytes
  pub joined : path ≡ join names
  pub all_names : All IsName names
  pub shallow : length names ≤ limit_depth
  pub short : length path < path_max - name_max

names_join : (ns : List Bytes) → All IsName ns → append_all [] ns ≡ join ns
names_join ns h = append_all-join ns (All-map IsName (λ n. n ≢ []) (λ n a. a.not_empty) ns h)

-- What `path_normalize` returns is decided by the components of its argument.
abbrev pub NormalizesTo : Bytes → Bytes → Type 0
NormalizesTo s r =
    (r ≡ join (kept (split_slash s)))
    × All IsName (kept (split_slash s))
    × (length (kept (split_slash s)) ≤ limit_depth)
    × (length r < path_max - name_max)

size_tests :
    (m : Result Bytes) (r : Bytes)
    → (m >>= λ out. die_if (leb (path_max - name_max) (length out)) path_too_long >> ok out) ≡ ok r
    → (m ≡ ok r) × (length r < path_max - name_max)
size_tests (ok out) r h = ground arith
size_tests (err e) r h = cc

body-NormalizesTo : (s r : Bytes) → normalize_body s ≡ ok r → NormalizesTo s r
unfolding normalize_body
body-NormalizesTo s r h =
    let (run, small) = size_tests (normalize_onto [] 0 (split_slash s)) r h in
    let (same, names, deep) =
      normalize_onto-kept (split_slash s) [] 0 (split_slash-NoSlash s) (omega arith) run in
    (same ∙ names_join (kept (split_slash s)) names, names, omega arith, small)

NormalizesTo-body : (s r : Bytes) → NormalizesTo s r → normalize_body s ≡ ok r
unfolding normalize_body
NormalizesTo-body s r (same, names, deep, small) =
    let run =
      normalize_onto-ok (split_slash s) [] 0 names (omega arith)
      ∙ ap ok (names_join (kept (split_slash s)) names ∙ sym same) in
    let e : leb (path_max - name_max) (length r) ≡ false = ground arith in rw (run, e)

-- An archive path is accepted, with a result, exactly if it is relative and its components that
-- are neither empty nor "." are names, few and short enough; the result joins these.
pub path_normalize_iff :
    (s r : Bytes)
    → (path_normalize s false ≡ ok r) ↔ ((starts_with_slash s ≡ false) × NormalizesTo s r)
unfolding path_normalize
path_normalize_iff s r = elim (Bool-cases (starts_with_slash s)) [
  | inl e ↦ rw e (cc, cc)
  | inr e ↦ rw e ((λ h. (refl, body-NormalizesTo s r h)), (λ h. NormalizesTo-body s r h.1))
]

NormalizesTo-IsNormal : (s r : Bytes) → NormalizesTo s r → IsNormal r
NormalizesTo-IsNormal s r (same, names, deep, small) = record {
  names = kept (split_slash s);
  joined = same;
  all_names = names;
  shallow = deep;
  short = small;
}

-- Every path that path_normalize returns, for an archive path or an install location, is normal:
-- names joined by single slashes, within the limits, none of them "..".
pub path_normalize-IsNormal :
    (s : Bytes) (absolute : Bool) (r : Bytes) → path_normalize s absolute ≡ ok r → IsNormal r
unfolding path_normalize
path_normalize-IsNormal s true r h =
    NormalizesTo-IsNormal (skip_slashes s) r (body-NormalizesTo (skip_slashes s) r (ground arith))
path_normalize-IsNormal s false r h =
    NormalizesTo-IsNormal s r (body-NormalizesTo s r (ground arith))

kept-names : (ns : List Bytes) → All IsName ns → kept ns ≡ ns
kept-names [] h = refl
kept-names (n ∷ ns) h =
    rw ((IsName-component n 0 h.0 (omega arith)).0) (ap (λ r. n ∷ r) (kept-names ns h.1))

names-relative : (ns : List Bytes) → All IsName ns → starts_with_slash (join ns) ≡ false
names-relative [] h = refl
names-relative ([] ∷ ns) h = absurd (h.0.not_empty refl)
names-relative ((c ∷ n) ∷ []) h = let s = h.0.no_slash in ground arith
names-relative ((c ∷ n) ∷ m ∷ ns) h = let s = h.0.no_slash in ground arith

kept-split-join : (ns : List Bytes) → All IsName ns → kept (split_slash (join ns)) ≡ ns
unfolding split_slash skipped
kept-split-join [] h = refl
kept-split-join (n ∷ ns) h =
    ap kept (split_slash-join n ns (All-map IsName NoSlash (λ m a. a.no_slash) (n ∷ ns) h))
    ∙ kept-names (n ∷ ns) h

-- Normalizing a normal path gives it back.
pub IsNormal-path_normalize : (p : Bytes) → IsNormal p → path_normalize p false ≡ ok p
IsNormal-path_normalize p h =
    let k = kept-split-join h.names h.all_names in
    (path_normalize_iff p p).1 (
      subst (λ q. starts_with_slash q ≡ false) (sym h.joined) (names-relative h.names h.all_names),
      subst (λ q. NormalizesTo q p) (sym h.joined)
          (rw k (h.joined, h.all_names, h.shallow, h.short)),
    )
