-- ===== src/Installer/Package/Selection/Settled.antt =====
-- The state in which `settle_choices` of pkgs/installer/package.c leaves the choices.
use mathlib.Core.Path.{subst}
use minidarwin.Prelude.{
  ℕ, zero, suc, ◌≡◌, ◌≢◌, ◌⊎◌, inl, inr, refl, sym, ◌∙◌, ap, Bool, true, not, none, some, List, [],
  ◌∷◌, Bytes, All, All-map, arith, Option-cases,
}
use minidarwin.Installer.Result.{ok, ◌>>=◌, bind-eq-ok, ok-inj, if-cases}
use minidarwin.Installer.Xml.{property, attributes_of, has_prop, xml_attr}
use minidarwin.Installer.Package.Distribution.{Choice}
use minidarwin.Installer.Package.Distribution.Outline.{DistinctIds}
use minidarwin.Installer.Package.Selection.{
  Key, selected, enabled, visible, keys, key_name, Engine, read_keys, read_choices, apply_key,
  apply_keys, apply_choices, same_flags, unchanged, settle_passes, settle_choices,
}

-- An engine whose expressions only compute: a property has a value, reading it and evaluating an
-- expression change nothing, and a write changes the one property, or nothing where the value is
-- there already.
pub record IsQuiet (js : Engine) : Type 0 where
  pub value : js.State → Bytes → Key → Bool
  pub reads : (s : js.State) (id : Bytes) (k : Key) → js.read s id k ≡ ok (value s id k, s)
  pub evaluates :
      (s : js.State) (id source : Bytes) (v : Bool × js.State)
      → js.evaluate s id source ≡ ok v
      → v.1 ≡ s
  pub writes :
      (s t : js.State) (id : Bytes) (k : Key) (v : Bool)
      → js.write s id k v ≡ ok t
      → value t id k ≡ v
  pub frames :
      (s t : js.State) (id j : Bytes) (k l : Key) (v : Bool)
      → js.write s id k v ≡ ok t
      → (j ≢ id) ⊎ (l ≢ k)
      → value t j l ≡ value s j l
  pub idles :
      (s t : js.State) (id : Bytes) (k : Key) (v : Bool)
      → js.write s id k v ≡ ok t
      → value s id k ≡ v
      → t ≡ s

module _ (js : Engine) (quiet : IsQuiet js) where
  -- The expression of this property, if there is one, gives the value that the property has.
  abbrev IsFixed : js.State → Choice → Key → Type 0
  IsFixed s c k =
      (source : Bytes)
      → property (attributes_of c.node) (key_name k) ≡ some source
      → js.evaluate s c.id source ≡ ok (quiet.value s c.id k, s)

  abbrev pub AllFixed : js.State → List Choice → Type 0
  AllFixed s choices = All (λ c. (k : Key) → IsFixed s c k) choices

  abbrev Apart : Bytes → Key → Bytes → Key → Type 0
  Apart j l id k = (j ≢ id) ⊎ (l ≢ k)

  apply_key-frame :
      (c : Choice) (k : Key) (s t : js.State) (j : Bytes) (l : Key)
      → apply_key js c k s ≡ ok t
      → Apart j l c.id k
      → quiet.value t j l ≡ quiet.value s j l
  unfolding apply_key
  apply_key-frame c k s t j l e a = elim (if-cases (not (has_prop c.node (key_name k))) _ _ e) [
    | inl (_, same) ↦ ap (λ u. quiet.value u j l) (sym (ok-inj same))
    | inr (_, f) ↦
        let (source, _, g) = bind-eq-ok (xml_attr c.node (key_name k) none) _ f in
        let (v, evaluated, written) = bind-eq-ok (js.evaluate s c.id source) _ g in
        let still = quiet.evaluates s c.id source v evaluated in
        quiet.frames v.1 t c.id j k l v.0 written a ∙ ap (λ u. quiet.value u j l) still
  ]

  -- An expression that leaves its property as it was has changed nothing.
  apply_key-IsFixed :
      (c : Choice) (k : Key) (s t : js.State)
      → apply_key js c k s ≡ ok t
      → quiet.value t c.id k ≡ quiet.value s c.id k
      → (t ≡ s) × IsFixed s c k
  unfolding apply_key xml_attr
  apply_key-IsFixed c k s t e same =
      elim (Option-cases (property (attributes_of c.node) (key_name k))) [
        | inl absent ↦ (ground arith, λ source there. cc)
        | inr (source, there) ↦
            let f : (js.evaluate s c.id source >>= (λ v. js.write v.1 c.id k v.0)) ≡ ok t =
              ground arith in
            let (v, evaluated, written) = bind-eq-ok (js.evaluate s c.id source) _ f in
            let still = quiet.evaluates s c.id source v evaluated in
            let put = quiet.writes v.1 t c.id k v.0 written in
            let was : quiet.value v.1 c.id k ≡ v.0 = cc (still, same, put) in
            (
              quiet.idles v.1 t c.id k v.0 written was ∙ still,
              λ found there_too.
                  let pair : js.evaluate s c.id source ≡ ok (v.0, v.1) = evaluated in
                  let equal : found ≡ source = cc (there, there_too) in
                  cc (pair, still, same, put, equal),
            )
      ]

  apply_keys-frame :
      (c : Choice) (ks : List Key) (s t : js.State) (j : Bytes) (l : Key)
      → apply_keys js c ks s ≡ ok t
      → All (λ k. Apart j l c.id k) ks
      → quiet.value t j l ≡ quiet.value s j l
  unfolding apply_keys
  apply_keys-frame c [] s t j l e a = ap (λ u. quiet.value u j l) (sym (ok-inj e))
  apply_keys-frame c (k ∷ ks) s t j l e a =
      let (u, one, rest) = bind-eq-ok (apply_key js c k s) _ e in
      apply_keys-frame c ks u t j l rest a.1 ∙ apply_key-frame c k s u j l one a.0

  abbrev DistinctKeys : List Key → Type 0
  DistinctKeys [] = Unit {0}
  DistinctKeys (k ∷ ks) = All (λ l. k ≢ l) ks × DistinctKeys ks

  apply_keys-IsFixed :
      (c : Choice) (ks : List Key) (s t : js.State)
      → DistinctKeys ks
      → apply_keys js c ks s ≡ ok t
      → ((k : Key) → quiet.value t c.id k ≡ quiet.value s c.id k)
      → (t ≡ s) × All (λ k. IsFixed s c k) ks
  unfolding apply_keys
  apply_keys-IsFixed c [] s t d e same = (sym (ok-inj e), tt)
  apply_keys-IsFixed c (k ∷ ks) s t d e same =
      let (u, one, rest) = bind-eq-ok (apply_key js c k s) _ e in
      let frame =
        apply_keys-frame c ks u t c.id k rest (All-map (λ l. k ≢ l) _ (λ l n. inr n) ks d.0) in
      let (still, fixed) = apply_key-IsFixed c k s u one (sym frame ∙ same k) in
      let (end, others) =
        apply_keys-IsFixed c ks s t d.1 (subst (λ w. apply_keys js c ks w ≡ ok t) still rest)
          same in
      (end, (fixed, others))

  keys-fixed : (P : Key → Type 0) → All P keys → (k : Key) → P k
  keys-fixed P a selected = a.0
  keys-fixed P a enabled = a.1.0
  keys-fixed P a visible = a.1.1.0

  keys-distinct : DistinctKeys keys
  keys-distinct = (((λ e. cc), ((λ e. cc), tt)), (((λ e. cc), tt), (tt, tt)))

  apply_choices-frame :
      (choices : List Choice) (s t : js.State) (j : Bytes) (l : Key)
      → apply_choices js choices s ≡ ok t
      → All (λ d. j ≢ d.id) choices
      → quiet.value t j l ≡ quiet.value s j l
  unfolding apply_choices
  apply_choices-frame [] s t j l e a = ap (λ u. quiet.value u j l) (sym (ok-inj e))
  apply_choices-frame (c ∷ choices) s t j l e a =
      let (u, one, rest) = bind-eq-ok (apply_keys js c keys s) _ e in
      apply_choices-frame choices u t j l rest a.1
      ∙ apply_keys-frame c keys s u j l one (inl a.0, (inl a.0, (inl a.0, tt)))

  abbrev SameValues : js.State → js.State → List Choice → Type 0
  SameValues s t choices =
      All (λ c. (k : Key) → quiet.value t c.id k ≡ quiet.value s c.id k) choices

  apply_choices-fixed :
      (choices : List Choice) (s t : js.State)
      → DistinctIds choices
      → apply_choices js choices s ≡ ok t
      → SameValues s t choices
      → (t ≡ s) × AllFixed s choices
  unfolding apply_choices
  apply_choices-fixed [] s t d e same = (sym (ok-inj e), tt)
  apply_choices-fixed (c ∷ choices) s t d e same =
      let (u, one, rest) = bind-eq-ok (apply_keys js c keys s) _ e in
      let (still, fixed) =
        apply_keys-IsFixed c keys s u keys-distinct one
          (λ k. sym (apply_choices-frame choices u t c.id k rest d.0) ∙ same.0 k) in
      let (end, others) =
        apply_choices-fixed choices s t d.1
          (subst (λ w. apply_choices js choices w ≡ ok t) still rest) same.1 in
      (end, (keys-fixed (IsFixed s c) fixed, others))

  -- What a round reads, written out.
  abbrev values_of : js.State → List Choice → List (List Bool)
  values_of s [] = []
  values_of s (c ∷ choices) =
      (quiet.value s c.id selected ∷ quiet.value s c.id enabled ∷ quiet.value s c.id visible ∷ [])
      ∷ values_of s choices

  read_keys-values :
      (s : js.State) (id : Bytes)
      → read_keys js id keys s
        ≡ ok (
          quiet.value s id selected ∷ quiet.value s id enabled ∷ quiet.value s id visible ∷ [],
          s,
        )
  unfolding read_keys
  read_keys-values s id =
      rw (quiet.reads s id selected, quiet.reads s id enabled, quiet.reads s id visible) refl

  read_choices-values :
      (choices : List Choice) (s : js.State)
      → read_choices js choices s ≡ ok (values_of s choices, s)
  unfolding read_choices
  read_choices-values [] s = refl
  read_choices-values (c ∷ choices) s =
      rw (read_keys-values s c.id, read_choices-values choices s) refl

  flags_same :
      (a b c x y z : Bool)
      → same_flags (a ∷ b ∷ c ∷ []) (x ∷ y ∷ z ∷ []) ≡ true
      → (x ≡ a) × (y ≡ b) × (z ≡ c)
  unfolding same_flags
  flags_same a b c x y z e = ground arith

  unchanged-SameValues :
      (choices : List Choice) (s t : js.State)
      → unchanged (values_of s choices) (values_of t choices) ≡ true
      → SameValues s t choices
  unfolding unchanged
  unchanged-SameValues [] s t e = tt
  unchanged-SameValues (c ∷ choices) s t e =
      let (a, b, d) =
        flags_same (quiet.value s c.id selected) (quiet.value s c.id enabled)
          (quiet.value s c.id visible) (quiet.value t c.id selected) (quiet.value t c.id enabled)
          (quiet.value t c.id visible) (ground arith) in
      (
        keys-fixed (λ k. quiet.value t c.id k ≡ quiet.value s c.id k) (a, (b, (d, tt))),
        unchanged-SameValues choices s t (ground arith),
      )

  settle_passes-fixed :
      (choices : List Choice) (passes : ℕ) (s t : js.State)
      → DistinctIds choices
      → settle_passes js choices passes s ≡ ok t
      → AllFixed t choices
  unfolding settle_passes
  settle_passes-fixed choices zero s t d e = cc
  settle_passes-fixed choices (suc passes) s t d e =
      let (before, read, a) = bind-eq-ok (read_choices js choices s) _ e in
      let (moved, applied, b) = bind-eq-ok (apply_choices js choices before.1) _ a in
      let (after, read_again, c) = bind-eq-ok (read_choices js choices moved) _ b in
      let first : (values_of s choices, s) ≡ before =
        ok-inj (sym (read_choices-values choices s) ∙ read) in
      let second : (values_of moved choices, moved) ≡ after =
        ok-inj (sym (read_choices-values choices moved) ∙ read_again) in
      elim (if-cases (unchanged before.0 after.0) _ _ c) [
        | inr (_, on) ↦ settle_passes-fixed choices passes after.1 t d on
        | inl (same, end) ↦
            let equal = unchanged-SameValues choices s moved (
              ap (λ (w : List (List Bool) × js.State). unchanged w.0 (values_of moved choices))
                first
              ∙ ap (λ (w : List (List Bool) × js.State). unchanged before.0 w.0) second
              ∙ same) in
            let (still, fixed) =
              apply_choices-fixed choices s moved d
                (subst
                  (λ (w : List (List Bool) × js.State). apply_choices js choices w.1 ≡ ok moved)
                  (sym first) applied)
                equal in
            subst (λ u. AllFixed u choices)
              (sym still ∙ ap (λ (w : List (List Bool) × js.State). w.1) second ∙ ok-inj end) fixed
      ]

  -- With an engine whose expressions only compute, and choices of different identifiers, a state in
  -- which settle_choices ends is a fixed point: every expression of a choice gives there the value
  -- that its property has.
  pub settle_choices-fixed :
      (choices : List Choice) (s t : js.State)
      → DistinctIds choices
      → settle_choices js choices s ≡ ok t
      → AllFixed t choices
  unfolding settle_choices
  settle_choices-fixed choices s t d e = settle_passes-fixed choices 64 s t d e
