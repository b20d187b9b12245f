-- ===== src/Installer/Package/References/Found.antt =====
-- What `find_reference` of pkgs/installer/package.c finds in a document.
use mathlib.Core.Path.{subst}
use minidarwin.Prelude.{
  ◌≡◌, ◌≢◌, inl, inr, sym, true, false, not, Option, none, some, [], ◌∷◌, Bytes, codes, ◌==◌, arith,
  if◌then◌else◌,
}
use minidarwin.Installer.Result.{
  external_reference, several_locations, unresolved_reference, empty_reference, ok, die_if,
  bind-eq-ok, ok-inj, if-cases,
}
use minidarwin.Installer.Paths.{is_empty, str_eq, path_normalize}
use minidarwin.Installer.Paths.Prefix.{str_eq_iff}
use minidarwin.Installer.Paths.Fixed.{IsNormal, path_normalize-IsNormal}
use minidarwin.Installer.Xml.{
  XmlNode, null, element, text, other, Libxml, property, attributes_of, xml_attr, xml_text,
  children_of,
}
use minidarwin.Installer.Package.References.{
  percent_decode, embedded_reference, Reference, merge_attribute, trim, has_path, add_location,
  add_locations, add_reference, collect_reference, no_reference, Resolved, resolved, find_reference,
}

-- A path below the root, and not the root itself.
abbrev pub IsInner : Bytes → Type 0
IsInner path = IsNormal path × (path ≢ [])

pub embedded_reference-IsInner :
    (ref path : Bytes) → embedded_reference ref ≡ ok path → IsInner path
unfolding embedded_reference
embedded_reference-IsInner [] path e = cc
embedded_reference-IsInner (c ∷ ref) path e =
    let (_, _, a) = bind-eq-ok (die_if (not (c == b'#')) external_reference) _ e in
    let (decoded, _, b) = bind-eq-ok (percent_decode ref) _ a in
    let (p, normal, d) = bind-eq-ok (path_normalize decoded false) _ b in
    let (_, full, same) = bind-eq-ok (die_if (is_empty p) empty_reference) _ d in
    subst IsInner (ok-inj same) (path_normalize-IsNormal decoded false p normal, λ f. ground arith)

-- What is known of an attribute stays known.
abbrev Keeps : Option Bytes → Option Bytes → Type 0
Keeps before after = (v : Bytes) → before ≡ some v → after ≡ some v

-- An attribute of a node, where it has it, is the one that is known.
abbrev Agrees : XmlNode → Bytes → Option Bytes → Type 0
Agrees n key after = (v : Bytes) → property (attributes_of n) key ≡ some v → after ≡ some v

merge_attribute-Agrees :
    (before after : Option Bytes) (n : XmlNode) (key : Bytes)
    → merge_attribute before n key ≡ ok after
    → Keeps before after × Agrees n key after
unfolding merge_attribute xml_attr
merge_attribute-Agrees none after n key e = (λ v h. ground arith, λ v h. ground arith)
merge_attribute-Agrees (some w) after n key e =
    let same = λ (v : Bytes). str_eq_iff w v in
    (λ v h. ground (arith, same v), λ v h. ground (arith, same v))

-- From `before` to `after` nothing is forgotten, and the location is inside the container.
record Grows (before after : Reference) : Type 0 where
  keeps_active : Keeps before.active after.active
  keeps_version : Keeps before.version after.version
  inner :
      ((p : Bytes) → before.path ≡ some p → IsInner p)
      → (p : Bytes) → after.path ≡ some p
      → IsInner p

Grows-refl : (ref : Reference) → Grows ref ref
Grows-refl ref = record { keeps_active = λ v h. h; keeps_version = λ v h. h; inner = λ h. h }

Grows-trans : (a b c : Reference) → Grows a b → Grows b c → Grows a c
Grows-trans a b c h k = record {
  keeps_active = λ v e. k.keeps_active v (h.keeps_active v e);
  keeps_version = λ v e. k.keeps_version v (h.keeps_version v e);
  inner = λ e. k.inner (h.inner e);
}

-- Every pkg-ref of this identifier, at any depth, says the same as what is known, where it says
-- anything.
abbrev pub AllAgree : XmlNode → Bytes → Option Bytes → Option Bytes → Type 0
AllAgree null id active version = Unit {0}
AllAgree (text t next) id active version = AllAgree next id active version
AllAgree (other next) id active version = AllAgree next id active version
AllAgree (element name attributes children next) id active version =
    (name ≡ codes "pkg-ref"
      → property attributes (codes "id") ≡ some id
      → ((v : Bytes) → property attributes (codes "active") ≡ some v → active ≡ some v)
        × ((v : Bytes) → property attributes (codes "version") ≡ some v → version ≡ some v))
    × AllAgree children id active version
    × AllAgree next id active version

AllAgree-Grows :
    (n : XmlNode) (id : Bytes) (a b : Reference)
    → Grows a b
    → AllAgree n id a.active a.version
    → AllAgree n id b.active b.version
AllAgree-Grows null id a b g h = tt
AllAgree-Grows (text t next) id a b g h = AllAgree-Grows next id a b g h
AllAgree-Grows (other next) id a b g h = AllAgree-Grows next id a b g h
AllAgree-Grows (element name attributes children next) id a b g h = (
  λ named own.
      let (x, y) = h.0 named own in
      (λ v e. g.keeps_active v (x v e), λ v e. g.keeps_version v (y v e)),
  AllAgree-Grows children id a b g h.1,
  AllAgree-Grows next id a b g h.2,
)

add_location-Grows :
    (start : Bytes) (ref q : Reference) → add_location start ref ≡ ok q → Grows ref q
unfolding add_location
add_location-Grows start ref q e = elim (if-cases (is_empty start) _ _ e) [
  | inl (_, same) ↦ subst (Grows ref) (ok-inj same) (Grows-refl ref)
  | inr (_, a) ↦
      let (_, _, b) = bind-eq-ok (die_if (has_path ref.path) several_locations) _ a in
      let (path, found, same) = bind-eq-ok (embedded_reference start) _ b in
      subst (Grows ref) (ok-inj same) (record {
        keeps_active = λ v h. h;
        keeps_version = λ v h. h;
        inner = λ h p f. subst IsInner (cc f) (embedded_reference-IsInner start path found);
      })
]

add_locations-Grows :
    (lib : Libxml) (n : XmlNode) (ref q : Reference) → add_locations lib n ref ≡ ok q → Grows ref q
unfolding add_locations
add_locations-Grows lib null ref q e = subst (Grows ref) (ok-inj e) (Grows-refl ref)
add_locations-Grows lib (element name attributes children next) ref q e =
    add_locations-Grows lib next ref q e
add_locations-Grows lib (other next) ref q e = add_locations-Grows lib next ref q e
add_locations-Grows lib (text t next) ref q e =
    let (s, _, a) = bind-eq-ok (xml_text lib (text t next)) _ e in
    let (r, one, rest) = bind-eq-ok (add_location (trim s) ref) _ a in
    Grows-trans ref r q (add_location-Grows (trim s) ref r one)
      (add_locations-Grows lib next r q rest)

-- A pkg-ref that is looked at: what it says is known afterwards.
abbrev Told : XmlNode → Bytes → Reference → Type 0
Told n id q =
    property (attributes_of n) (codes "id") ≡ some id
    → Agrees n (codes "active") q.active × Agrees n (codes "version") q.version

own_id :
    (n : XmlNode) (own : Bytes)
    → xml_attr n (codes "id") none ≡ ok own
    → property (attributes_of n) (codes "id") ≡ some own
unfolding xml_attr
own_id n own e = ground arith

add_reference-Grows :
    (lib : Libxml) (n : XmlNode) (id : Bytes) (ref q : Reference)
    → add_reference lib n id ref ≡ ok q
    → Grows ref q × Told n id q
unfolding add_reference
add_reference-Grows lib n id ref q e =
    let (own, has, a) = bind-eq-ok (xml_attr n (codes "id") none) _ e in
    elim (if-cases (not (str_eq own id)) _ _ a) [
      | inl (foreign, same) ↦ (
        subst (Grows ref) (ok-inj same) (Grows-refl ref),
        λ mine.
            let equal : own ≡ id = cc (own_id n own has, mine) in
            let iff = (str_eq_iff own id).1 equal in cc (foreign, iff),
      )
      | inr (_, b) ↦
          let (active, first, c) = bind-eq-ok (merge_attribute ref.active n (codes "active")) _ b in
          let (version, second, d) =
            bind-eq-ok (merge_attribute ref.version n (codes "version")) _ c in
          let r : Reference = record ref { active = active; version = version; found = true } in
          let (ka, ta) = merge_attribute-Agrees ref.active active n (codes "active") first in
          let (kv, tv) = merge_attribute-Agrees ref.version version n (codes "version") second in
          let g = add_locations-Grows lib (children_of n) r q d in
          let h : Grows ref r = record { keeps_active = ka; keeps_version = kv; inner = λ h. h } in
          (
            Grows-trans ref r q h g,
            λ mine. (λ v e. g.keeps_active v (ta v e), λ v e. g.keeps_version v (tv v e)),
          )
    ]

-- The case of one element of `collect_reference`.
element-Grows :
    (lib : Libxml) (name : Bytes) (n : XmlNode) (id : Bytes) (ref q : Reference)
    → (if str_eq name (codes "pkg-ref") then add_reference lib n id ref else ok ref) ≡ ok q
    → Grows ref q × (name ≡ codes "pkg-ref" → Told n id q)
element-Grows lib name n id ref q e = elim (if-cases (str_eq name (codes "pkg-ref")) _ _ e) [
  | inl (_, a) ↦ let (g, t) = add_reference-Grows lib n id ref q a in (g, λ _. t)
  | inr (differs, same) ↦ (
    subst (Grows ref) (ok-inj same) (Grows-refl ref),
    λ named. let iff = (str_eq_iff name (codes "pkg-ref")).1 named in cc (differs, iff),
  )
]

collect_reference-Grows :
    (lib : Libxml) (n : XmlNode) (id : Bytes) (ref q : Reference)
    → collect_reference lib n id ref ≡ ok q
    → Grows ref q × AllAgree n id q.active q.version
unfolding collect_reference
collect_reference-Grows lib null id ref q e = (subst (Grows ref) (ok-inj e) (Grows-refl ref), tt)
collect_reference-Grows lib (text t next) id ref q e = collect_reference-Grows lib next id ref q e
collect_reference-Grows lib (other next) id ref q e = collect_reference-Grows lib next id ref q e
collect_reference-Grows lib (element name attributes children next) id ref q e =
    let n = element name attributes children next in
    let (r, one, a) =
      bind-eq-ok (if str_eq name (codes "pkg-ref") then add_reference lib n id ref else ok ref) _
        e in
    let (s, two, three) = bind-eq-ok (collect_reference lib children id r) _ a in
    let (g, told) = element-Grows lib name n id ref r one in
    let (h, below) = collect_reference-Grows lib children id r s two in
    let (i, after) = collect_reference-Grows lib next id s q three in
    let on = Grows-trans r s q h i in
    (
      Grows-trans ref r q g on,
      (
        (λ named own.
            let (x, y) = told named own in
            (λ v f. on.keeps_active v (x v f), λ v f. on.keeps_version v (y v f))),
        AllAgree-Grows children id s q i below,
        after,
      ),
    )

resolved-eq :
    (ref : Reference) (path : Option Bytes) (r : Resolved)
    → resolved ref path ≡ ok r
    → (path ≡ some r.target) × (r.activity ≡ ref.active) × (r.release ≡ ref.version)
resolved-eq ref none r e = cc
resolved-eq ref (some p) r e = ground arith

-- A reference that find_reference resolves lies below the root of the container, and every pkg-ref
-- of its identifier, at any depth of the document, that has an active or a version attribute has
-- the value that was found.
pub find_reference-agrees :
    (lib : Libxml) (dist : XmlNode) (id : Bytes) (r : Resolved)
    → find_reference lib dist id ≡ ok r
    → IsInner r.target × AllAgree (children_of dist) id r.activity r.release
unfolding find_reference
find_reference-agrees lib dist id r e =
    let (ref, collected, a) =
      bind-eq-ok (collect_reference lib (children_of dist) id no_reference) _ e in
    let (_, _, b) = bind-eq-ok (die_if (not ref.found) unresolved_reference) _ a in
    let (p, x, y) = resolved-eq ref ref.path r b in
    let (g, all) = collect_reference-Grows lib (children_of dist) id no_reference ref collected in
    (
      g.inner (λ q f. cc f) r.target p,
      subst (λ v. AllAgree (children_of dist) id r.activity v) (sym y)
          (subst (λ v. AllAgree (children_of dist) id v ref.version) (sym x) all),
    )
