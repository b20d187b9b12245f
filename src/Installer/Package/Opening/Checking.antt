-- ===== src/Installer/Package/Opening/Checking.antt =====
-- The checks of a Distribution in pkgs/installer/package.c leave the container as it is, and
-- `package_load` as a whole.
use mathlib.Core.Path.{subst}
use minidarwin.Prelude.{
  ℕ, ◌+◌, ◌≤◌, ◌≡◌, ◌⊎◌, All, length, Option-cases, inl, inr, refl, sym, ◌∙◌, Bool, false, not,
  ◌&&◌, none, some, [], ◌∷◌, Bytes, codes, arith, ltb,
}
use minidarwin.Installer.Result.{
  unsupported_element, distribution_nesting, unsupported_distribution, missing_outline, ok, die_if,
  bind-eq-ok, ok-inj,
}
use minidarwin.Installer.Xml.{
  XmlNode, null, element, text, other, Attributes, Libxml, xml_is, xml_child, xml_parse, is_missing,
  children_of, attributes_of,
}
use minidarwin.Installer.Paths.{limit_depth}
use minidarwin.Installer.Decoding.{limit_decoded}
use minidarwin.Installer.Decoding.Bounds.{IsZlib}
use minidarwin.Installer.Xar.{Libraries, xar_open, find_member}
use minidarwin.Installer.Xar.Sorted.{xar_open-members}
use minidarwin.Installer.Package.{Package, one_of}
use minidarwin.Installer.Package.References.{static_boolean}
use minidarwin.Installer.Package.Loading.{load_component}
use minidarwin.Installer.Package.Loading.Components.{
  IsComponent, Distinct, IsLoaded, load_component-IsLoaded, load_component-distribution,
}
use minidarwin.Installer.Package.Distribution.{
  Compile, distribution_elements, check_expression, check_attribute, check_attributes, check_script,
  check_installation, check_os_version, read_options, check_element, validate_siblings,
  validate_distribution, outline_choices, check_choices,
}
use minidarwin.Installer.Package.Selection.{check_payload_paths}
use minidarwin.Installer.Package.Opening.{
  opened, load_bare, check_unique, unique_elements, load_distribution, load_opened, package_load,
}

-- The container, the document and the components are as they were.
abbrev Same : Package → Package → Type 0
Same p q =
    (p.members ≡ q.members)
    × (p.decoded ≡ q.decoded)
    × (p.components ≡ q.components)
    × (p.distribution ≡ q.distribution)

Same-trans : (p q r : Package) → Same p q → Same q r → Same p r
Same-trans p q r (a, b, c, d) (e, f, g, h) = (a ∙ e, b ∙ f, c ∙ g, d ∙ h)

check_attribute-Same :
    (compile : Compile) (n : XmlNode) (key : Bytes) (scripts : Bool) (p q : Package)
    → check_attribute compile n key scripts p ≡ ok q
    → Same p q
unfolding check_attribute check_expression
check_attribute-Same compile n key scripts p q e = ground arith

check_attributes-Same :
    (compile : Compile) (n : XmlNode) (list : Attributes) (scripts : Bool) (p q : Package)
    → check_attributes compile n list scripts p ≡ ok q
    → Same p q
unfolding check_attributes
check_attributes-Same compile n [] scripts p q e = ground arith
check_attributes-Same compile n ((key, v) ∷ list) scripts p q e =
    let (r, one, rest) = bind-eq-ok (check_attribute compile n key scripts p) _ e in
    Same-trans p r q (check_attribute-Same compile n key scripts p r one)
      (check_attributes-Same compile n list scripts r q rest)

check_script-Same :
    (lib : Libxml) (compile : Compile) (n : XmlNode) (p q : Package)
    → check_script lib compile n p ≡ ok q
    → Same p q
unfolding check_script
check_script-Same lib compile n p q e = ground arith

check_installation-Same :
    (compile : Compile) (n : XmlNode) (p q : Package)
    → check_installation compile n p ≡ ok q
    → Same p q
unfolding check_installation
check_installation-Same compile n p q e = ground arith

check_os_version-Same : (n : XmlNode) (p q : Package) → check_os_version n p ≡ ok q → Same p q
unfolding check_os_version
check_os_version-Same n p q e = ground arith

read_options-Same : (n : XmlNode) (p q : Package) → read_options n p ≡ ok q → Same p q
unfolding read_options
read_options-Same n p q e = ground arith

check_element-Same :
    (lib : Libxml) (compile : Compile) (n : XmlNode) (name : Bytes) (scripts : Bool) (p q : Package)
    → check_element lib compile n name scripts p ≡ ok q
    → Same p q
unfolding check_element
check_element-Same lib compile n name scripts p q e =
    let (_, _, f) =
      bind-eq-ok (die_if (not (one_of name distribution_elements)) unsupported_element) _ e in
    let (a, one, g) = bind-eq-ok (check_attributes compile n (attributes_of n) scripts p) _ f in
    let (b, two, h) = bind-eq-ok (check_script lib compile n a) _ g in
    let (c, three, i) = bind-eq-ok (check_installation compile n b) _ h in
    let (d, four, five) = bind-eq-ok (check_os_version n c) _ i in
    Same-trans p a q (check_attributes-Same compile n (attributes_of n) scripts p a one) (
      Same-trans a b q (check_script-Same lib compile n a b two) (
        Same-trans b c q (check_installation-Same compile n b c three)
          (Same-trans c d q (check_os_version-Same n c d four) (read_options-Same n d q five))))

validate_siblings-Same :
    (lib : Libxml) (compile : Compile) (depth : ℕ) (scripts : Bool) (n : XmlNode) (p q : Package)
    → validate_siblings lib compile depth scripts n p ≡ ok q
    → Same p q
unfolding validate_siblings
validate_siblings-Same lib compile depth scripts null p q e = ground arith
validate_siblings-Same lib compile depth scripts (text t next) p q e =
    validate_siblings-Same lib compile depth scripts next p q e
validate_siblings-Same lib compile depth scripts (other next) p q e =
    validate_siblings-Same lib compile depth scripts next p q e
validate_siblings-Same lib compile depth scripts (element name attributes children next) p q e =
    let n = element name attributes children next in
    let (r, one, a) = bind-eq-ok (check_element lib compile n name scripts p) _ e in
    let (_, _, b) = bind-eq-ok (die_if (ltb limit_depth (depth + 1)) distribution_nesting) _ a in
    let (s, two, three) =
      bind-eq-ok (validate_siblings lib compile (depth + 1) scripts children r) _ b in
    Same-trans p r q (check_element-Same lib compile n name scripts p r one) (
      Same-trans r s q (validate_siblings-Same lib compile (depth + 1) scripts children r s two)
        (validate_siblings-Same lib compile depth scripts next s q three))

IsLoaded-Same : (p q : Package) → Same p q → IsLoaded p → IsLoaded q
IsLoaded-Same p q (a, b, c, d) l = record {
  components = subst (All IsComponent) c l.components;
  identifiers = subst (Distinct (λ c. c.identifier)) c l.identifiers;
  dirs = subst (Distinct (λ c. c.xar_dir)) c l.dirs;
  count = subst (λ list. length list ≤ 1024) c l.count;
  decoded = subst (λ n. n ≤ limit_decoded) b l.decoded;
}

-- A package as it is loaded: a document with no component yet, or the checked component of a
-- container that has no Distribution.
abbrev pub IsOpened : Package → Type 0
IsOpened q =
    ((dist : XmlNode) × (q.distribution ≡ some dist) × (q.components ≡ []))
    ⊎ ((q.distribution ≡ none) × (check_payload_paths q ≡ ok tt))

module _ (lib : Libraries) (documented : IsZlib lib.zlib) (compile : Compile) where
  load_bare-IsOpened :
      (p q : Package)
      → IsLoaded p
      → p.distribution ≡ none
      → load_bare lib p ≡ ok q
      → IsLoaded q × IsOpened q
  unfolding load_bare
  load_bare-IsOpened p q l no_dist e =
      let (r, loaded, a) = bind-eq-ok (load_component lib p [] none false) _ e in
      let (_, checked, same) = bind-eq-ok (check_payload_paths r) _ a in
      let kept = load_component-distribution lib p r [] none false loaded in
      subst (λ q. IsLoaded q × IsOpened q) (ok-inj same)
        (
          load_component-IsLoaded lib documented p r [] none false l loaded,
          inr (cc (kept, no_dist), checked),
        )

  load_distribution-IsOpened :
      (p q : Package) (b : Bytes)
      → IsLoaded p
      → p.components ≡ []
      → load_distribution lib compile p b ≡ ok q
      → IsLoaded q × IsOpened q
  unfolding load_distribution validate_distribution
  load_distribution-IsOpened p q b l no_components e =
      let (dist, _, a) = bind-eq-ok (xml_parse lib.xml b) _ e in
      let (_, _, c) =
        bind-eq-ok
          (die_if
            (not (xml_is dist (codes "installer-script"))
              && not (xml_is dist (codes "installer-gui-script")))
            unsupported_distribution)
          _ a in
      let (_, _, d) =
        bind-eq-ok (die_if (is_missing (xml_child dist (codes "choices-outline"))) missing_outline)
          _ c in
      let (_, _, f) = bind-eq-ok (check_unique dist unique_elements) _ d in
      let (scripts, _, g) =
        bind-eq-ok (static_boolean (xml_child dist (codes "options")) (codes "require-scripts")) _
          f in
      let start : Package = record p { distribution = some dist } in
      let (r, valid, h) = bind-eq-ok (validate_siblings lib.xml compile 0 scripts dist start) _ g in
      let (choices, _, i) =
        bind-eq-ok (outline_choices dist (xml_child dist (codes "choices-outline"))) _ h in
      let (_, _, same) = bind-eq-ok (check_choices lib.xml dist choices (children_of dist)) _ i in
      let k = validate_siblings-Same lib.xml compile 0 scripts dist start r valid in
      let began : IsLoaded start = record {
        components = l.components;
        identifiers = l.identifiers;
        dirs = l.dirs;
        count = l.count;
        decoded = l.decoded;
      } in
      subst (λ q. IsLoaded q × IsOpened q) (ok-inj same)
        (IsLoaded-Same start r k began, inl (dist, sym k.3, sym k.2 ∙ no_components))

  -- With a zlib that behaves as documented and a total within its limit, package_load leaves, where
  -- it succeeds, a well-formed package, which either has a Distribution and no component yet, or no
  -- Distribution and payload paths that pass the check.
  pub package_load-IsLoaded :
      (file : Bytes) (total : ℕ) (q : Package)
      → total ≤ limit_decoded
      → package_load lib compile file total ≡ ok q
      → IsLoaded q × IsOpened q
  unfolding package_load load_opened
  package_load-IsLoaded file total q h e =
      let (r, read, a) = bind-eq-ok (xar_open lib file total) _ e in
      let (_, _, _, bound, _, _) = xar_open-members lib file total r documented h read in
      let start : IsLoaded (opened r) = record {
        components = tt;
        identifiers = tt;
        dirs = tt;
        count = omega arith;
        decoded = bound;
      } in
      elim (Option-cases (find_member r.members (codes "Distribution"))) [
        | inl absent ↦
            load_bare-IsOpened (opened r) q start refl
              (subst (λ d. load_opened lib compile (opened r) d ≡ ok q) absent a)
        | inr (b, there) ↦
            load_distribution-IsOpened (opened r) q b start refl
              (subst (λ d. load_opened lib compile (opened r) d ≡ ok q) there a)
      ]
