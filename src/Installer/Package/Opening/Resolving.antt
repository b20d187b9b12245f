-- ===== src/Installer/Package/Opening/Resolving.antt =====
-- The components that `package_load` and `package_resolve` of pkgs/installer/package.c leave.
use mathlib.Core.Path.{subst}
use minidarwin.Prelude.{
  ◌≡◌, inl, inr, refl, Bool, true, false, Option, none, some, List, [], ◌∷◌, Bytes, codes,
  if◌then◌else◌,
}
use minidarwin.Installer.Result.{needs_target, ok, die_if, bind-eq-ok, ok-inj, if-cases}
use minidarwin.Installer.Xml.{XmlNode, null, element, text, other, xml_attr, xml_child, children_of}
use minidarwin.Installer.Decoding.Bounds.{IsZlib}
use minidarwin.Installer.Xar.{Libraries}
use minidarwin.Installer.Package.{Package}
use minidarwin.Installer.Package.References.{find_reference}
use minidarwin.Installer.Package.Loading.{load_component}
use minidarwin.Installer.Package.Loading.Components.{IsLoaded, load_component-IsLoaded}
use minidarwin.Installer.Package.Distribution.{Choice, outline_choices}
use minidarwin.Installer.Package.Selection.{Engine, check_payload_paths}
use minidarwin.Installer.Package.Opening.{
  is_selected, is_active, load_references, load_choices, start_engine, resolve_distribution,
  lacks_target, resolve_from, package_resolve, inspect_references,
}

module _ (lib : Libraries) (documented : IsZlib lib.zlib) (js : Engine) where
  load_references-IsLoaded :
      (dist : XmlNode) (c : Choice) (n : XmlNode) (state : Option js.State) (p : Package)
      (out : Option js.State × Package)
      → IsLoaded p
      → load_references lib js dist c n state p ≡ ok out
      → IsLoaded out.1
  unfolding load_references
  load_references-IsLoaded dist c null state p out l e =
      subst (λ (o : Option js.State × Package). IsLoaded o.1) (ok-inj e) l
  load_references-IsLoaded dist c (text t next) state p out l e =
      load_references-IsLoaded dist c next state p out l e
  load_references-IsLoaded dist c (other next) state p out l e =
      load_references-IsLoaded dist c next state p out l e
  load_references-IsLoaded dist c (element name attributes children next) state p out l e =
      let (id, _, a) =
        bind-eq-ok (xml_attr (element name attributes children next) (codes "id") none) _ e in
      let (ref, _, b) = bind-eq-ok (find_reference lib.xml dist id) _ a in
      let (active, _, d) = bind-eq-ok (is_active lib js c ref.activity state) _ b in
      let (q, loaded, rest) =
        bind-eq-ok (if active.0 then load_component lib p ref.target (some id) false else ok p) _
          d in
      let here : IsLoaded q = elim (if-cases active.0 _ _ loaded) [
        | inl (_, f) ↦ load_component-IsLoaded lib documented p q ref.target (some id) false l f
        | inr (_, same) ↦ subst IsLoaded (ok-inj same) l
      ] in
      load_references-IsLoaded dist c next active.1 q out here rest

  load_choices-IsLoaded :
      (dist : XmlNode) (choices : List Choice) (state : Option js.State) (p q : Package)
      → IsLoaded p
      → load_choices lib js dist choices state p ≡ ok q
      → IsLoaded q
  unfolding load_choices
  load_choices-IsLoaded dist [] state p q l e = subst IsLoaded (ok-inj e) l
  load_choices-IsLoaded dist (c ∷ choices) state p q l e =
      let (v, _, a) = bind-eq-ok (is_selected lib js c state) _ e in
      let (after, taken, rest) =
        bind-eq-ok
          (if v.0 then load_references lib js dist c (children_of c.node) v.1 p else ok (v.1, p)) _
          a in
      let here : IsLoaded after.1 = elim (if-cases v.0 _ _ taken) [
        | inl (_, f) ↦ load_references-IsLoaded dist c (children_of c.node) v.1 p after l f
        | inr (_, same) ↦ subst (λ (o : Option js.State × Package). IsLoaded o.1) (ok-inj same) l
      ] in
      load_choices-IsLoaded dist choices after.0 after.1 q here rest

  -- With a zlib that behaves as documented, package_resolve of a package that is well formed and has
  -- a Distribution leaves, where it succeeds, a well-formed package: valid identifiers and
  -- normalized locations, scripts that are executable entries, no identifier and no directory twice,
  -- at most 1024 components, and the decoded bytes within their limit. Its Distribution is released,
  -- and the paths of its payloads pass the check.
  pub package_resolve-IsLoaded :
      (p q : Package) (dist : XmlNode) (root : Option Bytes) (live : Bool)
      → IsLoaded p
      → p.distribution ≡ some dist
      → package_resolve lib js p root live ≡ ok q
      → IsLoaded q × (q.distribution ≡ none) × (check_payload_paths q ≡ ok tt)
  unfolding package_resolve resolve_from resolve_distribution
  package_resolve-IsLoaded p q dist root live l there e =
      let f = subst (λ d. resolve_from lib js p d root live ≡ ok q) there e in
      let (_, _, a) = bind-eq-ok (die_if (lacks_target lib js p root) needs_target) _ f in
      let (choices, _, b) =
        bind-eq-ok (outline_choices dist (xml_child dist (codes "choices-outline"))) _ a in
      let (state, _, c) = bind-eq-ok (start_engine lib js p dist choices root live) _ b in
      let (r, loaded, d) = bind-eq-ok (load_choices lib js dist choices state p) _ c in
      let (_, checked, same) =
        bind-eq-ok (check_payload_paths (record r { distribution = none })) _ d in
      let s = load_choices-IsLoaded dist choices state p r l loaded in
      subst (λ q. IsLoaded q × (q.distribution ≡ none) × (check_payload_paths q ≡ ok tt))
        (ok-inj same)
        (
          record {
            components = s.components;
            identifiers = s.identifiers;
            dirs = s.dirs;
            count = s.count;
            decoded = s.decoded;
          },
          refl,
          checked,
        )

  inspect_references-IsLoaded :
      (dist n : XmlNode) (p q : Package)
      → IsLoaded p
      → inspect_references lib dist n p ≡ ok q
      → IsLoaded q
  unfolding inspect_references
  inspect_references-IsLoaded dist null p q l e = subst IsLoaded (ok-inj e) l
  inspect_references-IsLoaded dist (text t next) p q l e =
      inspect_references-IsLoaded dist next p q l e
  inspect_references-IsLoaded dist (other next) p q l e =
      inspect_references-IsLoaded dist next p q l e
  inspect_references-IsLoaded dist (element name attributes children next) p q l e =
      let (id, _, a) =
        bind-eq-ok (xml_attr (element name attributes children next) (codes "id") none) _ e in
      let (ref, _, b) = bind-eq-ok (find_reference lib.xml dist id) _ a in
      let (r, loaded, rest) = bind-eq-ok (load_component lib p ref.target (some id) true) _ b in
      inspect_references-IsLoaded dist next r q
        (load_component-IsLoaded lib documented p r ref.target (some id) true l loaded) rest
