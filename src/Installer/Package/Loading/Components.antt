-- ===== src/Installer/Package/Loading/Components.antt =====
-- The list of components that `load_component` of pkgs/installer/package.c extends.
use mathlib.Core.Path.{subst}
use minidarwin.Prelude.{
  ℕ, ◌≤◌, ◌≡◌, ◌≢◌, inl, inr, refl, sym, Bool, true, false, not, Option, none, some, List, [], ◌∷◌,
  ◌++◌, Bytes, codes, All, All-append, length, length-append, leb, take, arith, Bool-cases,
}
use minidarwin.Installer.Result.{
  component_limit, unsupported_format, other_identifier, duplicate_component, out_of_fuel, ok,
  die_if, bind-eq-ok, ok-inj, if-cases, Outcome-ok,
}
use minidarwin.Installer.Paths.{str_eq, path_normalize}
use minidarwin.Installer.Paths.Prefix.{str_eq_iff}
use minidarwin.Installer.Paths.Fixed.{IsNormal, path_normalize-IsNormal}
use minidarwin.Installer.Entries.{Entry}
use minidarwin.Installer.Cpio.{cpio_parse}
use minidarwin.Installer.Xml.{XmlNode, xml_attr, xml_child, children_of, xml_parse, xml_root}
use minidarwin.Installer.Decoding.{inflate_limited, limit_decoded}
use minidarwin.Installer.Decoding.Bounds.{IsZlib, inflate_limited_bounds}
use minidarwin.Installer.Xar.{Libraries, XarMember, limit_member}
use minidarwin.Installer.Package.{no_hooks, Component, Package}
use minidarwin.Installer.Package.Identifier.{check_identifier, IsIdentifier, check_identifier_iff}
use minidarwin.Installer.Package.Loading.{
  other_than, has_dir, has_identifier, read_info, check_elements, unpack, place_entries,
  check_count, check_bom, optional_member, component_member, read_scripts, read_contents,
  add_component, read_component, load_component,
}
use minidarwin.Installer.Package.Loading.Scripts.{
  HasScripts, no_hooks-HasScripts, read_scripts-HasScripts,
}

pub record IsComponent (c : Component) : Type 0 where
  pub identifier : IsIdentifier c.identifier
  pub location : IsNormal c.location
  pub scripts : HasScripts c.scripts c.hooks

-- No two components are alike by `key`.
abbrev pub Distinct : (Component → Bytes) → List Component → Type 0
Distinct key [] = Unit {0}
Distinct key (c ∷ components) = All (λ d. key c ≢ key d) components × Distinct key components

pub record IsLoaded (p : Package) : Type 0 where
  pub components : All IsComponent p.components
  pub identifiers : Distinct (λ c. c.identifier) p.components
  pub dirs : Distinct (λ c. c.xar_dir) p.components
  pub count : length p.components ≤ 1024
  pub decoded : p.decoded ≤ limit_decoded

Distinct-append :
    (key : Component → Bytes) (components : List Component) (c : Component)
    → Distinct key components
    → All (λ d. key d ≢ key c) components
    → Distinct key (components ++ c ∷ [])
Distinct-append key [] c d a = (tt, tt)
Distinct-append key (b ∷ components) c d a =
    (All-append _ components (c ∷ []) d.0 (a.0, tt), Distinct-append key components c d.1 a.1)

has_dir-false :
    (components : List Component) (dir : Bytes)
    → has_dir components dir ≡ false
    → All (λ c. c.xar_dir ≢ dir) components
unfolding has_dir
has_dir-false [] dir h = tt
has_dir-false (c ∷ components) dir h =
    let iff = str_eq_iff c.xar_dir dir in
    ((λ e. ground arith), has_dir-false components dir (ground arith))

has_identifier-false :
    (components : List Component) (id : Bytes)
    → has_identifier components id ≡ false
    → All (λ c. c.identifier ≢ id) components
unfolding has_identifier
has_identifier-false [] id h = tt
has_identifier-false (c ∷ components) id h =
    let iff = str_eq_iff c.identifier id in
    ((λ e. ground arith), has_identifier-false components id (ground arith))

-- What PackageInfo has said of a new component.
abbrev IsNew : List Component → Bytes → Component → Type 0
IsNew components dir c =
    IsComponent c × (c.xar_dir ≡ dir) × All (λ d. d.identifier ≢ c.identifier) components

read_info-IsNew :
    (components : List Component) (dir : Bytes) (expected : Option Bytes) (info : XmlNode)
    (c : Component)
    → read_info components dir expected info ≡ ok c
    → IsNew components dir c
unfolding read_info
read_info-IsNew components dir expected info c e =
    let (format, _, a) = bind-eq-ok (xml_attr info (codes "format-version") none) _ e in
    let (_, _, b) = bind-eq-ok (die_if (not (str_eq format (codes "2"))) unsupported_format) _ a in
    let (id, _, d) = bind-eq-ok (xml_attr info (codes "identifier") none) _ b in
    let (u, valid, f) = bind-eq-ok (check_identifier id) _ d in
    let (_, _, g) = bind-eq-ok (die_if (other_than expected id) other_identifier) _ f in
    let (_, new, h) = bind-eq-ok (die_if (has_identifier components id) duplicate_component) _ g in
    let (version, _, i) = bind-eq-ok (xml_attr info (codes "version") none) _ h in
    let (place, _, j) =
      bind-eq-ok (xml_attr info (codes "install-location") (some (codes "/"))) _ i in
    let (location, normal, k) = bind-eq-ok (path_normalize place true) _ j in
    let (_, _, same) = bind-eq-ok (check_elements (children_of info)) _ k in
    subst (IsNew components dir) (ok-inj same) (
      record {
        identifier = (check_identifier_iff id).0 valid;
        location = path_normalize-IsNormal place true location normal;
        scripts = no_hooks-HasScripts [];
      },
      refl,
      has_identifier-false components id (ground arith),
    )

module _ (lib : Libraries) (documented : IsZlib lib.zlib) where
  unpack-bounded :
      (total : ℕ) (archive : Option Bytes) (out : List Entry × ℕ)
      → total ≤ limit_decoded
      → unpack lib total archive ≡ ok out
      → out.1 ≤ limit_decoded
  unfolding unpack
  unpack-bounded total none out h e = subst (λ o. o.1 ≤ limit_decoded) (ok-inj e) h
  unpack-bounded total (some archive) out h e =
      elim (Bool-cases (str_eq (take 2 archive) (0x1f ∷ 0x8b ∷ []))) [
        | inl zipped ↦
            let (o, inflated, a) =
              bind-eq-ok (inflate_limited lib.zlib total archive 31 0 limit_member) _
                (rw zipped at e) in
            let (entries, _, same) = bind-eq-ok (cpio_parse (λ _. ok o.0) archive) _ a in
            let (_, _, _, bound) =
              Outcome-ok (λ fault. fault ≢ out_of_fuel) _
                (inflate_limited lib.zlib total archive 31 0 limit_member) o
                (inflate_limited_bounds lib.zlib documented total archive 31 0 limit_member h)
                inflated in
            subst (λ o. o.1 ≤ limit_decoded) (ok-inj same) bound
        | inr plain ↦
            let (entries, _, same) = bind-eq-ok (cpio_parse ok archive) _ (rw plain at e) in
            subst (λ o. o.1 ≤ limit_decoded) (ok-inj same) h
      ]

  abbrev IsRead : List Component → Bytes → (Component × ℕ) → Type 0
  IsRead components dir out = IsNew components dir out.0 × (out.1 ≤ limit_decoded)

  read_contents-IsRead :
      (members : List XarMember) (components : List Component) (dir : Bytes) (info : XmlNode)
      (total : ℕ) (c : Component) (out : Component × ℕ)
      → total ≤ limit_decoded
      → IsNew components dir c
      → read_contents lib members dir info total c ≡ ok out
      → IsRead components dir out
  unfolding read_contents
  read_contents-IsRead members components dir info total c out h new e =
      let (payload, _, a) = bind-eq-ok (optional_member members dir (codes "Payload")) _ e in
      let (scripts, _, b) = bind-eq-ok (optional_member members dir (codes "Scripts")) _ a in
      let (files, first, d) = bind-eq-ok (unpack lib total payload) _ b in
      let (scripting, second, f) = bind-eq-ok (unpack lib files.1 scripts) _ d in
      let (bom, _, g) = bind-eq-ok (component_member members dir (codes "Bom")) _ f in
      let (_, _, i) = bind-eq-ok (check_bom bom) _ g in
      let (_, _, j) =
        bind-eq-ok (check_count (xml_child info (codes "payload")) (length files.0)) _ i in
      let (hooks, hooked, k) =
        bind-eq-ok
          (read_scripts scripting.0 (children_of (xml_child info (codes "scripts"))) no_hooks) _
          j in
      let (placed, _, same) = bind-eq-ok (place_entries c.location files.0) _ k in
      let bound =
        unpack-bounded files.1 scripts scripting (unpack-bounded total payload files h first)
          second in
      subst (IsRead components dir) (ok-inj same) (
        (
          record {
            identifier = new.0.identifier;
            location = new.0.location;
            scripts =
                read_scripts-HasScripts scripting.0 _ no_hooks hooks
                  (no_hooks-HasScripts scripting.0) hooked;
          },
          new.1,
          new.2,
        ),
        bound,
      )

  read_component-IsRead :
      (p : Package) (dir : Bytes) (expected : Option Bytes) (metadata : Bool) (out : Component × ℕ)
      → p.decoded ≤ limit_decoded
      → read_component lib p dir expected metadata ≡ ok out
      → IsRead p.components dir out
  unfolding read_component
  read_component-IsRead p dir expected metadata out h e =
      let (b, _, f) = bind-eq-ok (component_member p.members dir (codes "PackageInfo")) _ e in
      let (tree, _, g) = bind-eq-ok (xml_parse lib.xml b) _ f in
      let (info, _, i) = bind-eq-ok (xml_root tree (codes "pkg-info")) _ g in
      let (c, told, j) = bind-eq-ok (read_info p.components dir expected info) _ i in
      let new = read_info-IsNew p.components dir expected info c told in
      elim (if-cases metadata _ _ j) [
        | inl (_, same) ↦ subst (IsRead p.components dir) (ok-inj same) (new, h)
        | inr (_, k) ↦ read_contents-IsRead p.members p.components dir info p.decoded c out h new k
      ]

  -- With a zlib that behaves as documented, load_component keeps a package well formed, also where
  -- it only reads metadata or finds the component loaded already.
  pub load_component-IsLoaded :
      (p q : Package) (dir : Bytes) (expected : Option Bytes) (metadata : Bool)
      → IsLoaded p
      → load_component lib p dir expected metadata ≡ ok q
      → IsLoaded q
  unfolding load_component add_component
  load_component-IsLoaded p q dir expected metadata l e =
      elim (Bool-cases (has_dir p.components dir)) [
        | inl there ↦ subst IsLoaded (ok-inj (rw there at e)) l
        | inr absent ↦
            let (_, room, a) =
              bind-eq-ok (die_if (leb 1024 (length p.components)) component_limit) _
                (rw absent at e) in
            let (out, read, same) = bind-eq-ok (read_component lib p dir expected metadata) _ a in
            let (new, bound) = read_component-IsRead p dir expected metadata out l.decoded read in
            let others = has_dir-false p.components dir absent in
            let apart = subst (λ d. All (λ c. c.xar_dir ≢ d) p.components) (sym new.1) others in
            subst IsLoaded (ok-inj same) (record {
              components =
                  All-append IsComponent p.components (out.0 ∷ []) l.components (new.0, tt);
              identifiers =
                  Distinct-append (λ c. c.identifier) p.components out.0 l.identifiers new.2;
              dirs = Distinct-append (λ c. c.xar_dir) p.components out.0 l.dirs apart;
              count = ground (arith, length-append p.components (out.0 ∷ []));
              decoded = bound;
            })
      ]

pub load_component-distribution :
    (lib : Libraries) (p q : Package) (dir : Bytes) (expected : Option Bytes) (metadata : Bool)
    → load_component lib p dir expected metadata ≡ ok q
    → q.distribution ≡ p.distribution
unfolding load_component add_component
load_component-distribution lib p q dir expected metadata e = ground arith
