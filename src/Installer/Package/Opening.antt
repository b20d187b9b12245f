-- ===== src/Installer/Package/Opening.antt =====
-- `package_resolve`, `package_inspect_candidates` and `package_load` of pkgs/installer/package.c.
pub mod Resolving
pub mod Checking
use minidarwin.Prelude.{
  ℕ, ◌≡◌, Bool, true, false, not, ◌&&◌, ◌||◌, Option, none, some, List, [], ◌∷◌, Bytes, codes,
  if◌then◌else◌,
}
use minidarwin.Installer.Result.{
  Fault, needs_target, unsupported_distribution, missing_outline, duplicate_element, Result, ok,
  err, ◌>>=◌, ◌>>◌, die_if,
}
use minidarwin.Installer.Paths.{str_eq}
use minidarwin.Installer.Xml.{
  XmlNode, null, element, text, other, Libxml, is_missing, xml_attr, xml_text, xml_is, xml_child,
  xml_parse, children_of,
}
use minidarwin.Installer.Xar.{Libraries, Reading, xar_open, find_member}
use minidarwin.Installer.Package.{Component, Package}
use minidarwin.Installer.Package.References.{static_boolean, find_reference}
use minidarwin.Installer.Package.Loading.{load_component}
use minidarwin.Installer.Package.Distribution.{
  Compile, Choice, outline_choices, check_choices, validate_distribution,
}
use minidarwin.Installer.Package.Selection.{
  Engine, selected, settle_choices, initialize_choices, check_payload_paths,
}

module _ (lib : Libraries) (js : Engine) where
  -- `none` is a package without scripts, whose pointer to the engine is NULL.
  unfoldable pub is_selected : Choice → Option js.State → Result (Bool × Option js.State)
  is_selected c (some s) = do v ← js.read s c.id selected; ok (v.0, some v.1)
  is_selected c none = do
    start ← static_boolean c.node (codes "start_selected")
    now ← (if start then static_boolean c.node (codes "selected") else ok false)
    ok (now, none)

  unfoldable pub is_active :
      Choice → Option Bytes → Option js.State → Result (Bool × Option js.State)
  is_active c none state = ok (true, state)
  is_active c (some source) none = ok (str_eq source (codes "true"), none)
  is_active c (some source) (some s) = do v ← js.evaluate s c.id source; ok (v.0, some v.1)

  -- The loop over the references of a selected choice, from one of the siblings.
  unfoldable pub load_references :
      XmlNode → Choice → XmlNode → Option js.State → Package → Result (Option js.State × Package)
  load_references dist c null state p = ok (state, p)
  load_references dist c (text t next) state p = load_references dist c next state p
  load_references dist c (other next) state p = load_references dist c next state p
  load_references dist c (element name attributes children next) state p = do
    id ← xml_attr (element name attributes children next) (codes "id") none
    ref ← find_reference lib.xml dist id
    active ← is_active c ref.activity state
    q ← (if active.0 then load_component lib p ref.target (some id) false else ok p)
    load_references dist c next active.1 q

  unfoldable pub load_choices : XmlNode → List Choice → Option js.State → Package → Result Package
  load_choices dist [] state p = ok p
  load_choices dist (c ∷ choices) state p = do
    v ← is_selected c state
    after ← (if v.0 then load_references dist c (children_of c.node) v.1 p else ok (v.1, p))
    load_choices dist choices after.0 after.1

  unfoldable pub run_script : XmlNode → js.State → Result js.State
  run_script script s =
      if is_missing script then ok s else (do source ← xml_text lib.xml script; js.run s source)

  -- What the scripts of the package decide before a choice is read.
  unfoldable pub prepare : XmlNode → List Choice → Bytes → Bool → Result js.State
  prepare dist choices root live = do
    s ← js.start root live
    a ← initialize_choices lib.xml js dist choices s
    b ← run_script (xml_child dist (codes "script")) a
    c ← js.inspect b (xml_child dist (codes "installation-check"))
    d ← js.inspect c (xml_child dist (codes "volume-check"))
    settle_choices js choices d

  -- `installer_js_new` only where the package needs it.
  unfoldable pub start_engine :
      Package → XmlNode → List Choice → Option Bytes → Bool → Result (Option js.State)
  start_engine p dist choices none live = if p.needs_js then err needs_target else ok none
  start_engine p dist choices (some root) live =
      if p.needs_js then (prepare dist choices root live >>= (λ s. ok (some s))) else ok none

  unfoldable pub resolve_distribution : Package → XmlNode → Option Bytes → Bool → Result Package
  resolve_distribution p dist root live = do
    choices ← outline_choices dist (xml_child dist (codes "choices-outline"))
    state ← start_engine p dist choices root live
    q ← load_choices dist choices state p
    check_payload_paths (record q { distribution = none })
    ok (record q { distribution = none })

  abbrev pub lacks_target : Package → Option Bytes → Bool
  lacks_target p none = p.needs_js
  lacks_target p (some root) = false

  unfoldable pub resolve_from : Package → Option XmlNode → Option Bytes → Bool → Result Package
  resolve_from p none root live = ok p
  resolve_from p (some dist) root live = do
    die_if (lacks_target p root) needs_target
    resolve_distribution p dist root live

  unfoldable pub package_resolve : Package → Option Bytes → Bool → Result Package
  package_resolve p root live = resolve_from p p.distribution root live

module _ (lib : Libraries) where
  unfoldable pub inspect_references : XmlNode → XmlNode → Package → Result Package
  inspect_references dist null p = ok p
  inspect_references dist (text t next) p = inspect_references dist next p
  inspect_references dist (other next) p = inspect_references dist next p
  inspect_references dist (element name attributes children next) p = do
    id ← xml_attr (element name attributes children next) (codes "id") none
    ref ← find_reference lib.xml dist id
    q ← load_component lib p ref.target (some id) true
    inspect_references dist next q

  unfoldable pub inspect_choices : XmlNode → XmlNode → Package → Result Package
  inspect_choices dist null p = ok p
  inspect_choices dist (text t next) p = inspect_choices dist next p
  inspect_choices dist (other next) p = inspect_choices dist next p
  inspect_choices dist (element name attributes children next) p = do
    q ← (if str_eq name (codes "choice") then inspect_references dist children p else ok p)
    inspect_choices dist next q

  unfoldable pub package_inspect_candidates : Package → XmlNode → Result Package
  package_inspect_candidates p dist = do
    q ← inspect_choices dist (children_of dist) p
    ok (record q { unresolved = true })

-- Whether two of the siblings have this name; `seen` is whether one before them has.
unfoldable pub is_repeated : Bool → XmlNode → Bytes → Bool
is_repeated seen null name = false
is_repeated seen (text t next) name = is_repeated seen next name
is_repeated seen (other next) name = is_repeated seen next name
is_repeated seen (element own attributes children next) name =
    let rest = is_repeated seen next name in
    let after = is_repeated true next name in if str_eq own name then (seen || after) else rest

abbrev pub unique_elements : List Bytes
unique_elements =
    codes "script"
    ∷ codes "installation-check"
    ∷ codes "volume-check"
    ∷ codes "options"
    ∷ codes "choices-outline"
    ∷ []

unfoldable pub check_unique : XmlNode → List Bytes → Result (Unit {0})
check_unique dist [] = ok tt
check_unique dist (name ∷ names) = do
  die_if (is_repeated false (children_of dist) name) duplicate_element
  check_unique dist names

abbrev pub opened : Reading → Package
opened r = record {
  members = r.members;
  decoded = r.decoded;
  components = [];
  host_architectures = none;
  allowed_os_versions = none;
  distribution = none;
  needs_js = false;
  unresolved = false;
}

-- A package without a Distribution is one component.
unfoldable pub load_bare : Libraries → Package → Result Package
load_bare lib p = do q ← load_component lib p [] none false; check_payload_paths q; ok q

unfoldable pub load_distribution : Libraries → Compile → Package → Bytes → Result Package
load_distribution lib compile p distribution = do
  dist ← xml_parse lib.xml distribution
  die_if
      (not (xml_is dist (codes "installer-script"))
        && not (xml_is dist (codes "installer-gui-script")))
      unsupported_distribution
  die_if (is_missing (xml_child dist (codes "choices-outline"))) missing_outline
  check_unique dist unique_elements
  require_scripts ← static_boolean (xml_child dist (codes "options")) (codes "require-scripts")
  q ←
      validate_distribution lib.xml compile dist require_scripts
        (record p { distribution = some dist })
  choices ← outline_choices dist (xml_child dist (codes "choices-outline"))
  check_choices lib.xml dist choices (children_of dist)
  ok q

unfoldable pub load_opened : Libraries → Compile → Package → Option Bytes → Result Package
load_opened lib compile p none = load_bare lib p
load_opened lib compile p (some distribution) = load_distribution lib compile p distribution

-- `file` is what stands at the path of the package.
unfoldable pub package_load : Libraries → Compile → Bytes → ℕ → Result Package
package_load lib compile file total = do
  r ← xar_open lib file total
  load_opened lib compile (opened r) (find_member r.members (codes "Distribution"))
