-- ===== src/Installer/Package/Distribution.antt =====
-- The checks of a Distribution in pkgs/installer/package.c, from `validate_distribution` to
-- `check_choices`.
pub mod Outline
use minidarwin.Prelude.{
  ℕ, ◌+◌, ◌≡◌, Bool, true, false, not, ◌&&◌, ◌||◌, Option, none, some, List, [], ◌∷◌, ◌++◌, Bytes,
  codes, length, ltb, leb, ◌==◌, if◌then◌else◌,
}
use minidarwin.Installer.Result.{
  Fault, unsupported_element, needs_javascript, distribution_nesting, unsupported_attribute,
  external_script, invalid_os_version, duplicate_choice, unresolved_choice, outline_nesting,
  repeated_choice, choice_limit, missing_choice, unsupported_choice_content, Result, ok, err, ◌>>=◌,
  ◌>>◌, die_if,
}
use minidarwin.Installer.Paths.{is_empty, str_eq, limit_depth}
use minidarwin.Installer.Xml.{
  XmlNode, null, element, text, other, Attributes, Libxml, has_prop, is_missing, xml_attr, xml_text,
  xml_is, children_of, attributes_of,
}
use minidarwin.Installer.Package.{one_of, Package}
use minidarwin.Installer.Package.References.{static_boolean, find_reference}

abbrev pub distribution_elements : List Bytes
distribution_elements =
    codes "installer-script"
    ∷ codes "installer-gui-script"
    ∷ codes "title"
    ∷ codes "options"
    ∷ codes "domains"
    ∷ codes "background"
    ∷ codes "background-darkAqua"
    ∷ codes "welcome"
    ∷ codes "readme"
    ∷ codes "license"
    ∷ codes "conclusion"
    ∷ codes "product"
    ∷ codes "choices-outline"
    ∷ codes "line"
    ∷ codes "choice"
    ∷ codes "pkg-ref"
    ∷ codes "bundle-version"
    ∷ codes "bundle"
    ∷ codes "must-close"
    ∷ codes "app"
    ∷ codes "script"
    ∷ codes "installation-check"
    ∷ codes "volume-check"
    ∷ codes "allowed-os-versions"
    ∷ codes "os-version"
    ∷ []

abbrev pub expression_attributes : List Bytes
expression_attributes = codes "selected" ∷ codes "enabled" ∷ codes "visible" ∷ codes "active" ∷ []

abbrev pub initial_attributes : List Bytes
initial_attributes = codes "start_selected" ∷ codes "start_enabled" ∷ codes "start_visible" ∷ []

-- Compiles a source, as an expression or as a script, without running it: installer_js_compile, which
-- is QuickJS.
abbrev pub Compile : Type 0
Compile = Bytes → Bool → Result (Unit {0})

abbrev pub is_literal : Bytes → Bool
is_literal source = str_eq source (codes "true") || str_eq source (codes "false")

unfoldable pub check_expression : Compile → XmlNode → Bytes → Bool → Package → Result Package
check_expression compile n key require_scripts p = do
  source ← xml_attr n key none
  compile source true
  if is_literal source
      then ok p
      else (if require_scripts then ok (record p { needs_js = true }) else err needs_javascript)

-- One round of the loop over the attributes.
unfoldable pub check_attribute : Compile → XmlNode → Bytes → Bool → Package → Result Package
check_attribute compile n key require_scripts p = do
  (if one_of key initial_attributes then (static_boolean n key >>= (λ _. ok tt)) else ok tt)
  q ←
      (if one_of key expression_attributes
        then check_expression compile n key require_scripts p
        else ok p)
  die_if (str_eq key (codes "onConclusionScript")) unsupported_attribute
  ok q

unfoldable pub check_attributes : Compile → XmlNode → Attributes → Bool → Package → Result Package
check_attributes compile n [] require_scripts p = ok p
check_attributes compile n ((key, v) ∷ attributes) require_scripts p = do
  q ← check_attribute compile n key require_scripts p
  check_attributes compile n attributes require_scripts q

unfoldable pub check_script : Libxml → Compile → XmlNode → Package → Result Package
check_script lib compile n p = if not (xml_is n (codes "script")) then ok p else (do
  die_if (has_prop n (codes "src")) external_script
  source ← xml_text lib n
  compile source false
  ok (record p { needs_js = true }))

unfoldable pub check_installation : Compile → XmlNode → Package → Result Package
check_installation compile n p =
    if not (xml_is n (codes "installation-check") || xml_is n (codes "volume-check"))
    then ok p
    else (do
      source ← xml_attr n (codes "script") none
      compile source false
      ok (record p { needs_js = true }))

-- strchr("0123456789.", c)
unfoldable pub is_dotted : Bytes → Bool
is_dotted [] = true
is_dotted (c ∷ s) = ((leb b'0' c && leb c b'9') || c == b'.') && is_dotted s

unfoldable pub check_version_attributes : Attributes → Bytes → Bytes → Result (Unit {0})
check_version_attributes [] min before = ok tt
check_version_attributes ((key, v) ∷ attributes) min before = do
  die_if (not (str_eq key (codes "min")) && not (str_eq key (codes "before"))) invalid_os_version
  die_if (not (is_dotted (if str_eq key (codes "min") then min else before))) invalid_os_version
  check_version_attributes attributes min before

abbrev pub after_others : Option Bytes → Bytes
after_others none = []
after_others (some known) = known ++ codes ", "

-- The range in words, behind those of the elements before it.
unfoldable pub describe_range : Option Bytes → Bytes → Bytes → Bytes
describe_range known min before =
    after_others known
    ++ ((if is_empty min then [] else codes ">= ")
        ++ (min
            ++ ((if not (is_empty min) && not (is_empty before) then codes " and " else [])
                ++ ((if is_empty before then [] else codes "< ") ++ before))))

unfoldable pub check_os_version : XmlNode → Package → Result Package
check_os_version n p = if not (xml_is n (codes "os-version")) then ok p else (do
  min ← xml_attr n (codes "min") (some [])
  before ← xml_attr n (codes "before") (some [])
  check_version_attributes (attributes_of n) min before
  die_if (is_empty min && is_empty before) invalid_os_version
  ok (record p { allowed_os_versions = some (describe_range p.allowed_os_versions min before) }))

abbrev pub is_known : Option Bytes → Bool
is_known none = false
is_known (some s) = true

unfoldable pub read_options : XmlNode → Package → Result Package
read_options n p =
    if not (xml_is n (codes "options")) || is_known p.host_architectures then ok p else (do
      arch ← xml_attr n (codes "hostArchitectures") (some [])
      ok (if is_empty arch then p else record p { host_architectures = some arch }))

-- All that is checked at one element.
unfoldable pub check_element : Libxml → Compile → XmlNode → Bytes → Bool → Package → Result Package
check_element lib compile n name require_scripts p = do
  die_if (not (one_of name distribution_elements)) unsupported_element
  a ← check_attributes compile n (attributes_of n) require_scripts p
  b ← check_script lib compile n a
  c ← check_installation compile n b
  d ← check_os_version n c
  read_options n d

-- The loop of `validate_distribution`, from one of the siblings; the depth is checked where the
-- function is called.
unfoldable pub validate_siblings : Libxml → Compile → ℕ → Bool → XmlNode → Package → Result Package
validate_siblings lib compile depth require_scripts null p = ok p
validate_siblings lib compile depth require_scripts (text t next) p =
    validate_siblings lib compile depth require_scripts next p
validate_siblings lib compile depth require_scripts (other next) p =
    validate_siblings lib compile depth require_scripts next p
validate_siblings lib compile depth require_scripts (element name attributes children next) p = do
  q ← check_element lib compile (element name attributes children next) name require_scripts p
  die_if (ltb limit_depth (depth + 1)) distribution_nesting
  r ← validate_siblings lib compile (depth + 1) require_scripts children q
  validate_siblings lib compile depth require_scripts next r

unfoldable pub validate_distribution : Libxml → Compile → XmlNode → Bool → Package → Result Package
validate_distribution lib compile dist require_scripts p =
    validate_siblings lib compile 0 require_scripts dist p

-- The loop of `find_choice`; `found` is what it has found.
unfoldable pub search_choice : XmlNode → Bytes → XmlNode → Result XmlNode
search_choice null id found = ok found
search_choice (text t next) id found = search_choice next id found
search_choice (other next) id found = search_choice next id found
search_choice (element name attributes children next) id found =
    let rest = search_choice next id found in
    let taken = search_choice next id (element name attributes children next) in
    if not (str_eq name (codes "choice")) then rest else (do
      own ← xml_attr (element name attributes children next) (codes "id") none
      if not (str_eq own id)
          then rest
          else (die_if (not (is_missing found)) duplicate_choice >> taken))

unfoldable pub find_choice : XmlNode → Bytes → Result XmlNode
find_choice dist id = do
  n ← search_choice (children_of dist) id null
  die_if (is_missing n) unresolved_choice
  ok n

-- The value of the choice is the engine's, under its identifier.
pub record Choice : Type 0 where
  pub id : Bytes
  pub node : XmlNode

unfoldable pub has_choice : List Choice → Bytes → Bool
has_choice [] id = false
has_choice (c ∷ choices) id = str_eq c.id id || has_choice choices id

-- One line of the outline, without the lines below it.
unfoldable pub add_line : XmlNode → XmlNode → Bytes → List Choice → Result (List Choice)
add_line dist line name choices = do
  die_if (not (str_eq name (codes "line"))) unsupported_element
  id ← xml_attr line (codes "choice") none
  die_if (has_choice choices id) repeated_choice
  die_if (leb 1024 (length choices)) choice_limit
  node ← find_choice dist id
  ok (choices ++ record { id = id; node = node } ∷ [])

-- The loop of `outline_choices`, from one of the siblings.
unfoldable pub outline_lines : XmlNode → ℕ → XmlNode → List Choice → Result (List Choice)
outline_lines dist depth null choices = ok choices
outline_lines dist depth (text t next) choices = outline_lines dist depth next choices
outline_lines dist depth (other next) choices = outline_lines dist depth next choices
outline_lines dist depth (element name attributes children next) choices = do
  here ← add_line dist (element name attributes children next) name choices
  die_if (ltb limit_depth (depth + 1)) outline_nesting
  below ← outline_lines dist (depth + 1) children here
  outline_lines dist depth next below

unfoldable pub outline_choices : XmlNode → XmlNode → Result (List Choice)
outline_choices dist outline = outline_lines dist 0 (children_of outline) []

-- The content of a choice.
unfoldable pub check_contents : Libxml → XmlNode → XmlNode → Result (Unit {0})
check_contents lib dist null = ok tt
check_contents lib dist (text t next) = check_contents lib dist next
check_contents lib dist (other next) = check_contents lib dist next
check_contents lib dist (element name attributes children next) = do
  die_if (not (str_eq name (codes "pkg-ref"))) unsupported_choice_content
  id ← xml_attr (element name attributes children next) (codes "id") none
  ref ← find_reference lib dist id
  check_contents lib dist next

unfoldable pub check_choice : Libxml → XmlNode → List Choice → XmlNode → Result (Unit {0})
check_choice lib dist choices n = do
  id ← xml_attr n (codes "id") none
  same ← find_choice dist id
  die_if (not (has_choice choices id)) missing_choice
  check_contents lib dist (children_of n)

-- The loop of `check_choices`, from one of the siblings.
unfoldable pub check_choices : Libxml → XmlNode → List Choice → XmlNode → Result (Unit {0})
check_choices lib dist choices null = ok tt
check_choices lib dist choices (text t next) = check_choices lib dist choices next
check_choices lib dist choices (other next) = check_choices lib dist choices next
check_choices lib dist choices (element name attributes children next) = do
  (if str_eq name (codes "choice")
      then check_choice lib dist choices (element name attributes children next)
      else ok tt)
  check_choices lib dist choices next
