-- ===== src/Installer/Package/References.antt =====
-- References to components in pkgs/installer/package.c, from `embedded_reference` to
-- `find_reference`.
pub mod Found
pub mod Escaped
use minidarwin.Prelude.{
  ℕ, ◌≡◌, Bool, true, false, not, ◌&&◌, ◌||◌, Option, none, some, List, [], ◌∷◌, ◌++◌, Bytes, codes,
  length, ltb, ◌==◌, if◌then◌else◌,
}
use minidarwin.Installer.Result.{
  Fault, external_reference, invalid_reference, empty_reference, needs_javascript,
  conflicting_reference, several_locations, unresolved_reference, Result, ok, err, ◌>>=◌, ◌>>◌,
  die_if,
}
use minidarwin.Installer.Paths.{is_empty, str_eq, path_normalize}
use minidarwin.Installer.Number.{parse_uint}
use minidarwin.Installer.Xml.{
  XmlNode, null, element, text, other, Libxml, has_prop, xml_attr, xml_text, xml_is, children_of,
}

-- %41 is the byte 0x41.
unfoldable pub percent_decode : Bytes → Result Bytes
percent_decode (c ∷ a ∷ b ∷ s) =
    if c == b'%'
    then (do
      v ← parse_uint (a ∷ b ∷ []) 16
      die_if (v == 0) invalid_reference
      rest ← percent_decode s
      ok (v ∷ rest))
    else (percent_decode (a ∷ b ∷ s) >>= (λ rest. ok (c ∷ rest)))
percent_decode (c ∷ a ∷ []) = ok (c ∷ a ∷ [])
percent_decode (c ∷ []) = ok (c ∷ [])
percent_decode [] = ok []

unfoldable pub embedded_reference : Bytes → Result Bytes
embedded_reference [] = err external_reference
embedded_reference (c ∷ ref) = do
  die_if (not (c == b'#')) external_reference
  decoded ← percent_decode ref
  path ← path_normalize decoded false
  die_if (is_empty path) empty_reference
  ok path

unfoldable pub static_boolean : XmlNode → Bytes → Result Bool
static_boolean n key = do
  v ← xml_attr n key (some (codes "true"))
  die_if (not (str_eq v (codes "true")) && not (str_eq v (codes "false"))) needs_javascript
  ok (str_eq v (codes "true"))

pub record Reference : Type 0 where
  pub path : Option Bytes
  pub active : Option Bytes
  pub version : Option Bytes
  pub found : Bool

abbrev pub conflicts : Option Bytes → Bytes → Bool
conflicts none value = false
conflicts (some v) value = not (str_eq v value)

-- *out ? *out : value
abbrev pub first_value : Option Bytes → Bytes → Option Bytes
first_value none value = some value
first_value (some v) value = some v

unfoldable pub merge_attribute : Option Bytes → XmlNode → Bytes → Result (Option Bytes)
merge_attribute out n key = if not (has_prop n key) then ok out else (do
  value ← xml_attr n key none
  die_if (conflicts out value) conflicting_reference
  ok (first_value out value))

-- ' ', '\t', '\r' or '\n'
unfoldable pub is_blank : ℕ → Bool
is_blank c = ((c == 32 || c == 9) || c == 13) || c == 10

unfoldable pub skip_blanks : Bytes → Bytes
skip_blanks [] = []
skip_blanks (c ∷ s) = let rest = skip_blanks s in if is_blank c then rest else c ∷ s

-- without the blanks at its end
unfoldable pub drop_blanks : Bytes → Bytes
drop_blanks [] = []
drop_blanks (c ∷ s) =
    let rest = drop_blanks s in if is_blank c && is_empty rest then [] else c ∷ rest

unfoldable pub trim : Bytes → Bytes
trim s = drop_blanks (skip_blanks s)

abbrev pub has_path : Option Bytes → Bool
has_path none = false
has_path (some p) = true

-- A text inside a pkg-ref.
unfoldable pub add_location : Bytes → Reference → Result Reference
add_location start ref = if is_empty start then ok ref else (do
  die_if (has_path ref.path) several_locations
  path ← embedded_reference start
  ok (record ref { path = some path }))

-- The loop over the children of a pkg-ref.
unfoldable pub add_locations : Libxml → XmlNode → Reference → Result Reference
add_locations lib null ref = ok ref
add_locations lib (element name attributes children next) ref = add_locations lib next ref
add_locations lib (other next) ref = add_locations lib next ref
add_locations lib (text t next) ref = do
  s ← xml_text lib (text t next)
  r ← add_location (trim s) ref
  add_locations lib next r

-- One pkg-ref of the document, of this identifier or another.
unfoldable pub add_reference : Libxml → XmlNode → Bytes → Reference → Result Reference
add_reference lib n id ref = do
  own ← xml_attr n (codes "id") none
  if not (str_eq own id) then ok ref else (do
    active ← merge_attribute ref.active n (codes "active")
    version ← merge_attribute ref.version n (codes "version")
    add_locations lib (children_of n)
        (record ref { active = active; version = version; found = true }))

unfoldable pub collect_reference : Libxml → XmlNode → Bytes → Reference → Result Reference
collect_reference lib null id ref = ok ref
collect_reference lib (text t next) id ref = collect_reference lib next id ref
collect_reference lib (other next) id ref = collect_reference lib next id ref
collect_reference lib (element name attributes children next) id ref = do
  r ←
      (if str_eq name (codes "pkg-ref")
        then add_reference lib (element name attributes children next) id ref
        else ok ref)
  q ← collect_reference lib children id r
  collect_reference lib next id q

abbrev pub no_reference : Reference
no_reference = record { path = none; active = none; version = none; found = false }

-- A reference that has been resolved, with its path.
pub record Resolved : Type 0 where
  pub target : Bytes
  pub activity : Option Bytes
  pub release : Option Bytes

abbrev pub resolved : Reference → Option Bytes → Result Resolved
resolved ref none = err unresolved_reference
resolved ref (some path) =
    ok (record { target = path; activity = ref.active; release = ref.version })

unfoldable pub find_reference : Libxml → XmlNode → Bytes → Result Resolved
find_reference lib dist id = do
  ref ← collect_reference lib (children_of dist) id no_reference
  die_if (not ref.found) unresolved_reference
  resolved ref ref.path
