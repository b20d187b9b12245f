-- ===== src/Installer/Xml.antt =====
-- The wrappers of pkgs/installer/xml.c. A node is what libxml2 has parsed: it has its attributes,
-- its first child and the sibling that follows it, and `null` is the pointer NULL.
use minidarwin.Prelude.{
  ℕ, Bool, true, false, ◌||◌, Option, none, some, List, [], ◌∷◌, Bytes, codes, length, ltb, ◌==◌,
  if◌then◌else◌,
}
use minidarwin.Installer.Result.{
  invalid_xml, wrong_root, missing_value, missing_attribute, Result, ok, err, ◌>>=◌, ◌>>◌, die_if,
}
use minidarwin.Installer.Paths.{is_empty, str_eq}
use minidarwin.Installer.Number.{parse_uint}

abbrev pub Attributes : Type 0
Attributes = List (Bytes × Bytes)

-- `text` is an XML_TEXT_NODE or an XML_CDATA_SECTION_NODE, `other` any node of another type.
pub data XmlNode : Type 0 where
  null : XmlNode
  element : Bytes → Attributes → XmlNode → XmlNode → XmlNode
  text : Bytes → XmlNode → XmlNode
  other : XmlNode → XmlNode

-- What `xmlReadMemory` makes of a file, and `xmlNodeGetContent` of a node.
pub record Libxml : Type 0 where
  pub read : Bytes → Option (XmlNode × Bool)
  pub content : XmlNode → Bytes

abbrev pub is_missing : XmlNode → Bool
is_missing null = true
is_missing (element name attributes children next) = false
is_missing (text t next) = false
is_missing (other next) = false

unfoldable pub holds_nul : Bytes → Bool
holds_nul [] = false
holds_nul (c ∷ s) = c == 0 || holds_nul s

abbrev pub limit_xml : ℕ
limit_xml = 16777216

-- The flag is set for a document with an internal or external subset.
unfoldable pub xml_checked : Option (XmlNode × Bool) → Result XmlNode
xml_checked none = err invalid_xml
xml_checked (some (root, subset)) = if subset || is_missing root then err invalid_xml else ok root

unfoldable pub xml_parse : Libxml → Bytes → Result XmlNode
xml_parse lib b = do
  die_if (is_empty b || ltb limit_xml (length b) || holds_nul b) invalid_xml
  xml_checked (lib.read b)

unfoldable pub xml_is : XmlNode → Bytes → Bool
xml_is null name = false
xml_is (element own attributes children next) name = str_eq own name
xml_is (text t next) name = false
xml_is (other next) name = false

unfoldable pub xml_root : XmlNode → Bytes → Result XmlNode
xml_root root name = if xml_is root name then ok root else err wrong_root

unfoldable pub xml_first_element : XmlNode → XmlNode
xml_first_element null = null
xml_first_element (element name attributes children next) = element name attributes children next
xml_first_element (text t next) = xml_first_element next
xml_first_element (other next) = xml_first_element next

-- n->children and n->next
abbrev pub children_of : XmlNode → XmlNode
children_of null = null
children_of (element name attributes children next) = children
children_of (text t next) = null
children_of (other next) = null

abbrev pub next_of : XmlNode → XmlNode
next_of null = null
next_of (element name attributes children next) = next
next_of (text t next) = next
next_of (other next) = next

unfoldable pub xml_elements : XmlNode → XmlNode
xml_elements parent = xml_first_element (children_of parent)

unfoldable pub xml_next_element : XmlNode → XmlNode
xml_next_element n = xml_first_element (next_of n)

-- The loop of `xml_child`, from the first of the siblings.
unfoldable pub child_named : XmlNode → Bytes → XmlNode
child_named null name = null
child_named (element own attributes children next) name =
    let rest = child_named next name in
    if str_eq own name then element own attributes children next else rest
child_named (text t next) name = child_named next name
child_named (other next) name = child_named next name

unfoldable pub xml_child : XmlNode → Bytes → XmlNode
xml_child parent name = child_named (children_of parent) name

abbrev pub xml_name : XmlNode → Bytes
xml_name null = []
xml_name (element name attributes children next) = name
xml_name (text t next) = codes "text"
xml_name (other next) = []

unfoldable pub xml_text : Libxml → XmlNode → Result Bytes
xml_text lib n = if is_missing n then err missing_value else ok (lib.content n)

abbrev pub attributes_of : XmlNode → Attributes
attributes_of null = []
attributes_of (element name attributes children next) = attributes
attributes_of (text t next) = []
attributes_of (other next) = []

-- The value that `xmlGetProp` finds; `xmlHasProp` finds whether there is one.
unfoldable pub property : Attributes → Bytes → Option Bytes
property [] key = none
property ((k, v) ∷ attributes) key =
    let rest = property attributes key in if str_eq k key then some v else rest

abbrev pub has_prop : XmlNode → Bytes → Bool
has_prop n key = elim (property (attributes_of n) key) [ none ↦ false | some v ↦ true ]

-- A missing attribute without a fallback ends the program.
abbrev pub or_die : Option Bytes → Option Bytes → Result Bytes
or_die (some v) fallback = ok v
or_die none (some d) = ok d
or_die none none = err missing_attribute

unfoldable pub xml_attr : XmlNode → Bytes → Option Bytes → Result Bytes
xml_attr n key fallback = or_die (property (attributes_of n) key) fallback

unfoldable pub xml_child_uint : Libxml → XmlNode → Bytes → Result ℕ
xml_child_uint lib parent name = do s ← xml_text lib (xml_child parent name); parse_uint s 10
