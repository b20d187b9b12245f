-- ===== src/Installer/Package/Loading.antt =====
-- `read_scripts` and `load_component` of pkgs/installer/package.c.
pub mod Scripts
pub mod Components
use minidarwin.Prelude.{
  ℕ, ◌+◌, ◌/◌, ◌%◌, ◌≡◌, Bool, true, false, not, ◌&&◌, ◌||◌, Option, none, some, List, [], ◌∷◌,
  ◌++◌, Bytes, codes, length, take, ltb, leb, ◌==◌, if◌then◌else◌,
}
use minidarwin.Installer.Result.{
  Fault, unsupported_script, missing_script, component_limit, unsupported_format, other_identifier,
  duplicate_component, unsupported_element, invalid_bom, wrong_file_count, Result, ok, err, ◌>>=◌,
  ◌>>◌, die_if,
}
use minidarwin.Installer.Paths.{str_eq, path_join, path_normalize, symlink_check_lexical}
use minidarwin.Installer.Number.{parse_uint}
use minidarwin.Installer.Entries.{Entry, is_regular, entries_find}
use minidarwin.Installer.Cpio.{cpio_parse}
use minidarwin.Installer.Xml.{
  XmlNode, null, element, text, other, Libxml, is_missing, xml_parse, xml_root, xml_is, xml_child,
  xml_attr, xml_name, children_of,
}
use minidarwin.Installer.Decoding.{inflate_limited}
use minidarwin.Installer.Xar.{Libraries, XarMember, limit_member, find_member, required_member}
use minidarwin.Installer.Package.{
  one_of, Hook, preflight, preinstall, postinstall, postflight, Hooks, no_hooks, hook_path,
  set_hook, Component, Package,
}
use minidarwin.Installer.Package.Identifier.{check_identifier}

unfoldable pub hook_named : Bytes → Option Hook
hook_named name =
    if str_eq name (codes "preflight")
    then some preflight
    else if str_eq name (codes "preinstall")
    then some preinstall
    else if str_eq name (codes "postinstall")
    then some postinstall
    else if str_eq name (codes "postflight")
    then some postflight
    else none

abbrev pub is_set : Option Bytes → Bool
is_set none = false
is_set (some path) = true

-- mode & 0111
unfoldable pub is_executable : ℕ → Bool
is_executable mode = (mode / 64 % 2 == 1 || mode / 8 % 2 == 1) || mode % 2 == 1

abbrev pub runs : Option Entry → Bool
runs none = false
runs (some e) = is_regular e.mode && is_executable e.mode

unfoldable pub add_hook : List Entry → XmlNode → Option Hook → Hooks → Result Hooks
add_hook scripts n none h = err unsupported_script
add_hook scripts n (some hook) h = do
  die_if (is_set (hook_path h hook)) unsupported_script
  file ← xml_attr n (codes "file") none
  path ← path_normalize file false
  die_if (not (runs (entries_find scripts path))) missing_script
  ok (set_hook h hook path)

-- The loop of `read_scripts`, from one of the siblings.
unfoldable pub read_scripts : List Entry → XmlNode → Hooks → Result Hooks
read_scripts scripts null h = ok h
read_scripts scripts (text t next) h = read_scripts scripts next h
read_scripts scripts (other next) h = read_scripts scripts next h
read_scripts scripts (element name attributes children next) h = do
  set ← add_hook scripts (element name attributes children next) (hook_named name) h
  read_scripts scripts next set

abbrev pub packageinfo_elements : List Bytes
packageinfo_elements =
    codes "payload"
    ∷ codes "scripts"
    ∷ codes "bundle-version"
    ∷ codes "upgrade-bundle"
    ∷ codes "update-bundle"
    ∷ codes "atomic-update-bundle"
    ∷ codes "strict-identifier"
    ∷ codes "relocate"
    ∷ codes "bundle"
    ∷ []

unfoldable pub check_elements : XmlNode → Result (Unit {0})
check_elements null = ok tt
check_elements (text t next) = check_elements next
check_elements (other next) = check_elements next
check_elements (element name attributes children next) = do
  die_if (not (one_of name packageinfo_elements)) unsupported_element
  check_elements next

unfoldable pub has_dir : List Component → Bytes → Bool
has_dir [] dir = false
has_dir (c ∷ components) dir =
    let rest = has_dir components dir in if str_eq c.xar_dir dir then true else rest

unfoldable pub has_identifier : List Component → Bytes → Bool
has_identifier [] id = false
has_identifier (c ∷ components) id =
    let rest = has_identifier components id in if str_eq c.identifier id then true else rest

abbrev pub other_than : Option Bytes → Bytes → Bool
other_than none id = false
other_than (some expected) id = not (str_eq id expected)

-- What PackageInfo says: the component, without its payload and scripts.
unfoldable pub read_info : List Component → Bytes → Option Bytes → XmlNode → Result Component
read_info components dir expected info = do
  format ← xml_attr info (codes "format-version") none
  die_if (not (str_eq format (codes "2"))) unsupported_format
  id ← xml_attr info (codes "identifier") none
  check_identifier id
  die_if (other_than expected id) other_identifier
  die_if (has_identifier components id) duplicate_component
  version ← xml_attr info (codes "version") none
  place ← xml_attr info (codes "install-location") (some (codes "/"))
  location ← path_normalize place true
  check_elements (children_of info)
  ok (record {
    xar_dir = dir;
    identifier = id;
    version = version;
    location = location;
    bom = [];
    payload = [];
    scripts = [];
    hooks = no_hooks;
    metadata_only = true;
  })

-- `cpio_parse` of a member, if there is one, with the new total of decoded bytes.
unfoldable pub unpack : Libraries → ℕ → Option Bytes → Result (List Entry × ℕ)
unpack lib total none = ok ([], total)
unpack lib total (some archive) =
    if str_eq (take 2 archive) (0x1f ∷ 0x8b ∷ [])
    then (do
      out ← inflate_limited lib.zlib total archive 31 0 limit_member
      entries ← cpio_parse (λ _. ok out.0) archive
      ok (entries, out.1))
    else (cpio_parse ok archive >>= (λ entries. ok (entries, total)))

-- The rewritten path of an entry, and the second look at its link.
unfoldable pub place_entry : Bytes → Entry → Result Entry
place_entry location e = do
  placed ← path_join location e.path
  elim e.link [
    | none ↦ ok (record e { path = placed })
    | some target ↦ (symlink_check_lexical placed target >>= (λ _. ok (record e { path = placed })))
  ]

unfoldable pub place_entries : Bytes → List Entry → Result (List Entry)
place_entries location [] = ok []
place_entries location (e ∷ entries) = do
  placed ← place_entry location e
  rest ← place_entries location entries
  ok (placed ∷ rest)

-- The number of files that PackageInfo gives, where it gives one.
unfoldable pub check_count : XmlNode → ℕ → Result (Unit {0})
check_count count files = if is_missing count then ok tt else (do
  s ← xml_attr count (codes "numberOfFiles") none
  n ← parse_uint s 10
  die_if (not (n == files)) wrong_file_count)

unfoldable pub check_bom : Bytes → Result (Unit {0})
check_bom bom =
    die_if (ltb (length bom) 32 || not (str_eq (take 8 bom) (codes "BOMStore"))) invalid_bom

unfoldable pub optional_member : List XarMember → Bytes → Bytes → Result (Option Bytes)
optional_member members dir name = do path ← path_join dir name; ok (find_member members path)

unfoldable pub component_member : List XarMember → Bytes → Bytes → Result Bytes
component_member members dir name = do path ← path_join dir name; required_member members path

-- The payload and the scripts of a component.
unfoldable pub read_contents :
    Libraries → List XarMember → Bytes → XmlNode → ℕ → Component → Result (Component × ℕ)
read_contents lib members dir info total c = do
  payload ← optional_member members dir (codes "Payload")
  scripts ← optional_member members dir (codes "Scripts")
  files ← unpack lib total payload
  scripting ← unpack lib files.1 scripts
  bom ← component_member members dir (codes "Bom")
  check_bom bom
  check_count (xml_child info (codes "payload")) (length files.0)
  hooks ← read_scripts scripting.0 (children_of (xml_child info (codes "scripts"))) no_hooks
  placed ← place_entries c.location files.0
  ok (
    record c {
      bom = bom;
      payload = placed;
      scripts = scripting.0;
      hooks = hooks;
      metadata_only = false;
    },
    scripting.1,
  )

unfoldable pub add_component : Package → Component → ℕ → Package
add_component p c total = record p { components = p.components ++ c ∷ []; decoded = total }

-- A component that is not there yet.
unfoldable pub read_component :
    Libraries → Package → Bytes → Option Bytes → Bool → Result (Component × ℕ)
read_component lib p dir expected metadata = do
  b ← component_member p.members dir (codes "PackageInfo")
  tree ← xml_parse lib.xml b
  info ← xml_root tree (codes "pkg-info")
  c ← read_info p.components dir expected info
  if metadata then ok (c, p.decoded) else read_contents lib p.members dir info p.decoded c

unfoldable pub load_component : Libraries → Package → Bytes → Option Bytes → Bool → Result Package
load_component lib p dir expected metadata = if has_dir p.components dir then ok p else (do
  die_if (leb 1024 (length p.components)) component_limit
  out ← read_component lib p dir expected metadata
  ok (add_component p out.0 out.1))
