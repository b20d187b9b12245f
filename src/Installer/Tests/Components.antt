-- ===== src/Installer/Tests/Components.antt =====
-- Runs of `load_component`, `package_load` and `package_resolve` of pkgs/installer/package.c, on a
-- container with one component.
use minidarwin.Installer.Entries.{
  check_beneath, check_neighbours, entries_check_paths, sort_entries,
}
use minidarwin.Installer.Number.{
  parse_uint, whole, digit_value, finish, is_space, scan_digits, signed_part, skip_prefix,
  skip_spaces, strtoull, unsigned_part,
}
use minidarwin.Installer.Decoding.{
  offered, after_call, first_capacity, grow, inflate_from, inflate_limited, inflate_loop, rounds,
  accepted, decoded_account, algorithm_named, digest, hex_digit, hex_encode,
}
use minidarwin.Installer.Package.Identifier.{all_identifier, check_identifier, is_identifier_byte}
use minidarwin.Installer.Xar.{
  find_member, required_member, big_endian, big_endian_onto, header_fits, header_of, is_xar,
  read_xar_header, read_toc, xar_open, check_toc, expected_style, has_slash, in_heap, member_path,
  visit, walk_files, walk_toc, add_member, decode_member, read_member, same_text, sorted_members,
  toc_file, verify_checksum, check_members, insert_member, member_compare, sort_members,
  str_compare,
}
use minidarwin.Installer.Paths.{
  path_join, str_eq, normalize_body, normalize_onto, path_normalize, skip_slashes, skipped,
  split_slash, check_component, has_bad_character,
}
use minidarwin.Prelude.{◌≡◌, refl, arith, false, none, [], ◌∷◌, codes}
use minidarwin.Installer.Result.{ok, err, script_failed}
use minidarwin.Installer.Xml.{
  holds_nul, property, xml_attr, xml_checked, xml_is, xml_parse, xml_root, child_named, xml_child,
  xml_child_uint, xml_text,
}
use minidarwin.Installer.Package.{Component, Package, no_hooks}
use minidarwin.Installer.Package.Distribution.{Compile}
use minidarwin.Installer.Package.Selection.{check_payload_paths, append_all_entries}
use minidarwin.Installer.Package.Loading.{
  load_component, component_member, has_dir, read_component, read_info, check_bom, check_count,
  check_elements, has_identifier, optional_member, read_contents, read_scripts, unpack,
  add_component, place_entries,
}
use minidarwin.Installer.Package.Loading.Components.{IsLoaded}
use minidarwin.Installer.Package.Opening.{opened, package_load, load_bare, load_opened}
use minidarwin.Installer.Package.Opening.Checking.{IsOpened, package_load-IsLoaded}
use minidarwin.Installer.Tests.Packages.{libraries, stored-IsZlib, file, reading, bom}

abbrev component : Component
component = record {
  xar_dir = [];
  identifier = codes "a.b";
  version = codes "1";
  location = [];
  bom = bom;
  payload = [];
  scripts = [];
  hooks = no_hooks;
  metadata_only = false;
}

-- The container of the tests of xar.c, with its component.
abbrev loaded : Package
loaded = record (opened reading) { components = component ∷ [] }

opened-IsLoaded : IsLoaded (opened reading)
opened-IsLoaded = record {
  components = tt;
  identifiers = tt;
  dirs = tt;
  count = omega arith;
  decoded = omega arith;
}

load_component_run : load_component libraries (opened reading) [] none false ≡ ok loaded
unfolding load_component has_dir read_component component_member path_join required_member
    find_member str_eq xml_parse holds_nul xml_checked xml_root xml_is read_info xml_attr property
    check_identifier all_identifier offered is_identifier_byte has_identifier path_normalize
    normalize_body normalize_onto split_slash skip_slashes skipped check_elements read_contents
    optional_member unpack check_bom check_count xml_child child_named read_scripts place_entries
    add_component
load_component_run = refl

-- QuickJS is not called: every script fails.
abbrev compile : Compile
compile source expression = err script_failed

package_load_run : package_load libraries compile file 0 ≡ ok loaded
unfolding package_load xar_open read_xar_header is_xar str_eq big_endian big_endian_onto header_fits
    header_of read_toc inflate_limited inflate_from first_capacity inflate_loop rounds grow
    after_call offered accepted decoded_account xml_parse holds_nul xml_checked xml_root xml_is
    xml_child child_named check_toc xml_attr property expected_style xml_child_uint xml_text
    parse_uint whole strtoull signed_part skip_spaces is_space unsigned_part finish scan_digits
    skip_prefix digit_value digest algorithm_named in_heap walk_toc walk_files visit member_path
    has_slash path_join path_normalize normalize_body normalize_onto split_slash skipped
    check_component has_bad_character toc_file add_member read_member verify_checksum same_text
    hex_encode hex_digit decode_member sorted_members check_members sort_members insert_member
    member_compare str_compare load_opened find_member load_bare load_component has_dir
    read_component component_member required_member read_info check_identifier all_identifier
    is_identifier_byte has_identifier skip_slashes check_elements read_contents optional_member
    unpack check_bom check_count read_scripts place_entries check_payload_paths add_component
    append_all_entries entries_check_paths check_neighbours sort_entries check_beneath
package_load_run = refl

package_load-IsLoaded_example : IsLoaded loaded × IsOpened loaded
package_load-IsLoaded_example =
    package_load-IsLoaded libraries stored-IsZlib compile file 0 loaded (omega arith)
      package_load_run
