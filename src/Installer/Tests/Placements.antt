-- ===== src/Installer/Tests/Placements.antt =====
-- A payload for "etc", which is a link of the root.
use minidarwin.Installer.Paths.{
  ends_in_slash, last_slash, path_join, path_parent, str_eq, path_has_prefix, split_slash,
}
use minidarwin.Prelude.{
  ℕ, Option, ◌≡◌, refl, true, false, none, some, [], ◌∷◌, Bytes, List, All, codes,
}
use minidarwin.Installer.Result.{ok, err, reserved_path}
use minidarwin.Installer.Entries.{
  Entry, file_type, is_directory, check_ancestors, check_beneath, check_neighbours, entries_append,
  entries_check_paths, entry_compare, insert_entry, is_duplicate, order_byte, path_compare,
  sort_entries, ancestors, ancestors_from, is_blocked, search_path,
}
use minidarwin.Installer.Tree.{Node, directory, symlink, empty, entry, find}
use minidarwin.Installer.Resolve.{
  Target, advance, after_slash, enter, first_name, go_into, resolve_target_path, walk, follow_link,
  splice,
}
use minidarwin.Installer.Package.{no_hooks, Component, Package}
use minidarwin.Installer.Placement.{
  place_payload, preflight, check_payload_symlinks, place_components, place_entry, place_list,
  placed_path, resolve_beneath, base_name, is_reserved, moved, check_open, check_parents,
  check_places, check_record, check_records, check_target, check_targets, has_hook, path_exists,
  skip_hooks, would_replace,
}
use minidarwin.Installer.Placement.Placed.{
  PayloadPlaced, place_payload-PayloadPlaced, LeadsInside, check_payload_symlinks-LeadsInside,
}
use minidarwin.Installer.Placement.Admitted.{IsAdmitted, preflight-IsAdmitted}

-- etc -> e, and e is a directory
abbrev tree : Node
tree =
    directory
      (entry (codes "etc") (symlink (codes "e")) (entry (codes "e") (directory empty) empty))

abbrev target : Target
target = record { tree = tree; base = codes "/r"; follow_last = true; live = false }

abbrev entry_at : Bytes → ℕ → Option Bytes → Entry
entry_at path mode link = record {
  path = path;
  package_path = none;
  change = none;
  link = link;
  mode = mode;
  uid = 0;
  gid = 0;
  mtime = 5;
  contents = [];
}

-- the directory "etc", the file "etc/x", and the link "etc/l" to "x"
abbrev payload : List Entry
payload =
    entry_at (codes "etc") 0o40755 none
    ∷ entry_at (codes "etc/x") 0o100644 none
    ∷ entry_at (codes "etc/l") 0o120755 (some (codes "x"))
    ∷ []

abbrev component_of : List Entry → Component
component_of entries = record {
  xar_dir = [];
  identifier = codes "a.b";
  version = codes "1";
  location = [];
  bom = [];
  payload = entries;
  scripts = [];
  hooks = no_hooks;
  metadata_only = false;
}

abbrev package_of : List Entry → Package
package_of entries = record {
  members = [];
  decoded = 0;
  components = component_of entries ∷ [];
  host_architectures = none;
  allowed_os_versions = none;
  distribution = none;
  needs_js = false;
  unresolved = false;
}

-- the entries in the directory "e"
abbrev moved_payload : List Entry
moved_payload =
    record (entry_at (codes "e") 0o40755 none) { package_path = some (codes "etc") }
    ∷ record (entry_at (codes "e/x") 0o100644 none) { package_path = some (codes "etc/x") }
    ∷ record (entry_at (codes "e/l") 0o120755 (some (codes "x"))) {
      package_path = some (codes "etc/l");
    }
    ∷ []

place_run : place_payload target (package_of payload) ≡ ok (package_of moved_payload)
unfolding place_payload place_components place_list place_entry placed_path is_directory file_type
    resolve_beneath resolve_target_path walk advance first_name str_eq go_into path_join enter find
    check_payload_symlinks path_parent last_slash ends_in_slash after_slash follow_link splice
    is_reserved path_has_prefix moved entries_append base_name entries_check_paths check_neighbours
    sort_entries insert_entry entry_compare path_compare order_byte is_duplicate check_beneath
    check_ancestors preflight ancestors ancestors_from is_blocked search_path
place_run = refl

preflight_run : preflight target false false (package_of payload) ≡ ok (package_of moved_payload)
unfolding preflight place_payload place_components place_list place_entry placed_path is_directory
    file_type resolve_beneath resolve_target_path walk advance first_name str_eq go_into path_join
    enter check_payload_symlinks path_parent last_slash ends_in_slash find after_slash follow_link
    splice is_reserved path_has_prefix moved entries_append base_name entries_check_paths
    check_neighbours sort_entries insert_entry entry_compare path_compare order_byte is_duplicate
    check_beneath check_ancestors ancestors ancestors_from is_blocked search_path check_targets
    check_target has_hook skip_hooks check_records check_record check_parents check_open split_slash
    path_exists check_places would_replace
preflight_run = refl

links_run : check_payload_symlinks target moved_payload ≡ ok tt
unfolding check_payload_symlinks path_join path_parent last_slash resolve_beneath
    resolve_target_path walk advance first_name str_eq go_into ends_in_slash enter find after_slash
    place_payload place_components place_list place_entry placed_path is_directory file_type
links_run = refl

-- a payload for the installer's own directory
reserved_run :
    place_payload target (package_of (entry_at (codes ".mdpkg-scripts/x") 0o100644 none ∷ []))
    ≡ err reserved_path
unfolding place_payload place_components place_list place_entry placed_path is_directory file_type
    resolve_beneath resolve_target_path walk path_parent last_slash advance first_name str_eq
    go_into path_join enter find after_slash base_name is_reserved path_has_prefix moved
    ends_in_slash
reserved_run = refl

place_payload-PayloadPlaced_example :
    PayloadPlaced target (package_of payload) (package_of moved_payload)
place_payload-PayloadPlaced_example =
    place_payload-PayloadPlaced target (package_of payload) (package_of moved_payload) refl
      place_run

preflight-IsAdmitted_example :
    IsAdmitted target false false (package_of payload) (package_of moved_payload)
preflight-IsAdmitted_example =
    preflight-IsAdmitted target false false (package_of payload) (package_of moved_payload)
      preflight_run

check_payload_symlinks-LeadsInside_example : All (LeadsInside target) moved_payload
check_payload_symlinks-LeadsInside_example =
    check_payload_symlinks-LeadsInside target moved_payload refl links_run
