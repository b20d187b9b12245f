-- ===== src/Installer/Placement.antt =====
-- Where the entries of a payload go, pkgs/installer/install.c: `place_payload` and `preflight`, on
-- the tree that the root holds.
pub mod Names
pub mod Placed
pub mod Admitted
use minidarwin.Prelude.{
  ℕ, suc, ◌-◌, Bool, true, false, not, ◌&&◌, ◌||◌, Option, none, some, List, [], ◌∷◌, ◌++◌, Bytes,
  codes, take, drop, if◌then◌else◌,
}
use minidarwin.Installer.Result.{
  Fault, reserved_path, already_installed, replaces_file, no_runner, reserved_exists,
  not_a_directory, stat_failed, Result, ok, err, ◌>>=◌, ◌>>◌, die_if,
}
use minidarwin.Installer.Paths.{
  path_max, is_empty, str_eq, path_join, last_slash, path_parent, path_has_prefix, split_slash,
}
use minidarwin.Installer.Paths.Components.{join}
use minidarwin.Installer.Entries.{
  Entry, is_directory, entries_append, ancestors, entries_check_paths,
}
use minidarwin.Installer.Tree.{Node, is_dir, Found, missing, found, blocked, find}
use minidarwin.Installer.Resolve.{Target, resolve_target_path}
use minidarwin.Installer.Package.{Hooks, no_hooks, Component, Package}

abbrev pub receipts_dir : Bytes
receipts_dir = codes "private/var/db/receipts"

abbrev pub inventory_dir : Bytes
inventory_dir = codes "private/var/db/mdpkg"

abbrev pub scripts_dir : Bytes
scripts_dir = codes ".mdpkg-scripts"

unfoldable pub is_reserved : Bytes → Bool
is_reserved path =
    path_has_prefix path receipts_dir
    || (path_has_prefix path inventory_dir || path_has_prefix path scripts_dir)

-- `resolve_beneath(tx.root, rel, 1)`, as the text of the path
unfoldable pub resolve_beneath : Target → Bytes → Result Bytes
resolve_beneath t rel = do
  ns ← resolve_target_path (record t { follow_last = true }) rel
  ok (join ns)

-- what stands behind the last slash
unfoldable pub base_name : Bytes → Bytes
base_name path = elim (last_slash path) [ none ↦ path | some i ↦ drop (suc i) path ]

unfoldable pub placed_path : Target → Entry → Result Bytes
placed_path t e = if is_directory e.mode then resolve_beneath t e.path else (do
  resolved ← resolve_beneath t (path_parent e.path)
  path_join resolved (base_name e.path))

unfoldable pub moved : Entry → Bytes → Entry
moved e placed =
    if str_eq placed e.path then e else record e { package_path = some e.path; path = placed }

unfoldable pub place_entry : Target → Entry → Result Entry
place_entry t e = do
  placed ← placed_path t e
  die_if (is_reserved (moved e placed).path) reserved_path
  ok (moved e placed)

-- The payload with its new paths, and the list of all entries so far.
unfoldable pub place_list : Target → List Entry → List Entry → Result (List Entry × List Entry)
place_list t all [] = ok ([], all)
place_list t all (e ∷ payload) = do
  first ← place_entry t e
  longer ← entries_append all first
  rest ← place_list t longer payload
  ok (first ∷ rest.0, rest.1)

unfoldable pub place_components :
    Target → List Entry → List Component → Result (List Component × List Entry)
place_components t all [] = ok ([], all)
place_components t all (c ∷ components) = do
  placed ← place_list t all c.payload
  rest ← place_components t placed.1 components
  ok (record c { payload = placed.0 } ∷ rest.0, rest.1)

unfoldable pub place_payload : Target → Package → Result Package
place_payload t p = do
  placed ← place_components t [] p.components
  entries_check_paths placed.1 true
  ok (record p { components = placed.0 })

-- The names of a path that `lstat` walks.
abbrev pub names : Bytes → List Bytes
names path = if is_empty path then [] else split_slash path

abbrev pub look : Target → Bytes → Found
look t path = find t.tree (names path)

-- `path_parents` that creates nothing
unfoldable pub check_open : Found → Result (Unit {0})
check_open missing = ok tt
check_open blocked = err stat_failed
check_open (found node) = die_if (not (is_dir node)) not_a_directory

unfoldable pub check_parents : Target → List Bytes → Result (Unit {0})
check_parents t [] = ok tt
check_parents t (above ∷ rest) = do
  host ← path_join t.base above
  check_open (look t above)
  check_parents t rest

-- `path_exists` of what `lstat` finds
unfoldable pub path_exists : Found → Result Bool
path_exists missing = ok false
path_exists blocked = err stat_failed
path_exists (found node) = ok true

-- `snprintf` into a buffer of PATH_MAX bytes
abbrev pub record_path : Bytes → Bytes → Bytes → Bytes
record_path dir identifier suffix = take (path_max - 1) (dir ++ (b'/' ∷ identifier ++ suffix))

unfoldable pub check_record : Target → Bytes → Result (Unit {0})
check_record t rel = do
  check_parents t (ancestors rel)
  host ← path_join t.base rel
  there ← path_exists (look t rel)
  die_if there already_installed

unfoldable pub check_records : Target → Bytes → Result (Unit {0})
check_records t identifier = do
  check_record t (record_path receipts_dir identifier (codes ".plist"))
  check_record t (record_path receipts_dir identifier (codes ".bom"))
  check_record t (record_path inventory_dir identifier (codes ".inventory.plist"))

-- A directory may stand where one is, everything else needs a free place.
unfoldable pub would_replace : Entry → Found → Bool
would_replace e missing = false
would_replace e blocked = false
would_replace e (found node) = not (is_directory e.mode && is_dir node)

unfoldable pub check_places : Target → List Entry → Result (Unit {0})
check_places t [] = ok tt
check_places t (e ∷ payload) =
    let rest = check_places t payload in
    if is_empty e.path then rest else (do
      check_parents t (ancestors e.path)
      host ← path_join t.base e.path
      die_if (would_replace e (look t e.path)) replaces_file
      rest)

abbrev pub is_set : Option Bytes → Bool
is_set none = false
is_set (some path) = true

unfoldable pub has_hook : Hooks → Bool
has_hook h =
    is_set h.preflight_path
    || (is_set h.preinstall_path || (is_set h.postinstall_path || is_set h.postflight_path))

-- -skip-scripts
unfoldable pub skip_hooks : Bool → Component → Component
skip_hooks false c = c
skip_hooks true c = record c { hooks = no_hooks }

-- One component, with `skip` for `opt_skip_scripts` and `runner` for a runner that is given.
unfoldable pub check_target : Target → Bool → Bool → Component → Result Component
check_target t skip runner c = do
  die_if (has_hook (skip_hooks skip c).hooks && (not runner && not t.live)) no_runner
  check_records t c.identifier
  check_places t c.payload
  ok (skip_hooks skip c)

unfoldable pub check_targets : Target → Bool → Bool → List Component → Result (List Component)
check_targets t skip runner [] = ok []
check_targets t skip runner (c ∷ components) = do
  first ← check_target t skip runner c
  rest ← check_targets t skip runner components
  ok (first ∷ rest)

unfoldable pub preflight : Target → Bool → Bool → Package → Result Package
preflight t skip runner p = do
  q ← place_payload t p
  checked ← check_targets t skip runner q.components
  host ← path_join t.base scripts_dir
  there ← path_exists (look t scripts_dir)
  die_if there reserved_exists
  ok (record q { components = checked })

-- Every link of the payload, from the directory that holds it.
unfoldable pub check_payload_symlinks : Target → List Entry → Result (Unit {0})
check_payload_symlinks t [] = ok tt
check_payload_symlinks t (e ∷ payload) = elim e.link [
  | none ↦ check_payload_symlinks t payload
  | some link ↦ (do
    target ← path_join (path_parent e.path) link
    resolved ← resolve_beneath t target
    check_payload_symlinks t payload)
]
