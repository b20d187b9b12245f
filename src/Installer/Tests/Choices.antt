-- ===== src/Installer/Tests/Choices.antt =====
-- Choices and references of pkgs/installer/package.c, with an engine of which a state is the
-- properties of the choices.
use mathlib.Core.Path.{fun_ext}
use minidarwin.Installer.Entries.{
  entries_check_paths, check_beneath, check_neighbours, sort_entries,
}
use minidarwin.Installer.Package.Identifier.{all_identifier, check_identifier, is_identifier_byte}
use minidarwin.Installer.Package.Loading.{
  component_member, has_dir, load_component, read_component, read_info, add_component, check_bom,
  check_count, check_elements, has_identifier, optional_member, place_entries, read_contents,
  read_scripts, unpack,
}
use minidarwin.Prelude.{
  ◌≡◌, ◌≢◌, ◌⊎◌, inl, inr, refl, sym, ◌∙◌, arith, Bool, true, false, ◌&&◌, Bool-cases, none, some,
  [], ◌∷◌, Bytes, codes, ap, if◌then◌else◌,
}
use minidarwin.Installer.Result.{ok, ok-inj}
use minidarwin.Installer.Paths.{
  str_eq, normalize_body, path_normalize, check_component, has_bad_character, normalize_onto,
  skipped, split_slash, ends_in_slash, path_join, skip_slashes,
}
use minidarwin.Installer.Paths.Prefix.{str_eq_iff}
use minidarwin.Installer.Xml.{
  XmlNode, null, element, text, property, children_of, xml_attr, xml_text, child_named, xml_child,
  holds_nul, xml_checked, xml_is, xml_parse, xml_root,
}
use minidarwin.Installer.Xar.{XarMember, find_member, required_member}
use minidarwin.Installer.Package.{Component, Package, no_hooks}
use minidarwin.Installer.Package.Distribution.{
  Choice, outline_choices, check_choices, add_line, find_choice, has_choice, outline_lines,
  search_choice, check_choice, check_contents,
}
use minidarwin.Installer.Package.Distribution.Outline.{IsOutline, Listed, outlined_exactly}
use minidarwin.Installer.Package.References.{
  Resolved, find_reference, add_location, add_locations, add_reference, collect_reference,
  drop_blanks, embedded_reference, is_blank, merge_attribute, percent_decode, skip_blanks, trim,
  static_boolean,
}
use minidarwin.Installer.Package.References.Found.{IsInner, AllAgree, find_reference-agrees}
use minidarwin.Installer.Package.Selection.{
  Key, selected, enabled, visible, Engine, settle_choices, check_payload_paths, apply_choices,
  apply_key, apply_keys, choice_object, read_choices, read_keys, same_flags, settle_passes,
  unchanged, initialize_choices, choice_packages, initial_flags, append_all_entries,
}
use minidarwin.Installer.Package.Selection.Settled.{IsQuiet, AllFixed, settle_choices-fixed}
use minidarwin.Installer.Package.Loading.Components.{IsLoaded}
use minidarwin.Installer.Package.Opening.{
  opened, package_resolve, prepare, resolve_distribution, resolve_from, start_engine, load_choices,
  run_script, is_active, is_selected, load_references,
}
use minidarwin.Installer.Package.Opening.Resolving.{package_resolve-IsLoaded}
use minidarwin.Installer.Tests.Packages.{libxml, libraries, stored-IsZlib, bom}

abbrev Properties : Type 0
Properties = Bytes → Key → Bool

abbrev same_key : Key → Key → Bool
same_key selected selected = true
same_key enabled enabled = true
same_key visible visible = true
same_key _ _ = false

abbrev update : Properties → Bytes → Key → Bool → Properties
update s id k v j l = if str_eq j id && same_key l k then v else s j l

-- "my.enabled" is a property of the choice, "true" is true, and the rest is false.
abbrev answer : Properties → Bytes → Bytes → Bool
answer s id source =
    if str_eq source (codes "my.enabled") then s id enabled else str_eq source (codes "true")

abbrev engine : Engine
engine = record {
  State = Properties;
  start = λ root live. ok (λ id k. false);
  define = λ s id object. ok s;
  read = λ s id k. ok (s id k, s);
  write = λ s id k v. ok (update s id k v);
  evaluate = λ s id source. ok (answer s id source, s);
  run = λ s source. ok s;
  inspect = λ s node. ok s;
}

same_key_iff : (k l : Key) → same_key k l ≡ true → k ≡ l
same_key_iff k l e = ground arith

same_key_self : (k : Key) → same_key k k ≡ true
same_key_self k = ground arith

update_self : (s : Properties) (id : Bytes) (k : Key) (v : Bool) → update s id k v id k ≡ v
update_self s id k v =
    let a = (str_eq_iff id id).1 refl in let b = same_key_self k in rw (a, b) refl

update_other :
    (s : Properties) (id j : Bytes) (k l : Key) (v : Bool)
    → (j ≢ id) ⊎ (l ≢ k)
    → update s id k v j l ≡ s j l
update_other s id j k l v a =
    let same = (str_eq_iff j id).0 in
    let alike = same_key_iff l k in
    elim (Bool-cases (str_eq j id && same_key l k)) [
      | inr e ↦ rw e refl
      | inl e ↦
          let named : j ≡ id = same (ground arith) in
          let keyed : l ≡ k = alike (ground arith) in
          elim a [ inl n ↦ absurd (n named) | inr n ↦ absurd (n keyed) ]
    ]

update_idle :
    (s : Properties) (id j : Bytes) (k l : Key) (v : Bool)
    → s id k ≡ v
    → update s id k v j l ≡ s j l
update_idle s id j k l v was = elim (Bool-cases (str_eq j id && same_key l k)) [
  | inr e ↦ rw e refl
  | inl e ↦
      let named : j ≡ id = (str_eq_iff j id).0 (ground arith) in
      let keyed : l ≡ k = same_key_iff l k (ground arith) in rw e (cc (named, keyed, was))
]

engine-IsQuiet : IsQuiet engine
engine-IsQuiet = record {
  value = λ (s : Properties) id k. s id k;
  reads = λ s id k. refl;
  evaluates = λ s id source v e. ap (λ (w : Bool × Properties). w.1) (sym (ok-inj e));
  writes = λ s t id k v e. ap (λ (u : Properties). u id k) (sym (ok-inj e)) ∙ update_self s id k v;
  frames = λ s t id j k l v e a.
      ap (λ (u : Properties). u j l) (sym (ok-inj e)) ∙ update_other s id j k l v a;
  idles = λ s t id k v e was.
      sym (ok-inj e) ∙ fun_ext (λ j. fun_ext (λ l. update_idle s id j k l v was));
}

-- A choice that is selected where it is enabled.
abbrev choice_node : XmlNode → XmlNode
choice_node next =
    element (codes "choice")
      ((codes "id", codes "c")
        ∷ (codes "selected", codes "my.enabled")
        ∷ (codes "enabled", codes "true")
        ∷ [])
      (element (codes "pkg-ref") ((codes "id", codes "a.b") ∷ []) (text (codes "#x") null) null)
      next

abbrev outline_node : XmlNode → XmlNode
outline_node next =
    element (codes "choices-outline") []
      (element (codes "line") ((codes "choice", codes "c") ∷ []) null null) next

abbrev dist : XmlNode
dist =
    element (codes "installer-gui-script") []
      (outline_node (
        choice_node (
          element (codes "pkg-ref") ((codes "id", codes "a.b") ∷ (codes "version", codes "1") ∷ [])
            null null)))
      null

abbrev choice : Choice
choice = record {
  id = codes "c";
  node = choice_node (
      element (codes "pkg-ref") ((codes "id", codes "a.b") ∷ (codes "version", codes "1") ∷ []) null
        null);
}

abbrev found : Resolved
found = record { target = codes "x"; activity = none; release = some (codes "1") }

find_reference_run : find_reference libxml dist (codes "a.b") ≡ ok found
unfolding find_reference collect_reference str_eq add_reference xml_attr property merge_attribute
    add_locations xml_text add_location trim drop_blanks skip_blanks is_blank embedded_reference
    percent_decode path_normalize normalize_body outline_lines add_line has_choice find_choice
    search_choice settle_passes read_choices read_keys apply_choices apply_keys apply_key unchanged
    same_flags choice_object outline_choices settle_choices normalize_onto split_slash skipped
    check_component has_bad_character check_choices check_choice check_contents
find_reference_run = refl

find_reference-agrees_example :
    IsInner found.target × AllAgree (children_of dist) (codes "a.b") found.activity found.release
find_reference-agrees_example =
    find_reference-agrees libxml dist (codes "a.b") found find_reference_run

outline_run : outline_choices dist (outline_node null) ≡ ok (choice ∷ [])
unfolding outline_choices outline_lines add_line str_eq xml_attr property has_choice find_choice
    search_choice drop_blanks settle_passes read_choices read_keys apply_choices apply_keys
    apply_key unchanged same_flags choice_object check_choices check_choice check_contents
    find_reference collect_reference add_reference merge_attribute add_locations xml_text
    add_location trim settle_choices
outline_run = refl

choices_run : check_choices libxml dist (choice ∷ []) (children_of dist) ≡ ok tt
unfolding check_choices str_eq check_choice xml_attr property find_choice search_choice has_choice
    check_contents find_reference collect_reference add_reference merge_attribute add_locations
    xml_text add_location trim drop_blanks settle_passes read_choices read_keys apply_choices
    apply_keys apply_key unchanged same_flags choice_object settle_choices skip_blanks is_blank
    embedded_reference percent_decode path_normalize normalize_body normalize_onto split_slash
    skipped check_component has_bad_character
choices_run = refl

outlined_exactly_example : IsOutline dist (choice ∷ []) × Listed (choice ∷ []) (children_of dist)
outlined_exactly_example =
    outlined_exactly libxml dist (outline_node null) (choice ∷ []) outline_run choices_run

abbrev first_state : Properties
first_state id k = false

abbrev pass : Properties → Bool → Properties
pass s v = update (update s (codes "c") selected v) (codes "c") enabled true

-- In the first pass the choice is not enabled yet; the third changes nothing.
abbrev settled : Properties
settled = pass (pass (pass first_state false) true) true

settle_run : settle_choices engine (choice ∷ []) first_state ≡ ok settled
unfolding settle_choices settle_passes read_choices read_keys apply_choices apply_keys apply_key
    property str_eq xml_attr unchanged same_flags choice_object
settle_run = refl

settle_choices-fixed_example : AllFixed engine engine-IsQuiet settled (choice ∷ [])
settle_choices-fixed_example =
    settle_choices-fixed engine engine-IsQuiet (choice ∷ []) first_state settled (tt, tt) settle_run

abbrev member : Bytes → Bytes → XarMember
member name contents = record { name = name; contents = contents }

-- A package whose Distribution names the component x.
abbrev selecting : Package
selecting =
    record (opened (record {
      members = member (codes "x/Bom") bom ∷ member (codes "x/PackageInfo") (6 ∷ []) ∷ [];
      decoded = 33;
    })) { distribution = some dist; needs_js = true }

abbrev selected_component : Component
selected_component = record {
  xar_dir = codes "x";
  identifier = codes "a.b";
  version = codes "1";
  location = [];
  bom = bom;
  payload = [];
  scripts = [];
  hooks = no_hooks;
  metadata_only = false;
}

abbrev resolved_package : Package
resolved_package = record selecting { components = selected_component ∷ []; distribution = none }

selecting-IsLoaded : IsLoaded selecting
selecting-IsLoaded = record {
  components = tt;
  identifiers = tt;
  dirs = tt;
  count = omega arith;
  decoded = omega arith;
}

resolve_run :
    package_resolve libraries engine selecting (some (codes "/r")) false ≡ ok resolved_package
unfolding package_resolve resolve_from resolve_distribution outline_choices outline_lines xml_child
    child_named str_eq add_line xml_attr property has_choice find_choice search_choice start_engine
    prepare initialize_choices choice_object initial_flags static_boolean choice_packages
    find_reference collect_reference add_reference merge_attribute add_locations xml_text
    add_location trim drop_blanks skip_blanks is_blank embedded_reference percent_decode
    path_normalize normalize_body normalize_onto split_slash skipped check_component
    has_bad_character run_script settle_choices settle_passes read_choices read_keys apply_choices
    apply_keys apply_key unchanged same_flags load_choices is_selected load_references is_active
    load_component has_dir read_component component_member path_join required_member find_member
    ends_in_slash xml_parse holds_nul xml_checked xml_root xml_is read_info check_identifier
    all_identifier is_identifier_byte has_identifier skip_slashes check_elements read_contents
    optional_member unpack check_bom check_count read_scripts place_entries check_payload_paths
    add_component append_all_entries entries_check_paths check_neighbours sort_entries check_beneath
resolve_run = refl

package_resolve-IsLoaded_example :
    IsLoaded resolved_package
    × (resolved_package.distribution ≡ none)
    × (check_payload_paths resolved_package ≡ ok tt)
package_resolve-IsLoaded_example =
    package_resolve-IsLoaded libraries stored-IsZlib engine selecting resolved_package dist
      (some (codes "/r")) false selecting-IsLoaded refl resolve_run
