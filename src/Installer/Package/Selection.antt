-- ===== src/Installer/Package/Selection.antt =====
-- The selection of components in pkgs/installer/package.c: `initialize_choices`, `settle_choices`,
-- `package_resolve`, `package_inspect_candidates` and `package_load`.
pub mod Settled
use minidarwin.Prelude.{
  ℕ, zero, suc, ◌+◌, ◌≡◌, Bool, true, false, not, ◌&&◌, ◌||◌, Option, none, some, List, [], ◌∷◌,
  ◌++◌, Bytes, codes, length, if◌then◌else◌,
}
use minidarwin.Installer.Result.{
  Fault, not_stabilized, no_package, needs_target, unsupported_distribution, missing_outline,
  duplicate_element, Result, ok, err, ◌>>=◌, ◌>>◌, die_if,
}
use minidarwin.Installer.Paths.{str_eq}
use minidarwin.Installer.Entries.{Entry, entries_append, entries_check_paths}
use minidarwin.Installer.Xml.{
  XmlNode, null, element, text, other, Libxml, has_prop, is_missing, xml_attr, xml_text, xml_is,
  xml_child, xml_parse, children_of,
}
use minidarwin.Installer.Xar.{Libraries, Reading, find_member}
use minidarwin.Installer.Package.{Component, Package}
use minidarwin.Installer.Package.References.{static_boolean, find_reference, Resolved}
use minidarwin.Installer.Package.Loading.{load_component}
use minidarwin.Installer.Package.Distribution.{
  Compile, Choice, outline_choices, check_choices, validate_distribution,
}

-- The properties of a choice that expressions set.
pub data Key : Type 0 where
  selected enabled visible : Key

abbrev pub keys : List Key
keys = selected ∷ enabled ∷ visible ∷ []

abbrev pub key_name : Key → Bytes
key_name selected = codes "selected"
key_name enabled = codes "enabled"
key_name visible = codes "visible"

abbrev pub initial_name : Key → Bytes
initial_name selected = codes "start_selected"
initial_name enabled = codes "start_enabled"
initial_name visible = codes "start_visible"

-- The object that a script sees of a choice.
pub record ChoiceObject : Type 0 where
  pub flags : List Bool
  pub title : Bytes
  pub description : Bytes
  pub packages : List (Bytes × Option Bytes)

-- QuickJS with the objects of installer-js.c. A call may run code of the package and so change the
-- state; `read` and `write` are a property of a choice, `evaluate` an expression with its choice as
-- `my`, and `inspect` one of the two checks.
pub record Engine : Type 1 where
  pub State : Type 0
  pub start : Bytes → Bool → Result State
  pub define : State → Bytes → ChoiceObject → Result State
  pub read : State → Bytes → Key → Result (Bool × State)
  pub write : State → Bytes → Key → Bool → Result State
  pub evaluate : State → Bytes → Bytes → Result (Bool × State)
  pub run : State → Bytes → Result State
  pub inspect : State → XmlNode → Result State

-- A value in front of those that come with a later state.
module _ {A B : Type 0} where
  abbrev pub consed : A → List A × B → List A × B
  consed a (values, s) = (a ∷ values, s)

module _ (js : Engine) where
  -- choice_state, for each key of a choice
  unfoldable pub read_keys : Bytes → List Key → js.State → Result (List Bool × js.State)
  read_keys id [] s = ok ([], s)
  read_keys id (k ∷ ks) s = do v ← js.read s id k; rest ← read_keys id ks v.1; ok (consed v.0 rest)

  -- The array `before` of `settle_choices`, by choices.
  unfoldable pub read_choices : List Choice → js.State → Result (List (List Bool) × js.State)
  read_choices [] s = ok ([], s)
  read_choices (c ∷ choices) s = do
    v ← read_keys c.id keys s
    rest ← read_choices choices v.1
    ok (consed v.0 rest)

  -- One expression of a choice, where it has it.
  unfoldable pub apply_key : Choice → Key → js.State → Result js.State
  apply_key c k s = if not (has_prop c.node (key_name k)) then ok s else (do
    source ← xml_attr c.node (key_name k) none
    v ← js.evaluate s c.id source
    js.write v.1 c.id k v.0)

  unfoldable pub apply_keys : Choice → List Key → js.State → Result js.State
  apply_keys c [] s = ok s
  apply_keys c (k ∷ ks) s = (apply_key c k s >>= (λ t. apply_keys c ks t))

  unfoldable pub apply_choices : List Choice → js.State → Result js.State
  apply_choices [] s = ok s
  apply_choices (c ∷ choices) s = (apply_keys c keys s >>= (λ t. apply_choices choices t))

abbrev pub same_bool : Bool → Bool → Bool
same_bool true b = b
same_bool false b = not b

unfoldable pub same_flags : List Bool → List Bool → Bool
same_flags [] [] = true
same_flags [] (b ∷ bs) = false
same_flags (a ∷ l) [] = false
same_flags (a ∷ l) (b ∷ bs) = same_bool a b && same_flags l bs

unfoldable pub unchanged : List (List Bool) → List (List Bool) → Bool
unchanged [] [] = true
unchanged [] (b ∷ bs) = false
unchanged (a ∷ l) [] = false
unchanged (a ∷ l) (b ∷ bs) = same_flags a b && unchanged l bs

module _ (js : Engine) (choices : List Choice) where
  -- The loop of `settle_choices`, with as many passes as are left.
  unfoldable pub settle_passes : ℕ → js.State → Result js.State
  settle_passes zero s = err not_stabilized
  settle_passes (suc passes) s = do
    before ← read_choices js choices s
    moved ← apply_choices js choices before.1
    after ← read_choices js choices moved
    let again = settle_passes passes after.1
    if unchanged before.0 after.0 then ok after.1 else again

  unfoldable pub settle_choices : js.State → Result js.State
  settle_choices s = settle_passes 64 s

unfoldable pub initial_flags : XmlNode → List Key → Result (List Bool)
initial_flags node [] = ok []
initial_flags node (k ∷ ks) = do
  v ← static_boolean node (initial_name k)
  rest ← initial_flags node ks
  ok (v ∷ rest)

-- The packages of a choice, with the versions of their references.
unfoldable pub choice_packages : Libxml → XmlNode → XmlNode → Result (List (Bytes × Option Bytes))
choice_packages lib dist null = ok []
choice_packages lib dist (text t next) = choice_packages lib dist next
choice_packages lib dist (other next) = choice_packages lib dist next
choice_packages lib dist (element name attributes children next) = do
  id ← xml_attr (element name attributes children next) (codes "id") none
  ref ← find_reference lib dist id
  rest ← choice_packages lib dist next
  ok ((id, ref.release) ∷ rest)

unfoldable pub choice_object : Libxml → XmlNode → XmlNode → Result ChoiceObject
choice_object lib dist node = do
  flags ← initial_flags node keys
  title ← xml_attr node (codes "title") (some [])
  description ← xml_attr node (codes "description") (some [])
  packages ← choice_packages lib dist (children_of node)
  ok (record { flags = flags; title = title; description = description; packages = packages })

unfoldable pub initialize_choices :
    Libxml → (js : Engine) → XmlNode → List Choice → js.State → Result js.State
initialize_choices lib js dist [] s = ok s
initialize_choices lib js dist (c ∷ choices) s = do
  object ← choice_object lib dist c.node
  t ← js.define s c.id object
  initialize_choices lib js dist choices t

abbrev pub all_payloads : List Component → List Entry
all_payloads [] = []
all_payloads (c ∷ components) = c.payload ++ all_payloads components

unfoldable pub append_all_entries : List Entry → List Entry → Result (List Entry)
append_all_entries list [] = ok list
append_all_entries list (e ∷ entries) =
    (entries_append list e >>= (λ more. append_all_entries more entries))

abbrev pub is_none : List Component → Bool
is_none [] = true
is_none (c ∷ components) = false

unfoldable pub check_payload_paths : Package → Result (Unit {0})
check_payload_paths p = do
  die_if (is_none p.components) no_package
  entries ← append_all_entries [] (all_payloads p.components)
  entries_check_paths entries true
