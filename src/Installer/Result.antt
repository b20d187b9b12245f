-- ===== src/Installer/Result.antt =====
-- Fallible code of pkgs/installer. `die(message)` ends the program: the result is then `err` with a
-- constructor for the message.
use mathlib.Core.Path.{subst}
use minidarwin.Prelude.{◌≡◌, ◌⊎◌, inl, inr, refl, Bool, true, false, if◌then◌else◌}

pub data Fault : Type 0 where
  path_too_long relative_location absolute_archive_path unsafe_path nesting_limit bad_character :
      Fault
  bad_symlink symlink_escape missing_integer invalid_integer truncated_header bad_format : Fault
  field_too_long name_out_of_bounds invalid_name data_out_of_bounds truncated_padding : Fault
  invalid_trailer missing_trailer data_after_trailer apple_double unsupported_type : Fault
  root_not_directory metadata_range hardlink set_id directory_with_data checksum_mismatch : Fault
  invalid_symlink entry_limit duplicate_path beneath_non_directory : Fault
  leaves_root too_many_symlinks absolute_symlink not_a_directory : Fault
  invalid_xml wrong_root missing_value missing_attribute : Fault
  invalid_identifier unsupported_script missing_script component_limit unsupported_format : Fault
  other_identifier duplicate_component unsupported_element invalid_bom wrong_file_count : Fault
  external_reference invalid_reference empty_reference needs_javascript : Fault
  distribution_nesting unsupported_attribute external_script invalid_os_version : Fault
  duplicate_choice unresolved_choice conflicting_reference several_locations : Fault
  unresolved_reference outline_nesting repeated_choice choice_limit missing_choice : Fault
  unsupported_choice_content not_stabilized no_package needs_target script_failed : Fault
  unsupported_distribution missing_outline duplicate_element : Fault
  decompression_limit inflate_failed size_mismatch missing_checksum unknown_digest : Fault
  member_out_of_bounds unsupported_encoding unsafe_member_name unsupported_member : Fault
  member_limit not_a_package invalid_header toc_checksum duplicate_member missing_member : Fault
  reserved_path already_installed replaces_file no_runner reserved_exists : Fault
  has_attributes unsupported_file replaced_directory collision parent_missing : Fault
  unsafe_transaction other_root cannot_restore unsafe_root stat_failed out_of_fuel : Fault

-- `err fault` is a program that has ended.
pub data Result {ℓ} (Value : Type ℓ) : Type ℓ where
  err : Fault → Result Value
  ok : Value → Result Value

-- if (bad) die(fault);
abbrev pub die_if : Bool → Fault → Result (Unit {0})
die_if false fault = ok tt
die_if true fault = err fault

-- These compute wherever they stand.
module _ {ℓ κ} {Value : Type ℓ} {After : Type κ} where
  infixl 5 ◌>>=◌
  abbrev pub ◌>>=◌ : Result Value → (Value → Result After) → Result After
  err fault >>= next = err fault
  ok value >>= next = next value

  pub bind-eq-ok :
      (first : Result Value) (next : Value → Result After) {end : After}
      → (first >>= next) ≡ ok end
      → (value : Value) × (first ≡ ok value) × (next value ≡ ok end)
  bind-eq-ok (err fault) next run = cc
  bind-eq-ok (ok value) next run = (value, refl, run)

  pub bind-ext :
      (first : Result Value) (next other : Value → Result After)
      → ((value : Value) → first ≡ ok value → next value ≡ other value)
      → (first >>= next) ≡ (first >>= other)
  bind-ext (err fault) next other same = refl
  bind-ext (ok value) next other same = same value refl

infixl 5 ◌>>◌
abbrev pub ◌>>◌ {κ} : {After : Type κ} → Result (Unit {0}) → Result After → Result After
test >> next = test >>= (λ passed. next)

-- A test that has passed.
pub die-eq-ok {κ} :
    {After : Type κ} (bad : Bool) (fault : Fault) (next : Result After) {end : After}
    → (die_if bad fault >> next) ≡ ok end
    → (bad ≡ false) × (next ≡ ok end)
die-eq-ok true fault next h = cc
die-eq-ok false fault next h = (refl, h)

pub ok-inj {ℓ} : {A : Type ℓ} {a b : A} → ok a ≡ ok b → a ≡ b
ok-inj e = cc

-- A guard that has passed.
pub unless-ok {ℓ} :
    {A : Type ℓ} (bad : Bool) (fault : Fault) (m : Result A) {a : A}
    → (if bad then err fault else m) ≡ ok a
    → (bad ≡ false) × (m ≡ ok a)
unless-ok true fault m h = cc
unless-ok false fault m h = (refl, h)

-- The branch that has been taken.
pub if-cases {ℓ} :
    {A : Type ℓ} (c : Bool) (x y : Result A) {a : A}
    → (if c then x else y) ≡ ok a
    → ((c ≡ true) × (x ≡ ok a)) ⊎ ((c ≡ false) × (y ≡ ok a))
if-cases true x y h = inl (refl, h)
if-cases false x y h = inr (refl, h)

-- The program ends by such a fault, or goes on with such a value.
abbrev pub Outcome {ℓ} :
    {Value : Type ℓ} → (Fault → Type 0) → (Value → Type 0) → Result Value → Type 0
Outcome E P (err fault) = E fault
Outcome E P (ok value) = P value

pub bind-Outcome {ℓ κ} :
    {Value : Type ℓ} {After : Type κ} (E : Fault → Type 0) (P : Value → Type 0) (Q : After → Type 0)
    (first : Result Value) (next : Value → Result After)
    → Outcome E P first
    → ((value : Value) → P value → Outcome E Q (next value))
    → Outcome E Q (first >>= next)
bind-Outcome E P Q (err other) next a b = a
bind-Outcome E P Q (ok value) next a b = b value a

pub die-Outcome {κ} :
    {After : Type κ} (E : Fault → Type 0) (other : Fault) (bad : Bool) (next : Result After)
    (Q : After → Type 0)
    → E other
    → (bad ≡ false → Outcome E Q next)
    → Outcome E Q (die_if bad other >> next)
die-Outcome E other true next Q n k = n
die-Outcome E other false next Q n k = k refl

pub if-Outcome {ℓ} :
    {Value : Type ℓ} (E : Fault → Type 0) (c : Bool) (x y : Result Value) (Q : Value → Type 0)
    → (c ≡ true → Outcome E Q x)
    → (c ≡ false → Outcome E Q y)
    → Outcome E Q (if c then x else y)
if-Outcome E true x y Q h k = h refl
if-Outcome E false x y Q h k = k refl

pub Outcome-err {ℓ} :
    {Value : Type ℓ} (E : Fault → Type 0) (P : Value → Type 0) (r : Result Value) (fault : Fault)
    → Outcome E P r
    → r ≡ err fault
    → E fault
Outcome-err E P (err other) fault a e = subst E (cc e) a
Outcome-err E P (ok value) fault a e = cc e

pub Outcome-ok {ℓ} :
    {Value : Type ℓ} (E : Fault → Type 0) (P : Value → Type 0) (r : Result Value) (value : Value)
    → Outcome E P r
    → r ≡ ok value
    → P value
Outcome-ok E P (err other) value a e = cc e
Outcome-ok E P (ok other) value a e = subst P (ok-inj e) a

pub Result-cases {ℓ} :
    {A : Type ℓ} (r : Result A) → ((fault : Fault) × (r ≡ err fault)) ⊎ ((a : A) × (r ≡ ok a))
Result-cases (err fault) = inl (fault, refl)
Result-cases (ok a) = inr (a, refl)
