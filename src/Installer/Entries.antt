-- ===== src/Installer/Entries.antt =====
-- Entries and entry lists of pkgs/installer (mdpkg.h and util.c).
pub mod Order
pub mod Sorting
pub mod Neighbours
pub mod Check
use minidarwin.Prelude.{
  ℕ, zero, suc, ◌+◌, ◌/◌, ◌%◌, ◌≡◌, compare, Ordering, Bool, true, false, not, ◌&&◌, ◌||◌, Option,
  none, some, List, [], ◌∷◌, ◌++◌, Bytes, length, ltb, leb, ◌==◌, if◌then◌else◌,
}
use minidarwin.Installer.Result.{
  Fault, entry_limit, duplicate_path, beneath_non_directory, Result, ok, err, ◌>>=◌, ◌>>◌, die_if,
}
use minidarwin.Installer.Paths.{str_eq}

-- The value of `change` in a script inventory.
pub data Change : Type 0 where
  created modified removed : Change

-- `contents` is the source's `data`; `link` is `none` for NULL.
pub record Entry : Type 0 where
  pub path : Bytes
  pub package_path : Option Bytes
  pub change : Option Change
  pub link : Option Bytes
  pub mode : ℕ
  pub uid : ℕ
  pub gid : ℕ
  pub mtime : ℕ
  pub contents : Bytes

-- mode & S_IFMT, as a number of four bits
unfoldable pub file_type : ℕ → ℕ
file_type mode = mode / 4096 % 16

abbrev pub type_directory : ℕ
type_directory = 4

abbrev pub type_regular : ℕ
type_regular = 8

abbrev pub type_link : ℕ
type_link = 10

-- S_ISDIR, S_ISREG, S_ISLNK
unfoldable pub is_directory : ℕ → Bool
is_directory mode = file_type mode == type_directory

unfoldable pub is_regular : ℕ → Bool
is_regular mode = file_type mode == type_regular

unfoldable pub is_link : ℕ → Bool
is_link mode = file_type mode == type_link

abbrev pub limit_entries : ℕ
limit_entries = 100000

unfoldable pub entries_append : List Entry → Entry → Result (List Entry)
entries_append list e =
    if leb limit_entries (length list) then err entry_limit else ok (list ++ e ∷ [])

unfoldable pub entries_find : List Entry → Bytes → Option Entry
entries_find [] path = none
entries_find (e ∷ list) path =
    let rest = entries_find list path in if str_eq e.path path then some e else rest

-- '/' sorts first
unfoldable pub order_byte : ℕ → ℕ
order_byte c = if c == b'/' then 1 else c

-- The end of a string is its NUL, below every byte.
unfoldable pub path_compare : Bytes → Bytes → Ordering
path_compare [] [] = Ordering.eq
path_compare [] (d ∷ t) = Ordering.lt
path_compare (c ∷ s) [] = Ordering.gt
path_compare (c ∷ s) (d ∷ t) = elim (compare (order_byte c) (order_byte d)) [
  | Ordering.lt ↦ Ordering.lt
  | Ordering.gt ↦ Ordering.gt
  | Ordering.eq ↦ path_compare s t
]

unfoldable pub entry_compare : Entry → Entry → Ordering
entry_compare a b = path_compare a.path b.path

-- `qsort` by `entry_ptr_compare`. C leaves the order of equal entries open: the checks below do not
-- depend on it.
unfoldable pub insert_entry : Entry → List Entry → List Entry
insert_entry e [] = e ∷ []
insert_entry e (f ∷ list) = elim (entry_compare e f) [
  | Ordering.gt ↦ f ∷ insert_entry e list
  | _ ↦ e ∷ f ∷ list
]

unfoldable pub sort_entries : List Entry → List Entry
sort_entries [] = []
sort_entries (e ∷ list) = insert_entry e (sort_entries list)

-- A pair of neighbours that the first loop refuses.
unfoldable pub is_duplicate : Bool → Entry → Entry → Bool
is_duplicate allow a b =
    str_eq a.path b.path && not (allow && (is_directory a.mode && is_directory b.mode))

unfoldable pub check_neighbours : Bool → List Entry → Result (Unit {0})
check_neighbours allow (a ∷ b ∷ list) = do
  die_if (is_duplicate allow a b) duplicate_path
  check_neighbours allow (b ∷ list)
check_neighbours allow _ = ok tt

-- `bsearch` by the same comparison: an entry that compares equal, if there is one
unfoldable pub search_path : Bytes → List Entry → Option Entry
search_path key [] = none
search_path key (e ∷ sorted) = elim (path_compare key e.path) [
  | Ordering.eq ↦ some e
  | _ ↦ search_path key sorted
]

-- The text before each '/' of a path, as the inner loop cuts it. `done` is what it has passed.
unfoldable pub ancestors_from : Bytes → Bytes → List Bytes
ancestors_from done [] = []
ancestors_from done (c ∷ s) =
    let rest = ancestors_from (done ++ c ∷ []) s in if c == b'/' then done ∷ rest else rest

unfoldable pub ancestors : Bytes → List Bytes
ancestors path = ancestors_from [] path

unfoldable pub is_blocked : Option Entry → Bool
is_blocked none = false
is_blocked (some parent) = not (is_directory parent.mode)

unfoldable pub check_ancestors : List Entry → List Bytes → Result (Unit {0})
check_ancestors sorted [] = ok tt
check_ancestors sorted (key ∷ keys) = do
  die_if (is_blocked (search_path key sorted)) beneath_non_directory
  check_ancestors sorted keys

unfoldable pub check_beneath : List Entry → List Entry → Result (Unit {0})
check_beneath sorted [] = ok tt
check_beneath sorted (e ∷ rest) = do
  check_ancestors sorted (ancestors e.path)
  check_beneath sorted rest

unfoldable pub entries_check_paths : List Entry → Bool → Result (Unit {0})
entries_check_paths list allow = do
  check_neighbours allow (sort_entries list)
  check_beneath (sort_entries list) (sort_entries list)
