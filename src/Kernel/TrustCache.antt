-- ===== src/Kernel/TrustCache.antt =====
-- pkgs/xnu/support/trust-cache.c and TrustCache/API.h: trust-cache modules, the runtime that links
-- them, and queries. A pointer is its address and 0 is NULL. A chain of `next` pointers is the list
-- of its nodes; `prev` is written by the source and never read. Proofs are in the modules below.
pub mod Tokens
pub mod Validity
pub mod Chain
pub mod Search
pub mod Load
pub mod Invariant
pub mod Query
pub mod Fields
use minidarwin.Prelude.{
  ℕ, zero, suc, ◌+◌, ◌-◌, ◌*◌, ◌/◌, ◌%◌, ◌^◌, ◌≡◌, Ordering, Bool, true, false, not, ◌&&◌, ◌||◌,
  Option, none, some, List, [], ◌∷◌, ◌++◌, ltb, leb, ◌==◌, if◌then◌else◌,
}
use minidarwin.Kernel.Memory.{Memory, le32, memcmp}

-- kTCReturn… of API.h
pub data TcReturn : Type 0 where
  success overflow unsupported invalid_module duplicate not_found invalid_arguments : TcReturn
  insufficient_length not_permitted : TcReturn

pub TcReturn-discrete : Discrete TcReturn
TcReturn-discrete = hlevel

abbrev pub hash_size : ℕ
hash_size = 20

abbrev pub uuid_size : ℕ
uuid_size = 16

-- kTCType…
abbrev pub type_static : ℕ
type_static = 0

abbrev pub type_engineering : ℕ
type_engineering = 1

abbrev pub type_legacy : ℕ
type_legacy = 2

-- kTCQueryType…
abbrev pub query_all : ℕ
query_all = 0

abbrev pub query_static : ℕ
query_static = 1

abbrev pub query_loadable : ℕ
query_loadable = 2

abbrev pub query_total : ℕ
query_total = 3

-- UINTPTR_MAX
abbrev pub uintptr_max : ℕ
uintptr_max = 2 ^ 64 - 1

-- `self` is the address of the node.
pub record TrustCache : Type 0 where
  pub self : ℕ
  pub kind : ℕ
  pub module_size : ℕ
  pub module_at : ℕ

-- `loadable` is `none` where `mutableRT` is NULL.
pub record Runtime : Type 0 where
  pub allow_second_static : Bool
  pub allow_engineering : Bool
  pub allow_legacy : Bool
  pub static_head : List TrustCache
  pub engineering_head : List TrustCache
  pub loadable : Option (List TrustCache)

unfoldable pub initialize_runtime : Bool → Bool → Bool → Runtime
initialize_runtime second engineering legacy = record {
  allow_second_static = second;
  allow_engineering = engineering;
  allow_legacy = legacy;
  static_head = [];
  engineering_head = [];
  loadable = some [];
}

unfoldable pub stride : ℕ → ℕ
stride version =
    if version == 0 then 20 else if version == 1 then 22 else if version == 2 then 24 else 0

abbrev pub entry_at : ℕ → ℕ → ℕ → ℕ
entry_at p step i = p + 24 + i * step

pub data Validation : Type 0 where
  valid : ℕ → Validation
  refused : TcReturn → Validation

-- memcmp(entry - step, entry, kTCEntryHashSize) >= 0
abbrev pub not_below : Ordering → Bool
not_below Ordering.lt = false
not_below _ = true

-- whether the node is linked already
unfoldable pub is_linked : ℕ → List TrustCache → Bool
is_linked tc [] = false
is_linked tc (existing ∷ rest) = existing.self == tc || is_linked tc rest

-- (*head)->next
unfoldable pub has_next : List TrustCache → Bool
has_next (x ∷ y ∷ rest) = true
has_next _ = false

abbrev pub is_null : List TrustCache → Bool
is_null [] = true
is_null (x ∷ rest) = false

-- The last part of `trustCacheLoadModule`: the new node at the head of its chain.
unfoldable pub link : Runtime → List TrustCache → TrustCache → Runtime
link r loaded tc =
    if tc.kind == type_static
    then record r { static_head = tc ∷ r.static_head }
    else if tc.kind == type_engineering
    then record r { engineering_head = tc ∷ r.engineering_head }
    else record r { loadable = some (tc ∷ loaded) }

abbrev pub all_caches : Runtime → List TrustCache → List TrustCache
all_caches r loaded = r.static_head ++ (r.engineering_head ++ loaded)

module _ (mem : Memory) where
  -- The two tests in the body of `validate`'s loop, on entry `i`.
  unfoldable pub bad_entry : ℕ → ℕ → ℕ → Bool
  bad_entry p step i =
      (step == 24 && not (mem (entry_at p step i + 23) == 0))
      || (not (i == 0)
          && not_below (memcmp mem hash_size (entry_at p step i - step) (entry_at p step i)))

  -- `n` rounds of that loop from `i`: whether none of them refuses
  unfoldable pub scan_entries : ℕ → ℕ → ℕ → ℕ → Bool
  scan_entries zero p step i = true
  scan_entries (suc n) p step i =
      let rest = scan_entries n p step (i + 1) in if bad_entry p step i then false else rest

  unfoldable pub validate : ℕ → ℕ → Validation
  validate p len =
      let step = stride (le32 mem p) in
      let count = le32 mem (p + 20) in
      if p == 0
      then refused invalid_arguments
      else if ltb len 24
      then refused insufficient_length
      else if step == 0
      then refused unsupported
      else if ltb ((len - 24) / step) count
      then refused insufficient_length
      else if scan_entries count p step 0
      then valid (24 + count * step)
      else refused invalid_module

  -- One chain of `trustCacheCheckRuntimeForUUID`.
  unfoldable pub find_uuid : ℕ → List TrustCache → Option TrustCache
  find_uuid uuid [] = none
  find_uuid uuid (tc ∷ rest) = elim (memcmp mem uuid_size (tc.module_at + 4) uuid) [
    | Ordering.eq ↦ some tc
    | _ ↦ find_uuid uuid rest
  ]

  -- The chains in the order of `heads`, one after the other.
  unfoldable pub check_runtime_for_uuid : Option Runtime → ℕ → TcReturn × Option TrustCache
  check_runtime_for_uuid none uuid = (invalid_arguments, none)
  check_runtime_for_uuid (some r) uuid = elim r.loadable [
    | none ↦ (invalid_arguments, none)
    | some loaded ↦
        if uuid == 0
        then (invalid_arguments, none)
        else elim (find_uuid uuid (r.static_head ++ (r.engineering_head ++ loaded))) [
          | none ↦ (not_found, none)
          | some tc ↦ (success, some tc)
        ]
  ]

  -- `trustCacheLoadModule` after `validate`.
  unfoldable pub load_validated :
      Runtime → List TrustCache → ℕ → ℕ → ℕ → Validation → TcReturn × Runtime
  load_validated r loaded kind tc address (refused error) = (error, r)
  load_validated r loaded kind tc address (valid actual) =
      elim (check_runtime_for_uuid (some r) (address + 4)).0 [
        | success ↦ (duplicate, r)
        | _ ↦
            if kind == type_static
              && (not (is_null r.static_head)
                  && (not r.allow_second_static || has_next r.static_head))
            then (not_permitted, r)
            else (
              success,
              link r loaded
                  (record { self = tc; kind = kind; module_size = actual; module_at = address }),
            )
      ]

  unfoldable pub load_present : Runtime → List TrustCache → ℕ → ℕ → ℕ → ℕ → TcReturn × Runtime
  load_present r loaded kind tc address len =
      if tc == 0 || address == 0
      then (invalid_arguments, r)
      else if is_linked tc (all_caches r loaded)
      then (invalid_arguments, r)
      else if ltb (uintptr_max - len) address
      then (overflow, r)
      else if not (kind == type_static)
          && (not (kind == type_engineering) && not (kind == type_legacy))
      then (unsupported, r)
      else if (kind == type_engineering && not r.allow_engineering)
          || (kind == type_legacy && not r.allow_legacy)
      then (not_permitted, r)
      else load_validated r loaded kind tc address (validate address len)

  -- trustCacheLoadModule(r, type, tc, address, length), for a runtime that is not NULL
  unfoldable pub load_module : Runtime → ℕ → ℕ → ℕ → ℕ → TcReturn × Runtime
  load_module r kind tc address len = elim r.loadable [
    | none ↦ (invalid_arguments, r)
    | some loaded ↦ load_present r loaded kind tc address len
  ]
