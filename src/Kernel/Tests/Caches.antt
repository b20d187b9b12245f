-- ===== src/Kernel/Tests/Caches.antt =====
-- Two modules in memory, loaded and queried.
use minidarwin.Prelude.{
  ℕ, ◌+◌, ◌-◌, ◌<◌, ◌≡◌, ◌↔◌, refl, Ordering, true, false, Option, some, List, [], ◌∷◌, ◌++◌,
  get_or, replicate, arith, ltb, if◌then◌else◌,
}
use minidarwin.Kernel.Memory.{Memory, le32, memcmp}
use minidarwin.Kernel.TrustCache.{
  success, duplicate, Runtime, hash_size, query_all, entry_at, initialize_runtime, load_module,
  validate, bad_entry, scan_entries, stride, valid, find_uuid, check_runtime_for_uuid, is_linked,
  has_next, link, load_validated, load_present,
}
use minidarwin.Kernel.TrustCache.Tokens.{
  QueryToken, search_entries, search_module, search_chain, search_heads, query, token_valid, field,
  get_capabilities, query_get_capabilities,
}
use minidarwin.Kernel.TrustCache.Validity.{IsModule, validate_iff, module_stride, module_count}
use minidarwin.Kernel.TrustCache.Load.{load_refused}
use minidarwin.Kernel.TrustCache.Invariant.{RuntimeOk, load_all, loads_keep_invariant}
use minidarwin.Kernel.TrustCache.Query.{status, Answers, searched, query_lem, query-load_module}
use minidarwin.Kernel.TrustCache.Fields.{field_in_module}

-- version 1, a UUID of sevens, two entries
abbrev first_module : List ℕ
first_module =
    1
    ∷ 0
    ∷ 0
    ∷ 0
    ∷ (replicate 16 7
        ++ (2 ∷ 0 ∷ 0 ∷ 0 ∷ (replicate 20 3 ++ (2 ∷ 1 ∷ (replicate 20 5 ++ (2 ∷ 0 ∷ []))))))

-- at 0x1000 the module, at 0x2000 a hash that it holds
abbrev mem : Memory
mem a = if ltb a 0x1000 then 0 else if ltb a 0x2000 then get_or first_module (a - 0x1000) 0 else 5

validate_runs : validate mem 0x1000 100 ≡ valid 68
unfolding validate le32 stride scan_entries bad_entry memcmp
validate_runs = refl

abbrev empty : Runtime
empty = record {
  allow_second_static = false;
  allow_engineering = false;
  allow_legacy = false;
  static_head = [];
  engineering_head = [];
  loadable = some [];
}

abbrev loaded : Runtime
loaded = record empty {
  static_head = record { self = 0x10; kind = 0; module_size = 68; module_at = 0x1000 } ∷ [];
}

load_runs : load_module mem empty 0 0x10 0x1000 100 ≡ (success, loaded)
unfolding load_module load_present load_validated is_linked validate le32 stride scan_entries
    bad_entry memcmp check_runtime_for_uuid find_uuid link has_next
load_runs = refl

empty_ok : RuntimeOk mem empty
empty_ok = record {
  loaded = [];
  present = refl;
  caches = record { modules = tt; apart = tt };
  policy = ground arith;
}

validate_68 : validate mem 0x1000 68 ≡ valid 68
unfolding validate le32 stride scan_entries bad_entry memcmp
validate_68 = refl

abbrev loaded_ok : RuntimeOk mem loaded
loaded_ok = record {
  loaded = [];
  present = refl;
  caches = record {
    modules = ((validate_iff mem 0x1000 68 68).0 validate_68, tt);
    apart = (tt, tt);
  };
  policy = ground arith;
}

validate_iff_example : (validate mem 0x1000 100 ≡ valid 68) ↔ IsModule mem 0x1000 100 68
validate_iff_example = validate_iff mem 0x1000 100 68

query_lem_example :
    (o : Option QueryToken) × (query mem (some loaded) 1 0x2000 0x3000 ≡ (status mem 0x2000 o, o))
    × Answers mem 0x2000 (searched mem 0x2000 1 loaded []) o
query_lem_example =
    query_lem mem 0x2000 loaded 1 0x3000 loaded_ok (omega arith) (omega arith) (omega arith)

abbrev token : QueryToken
token = record {
  cache = record { self = 0x10; kind = 0; module_size = 68; module_at = 0x1000 };
  entry = 0x1000 + 24 + 22;
}

query_runs : query mem (some loaded) 1 0x2000 0x3000 ≡ (success, some token)
unfolding query search_heads search_chain search_module search_entries le32 stride memcmp
query_runs = refl

same_hash : memcmp mem hash_size 0x2000 (entry_at 0x1000 (module_stride mem 0x1000) 1) ≡ Ordering.eq
unfolding memcmp le32 stride
same_hash = refl

two_entries : 1 < module_count mem 0x1000
unfolding le32
two_entries = omega arith

query-load_module_example : (query mem (some loaded) query_all 0x2000 0x3000).0 ≡ success
query-load_module_example =
    query-load_module mem 0x2000 empty loaded 0 0x10 0x1000 100 0x3000 1 empty_ok load_runs
      (omega arith) (omega arith) two_entries same_hash

-- a second static cache, where one only is allowed
load_again : (load_module mem loaded 0 0x20 0x1000 100).0 ≡ duplicate
unfolding load_runs load_module load_present load_validated is_linked validate le32 stride
    scan_entries bad_entry memcmp check_runtime_for_uuid find_uuid link has_next
load_again = refl

load_refused_example : (load_module mem loaded 0 0x20 0x1000 100).1 ≡ loaded
load_refused_example = load_refused mem loaded 0 0x20 0x1000 100 (λ e. cc (load_again, e))

loads_keep_invariant_example : RuntimeOk mem (
    load_all mem (initialize_runtime false true false) (
      record { kind = 0; node = 0x10; address = 0x1000; len = 100 }
      ∷ record { kind = 1; node = 0x20; address = 0x1000; len = 100 }
      ∷ []))
loads_keep_invariant_example = loads_keep_invariant mem false true false (
    record { kind = 0; node = 0x10; address = 0x1000; len = 100 }
    ∷ record { kind = 1; node = 0x20; address = 0x1000; len = 100 }
    ∷ [])

flags_run : field mem (some token) 21 0x4000 ≡ (success, some 0)
unfolding field token_valid le32 stride
flags_run = refl

field_in_module_example :
    (0x1000 < token.entry + 21) × (token.entry + 21 < 0x1000 + 68) × (mem (token.entry + 21) ≡ 0)
field_in_module_example = field_in_module mem token 21 0x4000 0 flags_run

capabilities_run : query_get_capabilities mem (some token) 0x4000 ≡ (success, some 3)
unfolding query_get_capabilities get_capabilities token_valid le32 stride
capabilities_run = refl
