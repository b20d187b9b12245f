-- ===== src/Kernel/Drbg.antt =====
-- pkgs/xnu/support/kernel-drbg.c: HMAC_DRBG. The digest with its HMAC and the limits of corecrypto's
-- headers are arguments.
pub mod Length
pub mod Counter
use minidarwin.Prelude.{
  ℕ, zero, suc, ◌+◌, ◌-◌, ◌≡◌, Bool, true, false, not, ◌&&◌, ◌||◌, Option, none, some, List, [],
  ◌∷◌, ◌++◌, Bytes, length, take, replicate, ltb, leb, ◌==◌, if◌then◌else◌,
}

-- `known` says that the digest is SHA-256 or SHA-512. `hmac` takes the key and the message.
pub record Digest : Type 0 where
  pub known : Bool
  pub output_size : ℕ
  pub hmac : Bytes → Bytes → Bytes
  pub max_entropy_size : ℕ
  pub max_personal_size : ℕ
  pub max_additional_size : ℕ
  pub max_request_size : ℕ
  pub reseed_interval : ℕ

-- A pointer with its size: NULL, or a buffer of that size.
pub data Input : Type 0 where
  null : ℕ → Input
  buffer : Bytes → Input

abbrev pub size : Input → ℕ
size (null n) = n
size (buffer b) = length b

abbrev pub bytes_of : Input → Bytes
bytes_of (null n) = []
bytes_of (buffer b) = b

abbrev pub is_there : Input → Bool
is_there (null n) = false
is_there (buffer b) = true

unfoldable pub valid_input : Input → ℕ → Bool
valid_input input maximum = leb (size input) maximum && (size input == 0 || is_there input)

-- `initialized` is that `di` is not NULL. The first output_size bytes of `key` and `value` count.
pub record State : Type 0 where
  pub initialized : Bool
  pub reseed_counter : ℕ
  pub key : Bytes
  pub value : Bytes

pub data Status : Type 0 where
  success param_error need_reseed : Status

abbrev pub concat : List Input → Bytes
concat [] = []
concat (i ∷ is) = bytes_of i ++ concat is

abbrev pub is_provided : List Input → Bool
is_provided [] = false
is_provided (i ∷ is) = not (size i == 0) || is_provided is

-- `custom` and the state are not NULL where they are used; NULL is none.
module _ (d : Digest) where
  -- one turn of the loop of `update`
  unfoldable pub turn : ℕ → List Input → State → State
  turn separator inputs s =
      let key = d.hmac s.key (s.value ++ separator ∷ concat inputs) in
      record s { key = key; value = d.hmac key s.value }

  unfoldable pub update : List Input → State → State
  update inputs s =
      let once = turn 0 inputs s in if is_provided inputs then turn 1 inputs once else once

  abbrev pub fresh : State
  fresh = record {
    initialized = true;
    reseed_counter = 1;
    key = replicate d.output_size 0;
    value = replicate d.output_size 1;
  }

  unfoldable pub instantiate : Option State → Input → Input → Input → Status × Option State
  instantiate none entropy nonce personal = (param_error, none)
  instantiate (some s) entropy nonce personal =
      if not d.known
        || (not (valid_input entropy d.max_entropy_size)
            || (not (valid_input nonce d.max_entropy_size)
                || (not (valid_input personal d.max_personal_size)
                    || (ltb (size entropy) 32 || ltb (size entropy + size nonce) 48))))
      then (param_error, some s)
      else (success, some (update (entropy ∷ nonce ∷ personal ∷ []) fresh))

  unfoldable pub reseed : Option State → Input → Input → Status × Option State
  reseed none entropy extra = (param_error, none)
  reseed (some s) entropy extra =
      if not s.initialized
        || (s.reseed_counter == 0
            || (ltb (size entropy) 32
                || (not (valid_input entropy d.max_entropy_size)
                    || not (valid_input extra d.max_additional_size))))
      then (param_error, some s)
      else (success, some (record (update (entropy ∷ extra ∷ []) s) { reseed_counter = 1 }))

  unfoldable pub must_reseed : Option State → Bool
  must_reseed none = true
  must_reseed (some s) =
      not s.initialized || (s.reseed_counter == 0 || ltb d.reseed_interval s.reseed_counter)

  -- The loop of `generate`: the value that it leaves, and the output. Each turn gives at least a
  -- byte, so that n turns are enough.
  unfoldable pub blocks : ℕ → ℕ → Bytes → Bytes → Bytes × Bytes
  blocks zero n key value = (value, [])
  blocks (suc fuel) n key value =
      let next = d.hmac key value in
      let (last, rest) = blocks fuel (n - d.output_size) key next in
      if n == 0 then (value, []) else (last, take n (take d.output_size next) ++ rest)

  -- What `generate` does once its arguments and the state have been tested.
  unfoldable pub produce : State → ℕ → Input → State × Bytes
  produce s n extra =
      let s1 = if size extra == 0 then s else update (extra ∷ []) s in
      let (value, out) = blocks n n s1.key s1.value in
      let s2 = update (extra ∷ []) (record s1 { value = value }) in
      (record s2 { reseed_counter = s2.reseed_counter + 1 }, out)

  -- `out` is whether the output is not NULL.
  unfoldable pub refuses : ℕ → Bool → Input → Bool
  refuses n out extra =
      not (leb n d.max_request_size && (n == 0 || out))
      || not (valid_input extra d.max_additional_size)

  unfoldable pub generate : Option State → ℕ → Bool → Input → Status × Option State × Bytes
  generate none n out extra =
      if refuses n out extra then (param_error, none, []) else (need_reseed, none, [])
  generate (some s) n out extra =
      let (s', bytes) = produce s n extra in
      if refuses n out extra
      then (param_error, some s, [])
      else if must_reseed (some s)
      then (need_reseed, some s, [])
      else (success, some s', bytes)

  unfoldable pub done : Option State → Option State
  done none = none
  done (some s) = some (record { initialized = false; reseed_counter = 0; key = []; value = [] })
