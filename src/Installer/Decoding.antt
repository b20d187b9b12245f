-- ===== src/Installer/Decoding.antt =====
-- Decompression and digests of pkgs/installer/util.c: `decoded_account`, `inflate_limited`, `digest`
-- and `hex_encode`. zlib and OpenSSL are parameters.
pub mod Bounds
use minidarwin.Prelude.{
  ℕ, zero, suc, ◌+◌, ◌-◌, ◌*◌, ◌/◌, ◌%◌, ◌≤◌, ◌<◌, ◌≡◌, ◌⊎◌, Bool, true, false, not, ◌&&◌, ◌||◌,
  Option, none, some, List, [], ◌∷◌, ◌++◌, Bytes, codes, length, ltb, leb, ◌==◌, if◌then◌else◌,
}
use minidarwin.Installer.Result.{
  Fault, decompression_limit, inflate_failed, size_mismatch, unknown_digest, out_of_fuel, Result,
  ok, err, ◌>>=◌, ◌>>◌, die_if,
}
use minidarwin.Installer.Paths.{is_empty, str_eq}

abbrev pub limit_decoded : ℕ
limit_decoded = 1073741824

-- `total` is the static variable decoded_total.
unfoldable pub decoded_account : ℕ → ℕ → Result ℕ
decoded_account total n = do
  die_if (ltb (limit_decoded - total) n) decompression_limit
  ok (total + n)

-- What `inflate` returns: Z_OK, Z_STREAM_END or an error.
pub data InflateStatus : Type 0 where
  z_ok z_stream_end z_error : InflateStatus

-- One call of `inflate`: its status, what it has written, the input that is left and the stream.
pub record Step (State : Type 0) : Type 0 where
  pub status : InflateStatus
  pub written : Bytes
  pub avail_in : ℕ
  pub stream : State

-- `start` is inflateInit2 with the window bits and the input, `inflate` a call with so much room.
pub record Zlib : Type 1 where
  pub State : Type 0
  pub start : ℕ → Bytes → Option State
  pub inflate : State → ℕ → Step State

abbrev pub uint_max : ℕ
uint_max = 4294967295

-- The capacity with which a round begins.
unfoldable pub grow : ℕ → ℕ → ℕ → Result ℕ
grow limit cap used =
    if used == cap
    then (if cap == limit
        then err decompression_limit
        else ok (if ltb (limit / 2) cap then limit else cap * 2))
    else ok cap

-- room > UINT_MAX ? UINT_MAX : room
unfoldable pub offered : ℕ → ℕ
offered room = if ltb uint_max room then uint_max else room

-- What the round does with the status: `none` goes on, `some` leaves the loop.
unfoldable pub after_call : InflateStatus → ℕ → ℕ → Result Bool
after_call z_error avail_in avail_out = err inflate_failed
after_call z_stream_end avail_in avail_out = ok true
after_call z_ok avail_in avail_out =
    if avail_in == 0 && ltb 0 avail_out then err inflate_failed else ok false

-- The `do` loop. The result holds the output and the input that is left.
unfoldable pub inflate_loop : ℕ → (z : Zlib) → z.State → ℕ → ℕ → Bytes → Result (Bytes × ℕ)
inflate_loop zero z s limit cap out = err out_of_fuel
inflate_loop (suc fuel) z s limit cap out = do
  room ← grow limit cap (length out)
  let step = z.inflate s (offered (room - length out))
  stop ← after_call step.status step.avail_in (offered (room - length out) - length step.written)
  let next = inflate_loop fuel z step.stream limit room (out ++ step.written)
  if stop then ok (out ++ step.written, step.avail_in) else next

unfoldable pub first_capacity : ℕ → ℕ
first_capacity expected = if expected == 0 then 65536 else expected

-- Each round that goes on consumes input or writes output.
unfoldable pub rounds : Bytes → ℕ → ℕ
rounds input limit = length input + limit + 1

-- The checks after the loop.
unfoldable pub accepted : ℕ → ℕ → (Bytes × ℕ) → Result (Bytes × ℕ)
accepted total expected (out, avail_in) = do
  die_if (not (avail_in == 0) || (not (expected == 0) && not (length out == expected)))
      size_mismatch
  sum ← decoded_account total (length out)
  ok (out, sum)

unfoldable pub inflate_from : (z : Zlib) → Option z.State → ℕ → ℕ → ℕ → Result (Bytes × ℕ)
inflate_from z none fuel expected limit = err inflate_failed
inflate_from z (some s) fuel expected limit = do
  die_if (ltb limit (first_capacity expected)) decompression_limit
  inflate_loop fuel z s limit (first_capacity expected) []

-- The decoded bytes and the new total of decoded bytes.
unfoldable pub inflate_limited : Zlib → ℕ → Bytes → ℕ → ℕ → ℕ → Result (Bytes × ℕ)
inflate_limited z total input window_bits expected limit = do
  die_if (ltb uint_max (length input)) inflate_failed
  end ← inflate_from z (z.start window_bits input) (rounds input limit) expected limit
  accepted total expected end

pub data Algorithm : Type 0 where
  sha1 md5 sha256 sha512 : Algorithm

unfoldable pub algorithm_named : Bytes → Option Algorithm
algorithm_named name =
    if str_eq name (codes "sha1")
    then some sha1
    else if str_eq name (codes "md5")
    then some md5
    else if str_eq name (codes "sha256")
    then some sha256
    else if str_eq name (codes "sha512")
    then some sha512
    else none

-- EVP_Digest, which gives `none` when it fails
abbrev pub Openssl : Type 0
Openssl = Algorithm → Bytes → Option Bytes

abbrev pub or_unknown : Option Bytes → Result Bytes
or_unknown none = err unknown_digest
or_unknown (some b) = ok b

unfoldable pub digest : Openssl → Bytes → Bytes → Result Bytes
digest evp input name = elim (algorithm_named name) [
  | none ↦ err unknown_digest
  | some algorithm ↦ or_unknown (evp algorithm input)
]

unfoldable pub hex_digit : ℕ → ℕ
hex_digit n = if ltb n 10 then b'0' + n else b'a' + (n - 10)

unfoldable pub hex_encode : Bytes → Bytes
hex_encode [] = []
hex_encode (c ∷ s) = hex_digit (c / 16 % 16) ∷ hex_digit (c % 16) ∷ hex_encode s
