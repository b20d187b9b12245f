-- ===== src/Kernel/Aes.antt =====
-- pkgs/xnu/support/kernel-aes.c: ECB and CBC over a block cipher, which LibreSSL provides. A buffer of
-- n blocks is the list of them. Input and output may not overlap in part.
pub mod Xor
pub mod RoundTrip
use Prim.Native.Nat.{bit_xor}
use minidarwin.Prelude.{
  ℕ, zero, suc, ◌+◌, ◌*◌, ◌/◌, ◌%◌, ◌^◌, ◌-◌, ◌≡◌, Bool, true, false, not, ◌&&◌, ◌||◌, Option, none,
  some, List, [], ◌∷◌, Bytes, length, ltb, leb, ◌==◌, if◌then◌else◌,
}

-- What LibreSSL provides: the two key schedules, with a length in bits and the rounds, which fail with
-- none; and the two directions on a block.
pub record Cipher (Key : Type 0) : Type 0 where
  pub set_encrypt_key : Bytes → ℕ → ℕ → Option Key
  pub set_decrypt_key : Bytes → ℕ → ℕ → Option Key
  pub encrypt_block : Key → Bytes → Bytes
  pub decrypt_block : Key → Bytes → Bytes

pub data Direction : Type 0 where
  encrypt decrypt : Direction

abbrev pub same_direction : Direction → Direction → Bool
same_direction encrypt encrypt = true
same_direction decrypt decrypt = true
same_direction _ _ = false

-- `valid` is none for the zero of a cleared context.
pub record Context (Key : Type 0) : Type 0 where
  pub key : Option Key
  pub valid : Option Direction

abbrev pub cleared : (Key : Type 0) → Context Key
cleared Key = record { key = none; valid = none }

-- block[j] = a[j] ^ b[j]
unfoldable pub xor_block : Bytes → Bytes → Bytes
xor_block [] b = []
xor_block (x ∷ a) [] = []
xor_block (x ∷ a) (y ∷ b) = bit_xor x y ∷ xor_block a b

module _ {Key : Type 0} (c : Cipher Key) where
  unfoldable pub set_key : Direction → Bytes → Option Key
  set_key encrypt bytes = c.set_encrypt_key bytes (length bytes * 8) (length bytes / 4 + 6)
  set_key decrypt bytes = c.set_decrypt_key bytes (length bytes * 8) (length bytes / 4 + 6)

  -- `init` of a context that is there; none for a NULL key. The result is the context and whether
  -- the call succeeds.
  unfoldable pub init : Option Bytes → Direction → Context Key × Bool
  init none direction = (cleared Key, false)
  init (some bytes) direction =
      let n = length bytes in
      if not (n == 16) && (not (n == 24) && not (n == 32))
      then (cleared Key, false)
      else elim (set_key direction bytes) [
        | none ↦ (cleared Key, false)
        | some k ↦ (record { key = some k; valid = some direction }, true)
      ]

  -- The key that a call may use: `check` with the context, the direction, the number of blocks,
  -- and whether the buffers are not NULL.
  unfoldable pub check : Option (Context Key) → Direction → ℕ → Bool → Option Key
  check none direction blocks buffers = none
  check (some x) direction blocks buffers = elim x.valid [
    | none ↦ none
    | some d ↦
        if same_direction d direction
          && (leb blocks ((2 ^ 64 - 1) / 16) && (blocks == 0 || buffers))
        then x.key
        else none
  ]

  unfoldable pub ecb_blocks : (Key → Bytes → Bytes) → Key → List Bytes → List Bytes
  ecb_blocks f k [] = []
  ecb_blocks f k (b ∷ bs) = f k b ∷ ecb_blocks f k bs

  -- none is the result -1; the output otherwise.
  unfoldable pub encrypt_ecb : Option (Context Key) → List Bytes → Bool → Option (List Bytes)
  encrypt_ecb ctx input buffers = elim (check ctx encrypt (length input) buffers) [
    | none ↦ none
    | some k ↦ some (ecb_blocks c.encrypt_block k input)
  ]

  unfoldable pub decrypt_ecb : Option (Context Key) → List Bytes → Bool → Option (List Bytes)
  decrypt_ecb ctx input buffers = elim (check ctx decrypt (length input) buffers) [
    | none ↦ none
    | some k ↦ some (ecb_blocks c.decrypt_block k input)
  ]

  -- The loops give the output and the chain that they leave in `iv`.
  unfoldable pub encrypt_chain : Key → Bytes → List Bytes → List Bytes × Bytes
  encrypt_chain k chain [] = ([], chain)
  encrypt_chain k chain (b ∷ bs) =
      let out = c.encrypt_block k (xor_block b chain) in
      let (rest, last) = encrypt_chain k out bs in (out ∷ rest, last)

  unfoldable pub decrypt_chain : Key → Bytes → List Bytes → List Bytes × Bytes
  decrypt_chain k chain [] = ([], chain)
  decrypt_chain k chain (saved ∷ bs) =
      let out = xor_block (c.decrypt_block k saved) chain in
      let (rest, last) = decrypt_chain k saved bs in (out ∷ rest, last)

  unfoldable pub encrypt_cbc :
      Option (Context Key) → Option Bytes → List Bytes → Bool → Option (List Bytes × Bytes)
  encrypt_cbc ctx none input buffers = none
  encrypt_cbc ctx (some iv) input buffers = elim (check ctx encrypt (length input) buffers) [
    | none ↦ none
    | some k ↦ some (encrypt_chain k iv input)
  ]

  unfoldable pub decrypt_cbc :
      Option (Context Key) → Option Bytes → List Bytes → Bool → Option (List Bytes × Bytes)
  decrypt_cbc ctx none input buffers = none
  decrypt_cbc ctx (some iv) input buffers = elim (check ctx decrypt (length input) buffers) [
    | none ↦ none
    | some k ↦ some (decrypt_chain k iv input)
  ]
