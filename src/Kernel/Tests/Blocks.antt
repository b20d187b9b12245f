-- ===== src/Kernel/Tests/Blocks.antt =====
-- CBC over a cipher that masks each block with the same bytes.
use minidarwin.Prelude.{◌≡◌, refl, true, some, List, [], ◌∷◌, Bytes, replicate, arith}
use minidarwin.Kernel.Aes.{
  Cipher, Direction, encrypt, decrypt, xor_block, set_key, init, check, encrypt_chain, encrypt_cbc,
  decrypt_cbc,
}
use minidarwin.Kernel.Aes.Xor.{IsBlock, xor_block_twice, xor_block-IsBlock}
use minidarwin.Kernel.Aes.RoundTrip.{Inverse, cbc_round_trip, ready}

abbrev mask : Bytes
mask = replicate 16 0x5a

abbrev masking : Cipher Bytes
masking = record {
  set_encrypt_key = λ bytes bits rounds. some mask;
  set_decrypt_key = λ bytes bits rounds. some mask;
  encrypt_block = λ key block. xor_block block mask;
  decrypt_block = λ key block. xor_block block mask;
}

mask-IsBlock : IsBlock mask
mask-IsBlock = (ground arith, refl)

masking-Inverse : (ke kd : Bytes) → Inverse masking ke kd
masking-Inverse ke kd = record {
  undoes = λ b h. xor_block_twice b mask h mask-IsBlock;
  gives_block = λ b h. xor_block-IsBlock b mask h mask-IsBlock;
}

abbrev key : Bytes
key = replicate 16 1

-- of two equal blocks the second differs
abbrev plain : List Bytes
plain = replicate 16 3 ∷ replicate 16 3 ∷ []

abbrev coded : List Bytes
coded = replicate 16 0x5b ∷ replicate 16 0x02 ∷ []

coded_runs :
    encrypt_cbc masking (some (ready mask encrypt)) (some (replicate 16 2)) plain true
    ≡ some (coded, replicate 16 0x02)
unfolding encrypt_cbc check encrypt_chain xor_block
coded_runs = refl

init_runs : (d : Direction) → init masking (some key) d ≡ (ready mask d, true)
unfolding init set_key
init_runs encrypt = refl
init_runs decrypt = refl

cbc_round_trip_example :
    decrypt_cbc masking (some (ready mask decrypt)) (some (replicate 16 2)) coded true
    ≡ some (plain, replicate 16 0x02)
cbc_round_trip_example =
    cbc_round_trip masking (some key) (ready mask encrypt) (ready mask decrypt) (replicate 16 2)
      (replicate 16 0x02) plain coded (λ b ke kd e d. masking-Inverse ke kd) (init_runs encrypt)
      (init_runs decrypt) (ground arith, refl) (ground arith) coded_runs
