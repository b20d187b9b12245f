-- ===== src/Kernel/Aes/RoundTrip.antt =====
-- Encryption and decryption of pkgs/xnu/support/kernel-aes.c together.
use minidarwin.Prelude.{
  ℕ, suc, ◌/◌, ◌-◌, ◌^◌, ◌≡◌, refl, sym, ap, ◌∙◌, true, not, ◌&&◌, Option, none, some, List, [],
  ◌∷◌, ◌++◌, Bytes, All, length, arith, leb, Bool-cases, Option-cases, inl, inr, ◌==◌,
}
use minidarwin.Kernel.Aes.{
  Cipher, Direction, encrypt, decrypt, Context, xor_block, set_key, init, check, ecb_blocks,
  encrypt_chain, decrypt_chain, encrypt_cbc, decrypt_cbc,
}
use minidarwin.Kernel.Aes.Xor.{IsBlock, xor_block_twice, xor_block-IsBlock}

-- What is documented of a block cipher: under the two schedules of one key, decryption undoes
-- encryption on blocks, and encryption gives blocks.
pub record Inverse {Key : Type 0} (c : Cipher Key) (ke kd : Key) : Type 0 where
  pub undoes : (b : Bytes) → IsBlock b → c.decrypt_block kd (c.encrypt_block ke b) ≡ b
  pub gives_block : (b : Bytes) → IsBlock b → IsBlock (c.encrypt_block ke b)

module _ {Key : Type 0} (c : Cipher Key) (ke kd : Key) (inverse : Inverse c ke kd) where
  chain_round_trip :
      (iv : Bytes) (bs : List Bytes)
      → IsBlock iv
      → All IsBlock bs
      → decrypt_chain c kd iv (encrypt_chain c ke iv bs).0 ≡ (bs, (encrypt_chain c ke iv bs).1)
  unfolding encrypt_chain decrypt_chain
  chain_round_trip iv [] h a = refl
  chain_round_trip iv (b ∷ bs) h a =
      let x = xor_block-IsBlock b iv a.0 h in
      let out = c.encrypt_block ke (xor_block b iv) in
      let rest = chain_round_trip out bs (inverse.gives_block (xor_block b iv) x) a.1 in
      rw (inverse.undoes (xor_block b iv) x, xor_block_twice b iv a.0 h)
        (ap (λ p. (b ∷ p.0, p.1)) rest)

  ecb_round_trip :
      (bs : List Bytes)
      → All IsBlock bs
      → ecb_blocks c c.decrypt_block kd (ecb_blocks c c.encrypt_block ke bs) ≡ bs
  unfolding ecb_blocks
  ecb_round_trip [] a = refl
  ecb_round_trip (b ∷ bs) a = rw (inverse.undoes b a.0) (ap (λ r. b ∷ r) (ecb_round_trip bs a.1))

-- Encrypting a list of blocks is encrypting its first part and then, with the chaining value that
-- this leaves, its second part.
pub encrypt_chain_append :
    {Key : Type 0} (c : Cipher Key) (k : Key) (iv : Bytes) (xs ys : List Bytes)
    → encrypt_chain c k iv (xs ++ ys) ≡ (
      (encrypt_chain c k iv xs).0 ++ (encrypt_chain c k (encrypt_chain c k iv xs).1 ys).0,
      (encrypt_chain c k (encrypt_chain c k iv xs).1 ys).1,
    )
unfolding encrypt_chain
encrypt_chain_append c k iv [] ys = refl
encrypt_chain_append c k iv (x ∷ xs) ys =
    let out = c.encrypt_block k (xor_block x iv) in
    ap (λ p. (out ∷ p.0, p.1)) (encrypt_chain_append c k out xs ys)

encrypt_chain-length :
    {Key : Type 0} (c : Cipher Key) (k : Key) (iv : Bytes) (bs : List Bytes)
    → length (encrypt_chain c k iv bs).0 ≡ length bs
unfolding encrypt_chain
encrypt_chain-length c k iv [] = refl
encrypt_chain-length c k iv (b ∷ bs) =
    ap suc (encrypt_chain-length c k (c.encrypt_block k (xor_block b iv)) bs)

init_context :
    {Key : Type 0} (c : Cipher Key) (bytes : Option Bytes) (d : Direction) (x : Context Key)
    → init c bytes d ≡ (x, true)
    → (k : Key) × (b : Bytes) × (bytes ≡ some b)
      × (set_key c d b ≡ some k)
      × (x ≡ record { key = some k; valid = some d })
unfolding init
init_context c none d x e = cc
init_context c (some bytes) d x e =
    let n = length bytes in
    elim (Bool-cases (not (n == 16) && (not (n == 24) && not (n == 32)))) [
      | inl bad ↦ absurd (let e' = rw bad at e in cc e')
      | inr good ↦ elim (Option-cases (set_key c d bytes)) [
        | inl fails ↦ absurd (let e' = rw (good, fails) at e in cc e')
        | inr (k, made) ↦ let e' = rw (good, made) at e in (k, bytes, refl, made, cc e')
      ]
    ]

some-inj : {A : Type 0} {a b : A} → some a ≡ some b → a ≡ b
some-inj e = cc

abbrev pub ready : {Key : Type 0} → Key → Direction → Context Key
ready k d = record { key = some k; valid = some d }

abbrev limit : ℕ
limit = (2 ^ 64 - 1) / 16

encrypt_ready :
    {Key : Type 0} (c : Cipher Key) (k : Key) (iv : Bytes) (bs : List Bytes)
    (r : List Bytes × Bytes)
    → encrypt_cbc c (some (ready k encrypt)) (some iv) bs true ≡ some r
    → (leb (length bs) limit ≡ true) × (encrypt_chain c k iv bs ≡ r)
unfolding encrypt_cbc check
encrypt_ready c k iv bs r e = ground arith

decrypt_ready :
    {Key : Type 0} (c : Cipher Key) (k : Key) (iv : Bytes) (bs : List Bytes)
    → leb (length bs) limit ≡ true
    → decrypt_cbc c (some (ready k decrypt)) (some iv) bs true ≡ some (decrypt_chain c k iv bs)
unfolding decrypt_cbc check
decrypt_ready c k iv bs e = ground arith

-- For a cipher whose decryption undoes its encryption on blocks, and contexts that are initialised
-- for the two directions with one key, the CBC decryption of what was encrypted, with the same IV,
-- gives the input back and leaves the same IV.
pub cbc_round_trip :
    {Key : Type 0} (c : Cipher Key) (bytes : Option Bytes) (xe xd : Context Key) (iv last : Bytes)
    (bs out : List Bytes)
    → ((b : Bytes) (ke kd : Key)
        → set_key c encrypt b ≡ some ke
        → set_key c decrypt b ≡ some kd
        → Inverse c ke kd)
    → init c bytes encrypt ≡ (xe, true)
    → init c bytes decrypt ≡ (xd, true)
    → IsBlock iv
    → All IsBlock bs
    → encrypt_cbc c (some xe) (some iv) bs true ≡ some (out, last)
    → decrypt_cbc c (some xd) (some iv) out true ≡ some (bs, last)
cbc_round_trip c bytes xe xd iv last bs out inverse e d h a run =
    let (ke, b, same, se, is_e) = init_context c bytes encrypt xe e in
    let (kd, b', same', sd, is_d) = init_context c bytes decrypt xd d in
    let inv = inverse b ke kd se (rw (some-inj (sym same ∙ same')) sd) in
    let (fits, chain) = encrypt_ready c ke iv bs (out, last) (rw is_e at run) in
    let n = encrypt_chain-length c ke iv bs in
    let back = chain_round_trip c ke kd inv iv bs h a in
    let short : leb (length out) limit ≡ true = rw (sym (ap (λ r. length (r.0)) chain) ∙ n) fits in
    rw is_d (decrypt_ready c kd iv out short ∙ ap some (rw chain at back))
