-- ===== src/Kernel/Drbg/Length.antt =====
-- The output of `generate` of pkgs/xnu/support/kernel-drbg.c.
use minidarwin.Prelude.{
  ℕ, zero, suc, ◌-◌, ◌≤◌, ◌<◌, ◌≡◌, Bool, Option, none, some, [], ◌∷◌, Bytes, length, take,
  length-take, length-append, ◌==◌, if◌then◌else◌, arith, Bool-cases, inl, inr,
}
use minidarwin.Kernel.Drbg.{Digest, Input, size, State, success, update, blocks, produce, generate}

-- What an HMAC promises: it gives output_size bytes, and some.
pub record GivesOutput (d : Digest) : Type 0 where
  pub not_empty : 0 < d.output_size
  pub full : (key message : Bytes) → length (d.hmac key message) ≡ d.output_size

module _ (d : Digest) (h : GivesOutput d) where
  blocks-length :
      (fuel n : ℕ) (key value : Bytes) → n ≤ fuel → length (blocks d fuel n key value).1 ≡ n
  unfolding blocks
  blocks-length zero n key value k = omega arith
  blocks-length (suc fuel) n key value k =
      let next = d.hmac key value in
      let rest = blocks-length fuel (n - d.output_size) key next (omega (arith, h.not_empty)) in
      let tail = (blocks d fuel (n - d.output_size) key next).1 in
      let block = take n (take d.output_size next) in
      let sizes = length-append block tail in
      let a = length-take n (take d.output_size next) in
      let b = length-take d.output_size next in
      elim (Bool-cases (n == 0)) [
        | inl none_left ↦ rw none_left (ground arith)
        | inr some_left ↦ rw some_left (omega (arith, rest, sizes, a, b, h.full key value))
      ]

  produce-length : (s : State) (n : ℕ) (extra : Input) → length (produce d s n extra).1 ≡ n
  unfolding produce
  produce-length s n extra =
      let s1 = if size extra == 0 then s else update d (extra ∷ []) s in
      blocks-length n n s1.key s1.value (omega arith)

-- With a digest whose HMAC gives output_size bytes, at least one, a call of generate that succeeds
-- gives exactly the bytes that were asked for.
pub generate-length :
    (d : Digest) (state state' : Option State) (n : ℕ) (out : Bool) (extra : Input) (bytes : Bytes)
    → GivesOutput d
    → generate d state n out extra ≡ (success, state', bytes)
    → length bytes ≡ n
unfolding generate
generate-length d none state' n out extra bytes h e = ground arith
generate-length d (some s) state' n out extra bytes h e =
    ground (arith, produce-length d h s n extra)
