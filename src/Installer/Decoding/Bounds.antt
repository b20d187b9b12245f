-- ===== src/Installer/Decoding/Bounds.antt =====
-- The sizes in `inflate_limited` of pkgs/installer/util.c.
use minidarwin.Prelude.{
  ℕ, zero, suc, ◌+◌, ◌-◌, ◌≤◌, ◌<◌, ◌≡◌, ◌≢◌, ◌⊎◌, inl, inr, false, Option, none, some, [], ◌++◌,
  Bytes, length, length-append, arith, ltb, ltb-false, refl,
}
use minidarwin.Installer.Result.{
  Fault, decompression_limit, inflate_failed, out_of_fuel, Outcome, bind-Outcome, if-Outcome,
  die-Outcome,
}
use minidarwin.Installer.Decoding.{
  Zlib, InflateStatus, z_ok, z_stream_end, z_error, limit_decoded, decoded_account, grow, offered,
  after_call, inflate_loop, first_capacity, rounds, accepted, inflate_from, inflate_limited,
}

-- What zlib documents of `inflate`: it writes no more than it has room for, it never gives input
-- back, and a call that returns Z_OK has made progress. `left` is the input that a stream holds.
pub record IsZlib (z : Zlib) : Type 0 where
  pub left : z.State → ℕ
  pub starts :
      (window : ℕ) (input : Bytes) (s : z.State)
      → z.start window input ≡ some s
      → left s ≤ length input
  pub fits : (s : z.State) (room : ℕ) → length (z.inflate s room).written ≤ room
  pub remains : (s : z.State) (room : ℕ) → left (z.inflate s room).stream ≤ left s
  pub progress :
      (s : z.State) (room : ℕ)
      → (z.inflate s room).status ≡ z_ok
      → (left (z.inflate s room).stream < left s) ⊎ (0 < length (z.inflate s room).written)

-- The faults of a decompression.
abbrev pub IsDecodingFault : Fault → Type 0
IsDecodingFault fault = fault ≢ out_of_fuel

grow-Outcome :
    (limit cap used : ℕ)
    → 0 < cap
    → cap ≤ limit
    → used ≤ cap
    → Outcome IsDecodingFault
        (λ room. (0 < room) × (room ≤ limit) × (used < room))
        (grow limit cap used)
unfolding grow
grow-Outcome limit cap used p q r = ground arith

offered_bound : (room : ℕ) → 0 < room → (0 < offered room) × (offered room ≤ room)
unfolding offered
offered_bound room h = ground arith

after_call-Outcome :
    (status : InflateStatus) (avail_in avail_out : ℕ)
    → Outcome IsDecodingFault
        (λ stop. (stop ≡ false → status ≡ z_ok))
        (after_call status avail_in avail_out)
unfolding after_call
after_call-Outcome z_error i o = ground arith
after_call-Outcome z_stream_end i o = ground arith
after_call-Outcome z_ok i o = ground arith

accepted-Outcome :
    (total expected limit : ℕ) (out : Bytes) (avail_in : ℕ)
    → total ≤ limit_decoded
    → length out ≤ limit
    → Outcome IsDecodingFault
        (λ end.
          (length end.0 ≤ limit)
          × (expected ≢ 0 → length end.0 ≡ expected)
          × (end.1 ≡ total + length end.0)
          × (end.1 ≤ limit_decoded))
        (accepted total expected (out, avail_in))
unfolding accepted decoded_account
accepted-Outcome total expected limit out avail_in h fits = ground arith

module _ (z : Zlib) (documented : IsZlib z) where
  -- A round leaves the output within its room, and one that goes on makes the measure smaller.
  round_bounds :
      (s : z.State) (limit room : ℕ) (out : Bytes)
      → (0 < room) × (room ≤ limit) × (length out < room)
      → (length (out ++ (z.inflate s (offered (room - length out))).written) ≤ room)
        × ((z.inflate s (offered (room - length out))).status ≡ z_ok
            → documented.left (z.inflate s (offered (room - length out))).stream
                + (limit - length (out ++ (z.inflate s (offered (room - length out))).written))
              < documented.left s + (limit - length out))
  round_bounds s limit room out (p, q, r) =
      let n = offered (room - length out) in
      let (_, b) = offered_bound (room - length out) (omega arith) in
      let f = documented.fits s n in
      let l = documented.remains s n in
      let e = length-append out (z.inflate s n).written in
      (
        omega arith,
        λ g. elim (documented.progress s n g) [ inl c ↦ omega arith | inr c ↦ omega arith ],
      )

  -- The output stays within the limit, and the fuel is enough.
  inflate_loop-Outcome :
      (fuel : ℕ) (s : z.State) (limit cap : ℕ) (out : Bytes)
      → 0 < cap
      → cap ≤ limit
      → length out ≤ cap
      → documented.left s + (limit - length out) < fuel
      → Outcome IsDecodingFault
          (λ end. length (end.0) ≤ limit)
          (inflate_loop fuel z s limit cap out)
  unfolding inflate_loop
  inflate_loop-Outcome zero s limit cap out p q r m = absurd (omega arith)
  inflate_loop-Outcome (suc fuel) s limit cap out p q r m =
      bind-Outcome IsDecodingFault (λ room. (0 < room) × (room ≤ limit) × (length out < room))
        (λ (end : Bytes × ℕ). length end.0 ≤ limit) (grow limit cap (length out)) _
        (grow-Outcome limit cap (length out) p q r)
        λ room b.
          let n = offered (room - length out) in
          let (fits, less) = round_bounds s limit room out b in
          let within : length (out ++ (z.inflate s n).written) ≤ limit = omega arith in
          bind-Outcome IsDecodingFault (λ stop. (stop ≡ false → (z.inflate s n).status ≡ z_ok))
            (λ (end : Bytes × ℕ). length end.0 ≤ limit) _ _
            (after_call-Outcome (z.inflate s n).status (z.inflate s n).avail_in
              (n - length (z.inflate s n).written))
            λ stop goes.
              if-Outcome IsDecodingFault stop _ _ (λ (end : Bytes × ℕ). length end.0 ≤ limit)
                (λ _. within)
                (λ on.
                  let smaller = less (goes on) in
                  inflate_loop-Outcome fuel (z.inflate s n).stream limit room
                    (out ++ (z.inflate s n).written) (b.0) (b.1) fits (omega arith))

  first_capacity_pos : (expected : ℕ) → 0 < first_capacity expected
  unfolding first_capacity
  first_capacity_pos expected = ground arith

  inflate_from-Outcome :
      (start : Option z.State) (input : Bytes) (expected limit : ℕ)
      → ((s : z.State) → start ≡ some s → documented.left s ≤ length input)
      → Outcome IsDecodingFault
          (λ end. length (end.0) ≤ limit)
          (inflate_from z start (rounds input limit) expected limit)
  unfolding inflate_from rounds
  inflate_from-Outcome none input expected limit h = cc
  inflate_from-Outcome (some s) input expected limit h =
      die-Outcome IsDecodingFault decompression_limit (ltb limit (first_capacity expected)) _
        (λ (end : Bytes × ℕ). length end.0 ≤ limit) (cc)
        λ low.
          let within = ltb-false limit (first_capacity expected) low in
          let left = h s refl in
          inflate_loop-Outcome (length input + limit + 1) s limit (first_capacity expected) []
            (first_capacity_pos expected) within (omega arith) (omega arith)

  -- With a zlib that behaves as documented and a total within its limit, inflate_limited ends: the
  -- fuel of its loop is enough. Where it succeeds, the output is within the limit, has the length
  -- that is expected if one is, and is added to the total, which stays within its own limit.
  pub inflate_limited_bounds :
      (total : ℕ) (input : Bytes) (window expected limit : ℕ)
      → total ≤ limit_decoded
      → Outcome
          (λ fault. fault ≢ out_of_fuel)
          (λ end.
            (length end.0 ≤ limit)
            × (expected ≢ 0 → length end.0 ≡ expected)
            × (end.1 ≡ total + length end.0)
            × (end.1 ≤ limit_decoded))
          (inflate_limited z total input window expected limit)
  unfolding inflate_limited
  inflate_limited_bounds total input window expected limit h =
      die-Outcome IsDecodingFault inflate_failed (ltb 4294967295 (length input)) _ _ (cc) λ _.
        bind-Outcome IsDecodingFault (λ (end : Bytes × ℕ). length end.0 ≤ limit) _ _ _
          (inflate_from-Outcome (z.start window input) input expected limit
            (documented.starts window input))
          λ end fits. accepted-Outcome total expected limit end.0 end.1 h fits
