-- ===== src/Kernel/Tests/Generators.antt =====
-- A generator over a toy digest of two bytes, with a reseed interval of two.
use minidarwin.Prelude.{
  ◌%◌, ◌<◌, ◌≡◌, ◌↔◌, refl, true, false, some, [], ◌∷◌, Bytes, length, replicate, length-replicate,
  arith,
}
use minidarwin.Kernel.Drbg.{
  Digest, null, buffer, valid_input, State, success, turn, update, must_reseed, blocks, produce,
  refuses, generate, instantiate, fresh,
}
use minidarwin.Kernel.Drbg.Length.{GivesOutput, generate-length}
use minidarwin.Kernel.Drbg.Counter.{Request, serve, generate_served}

abbrev toy : Digest
toy = record {
  known = true;
  output_size = 2;
  hmac = λ key message. replicate 2 (length message % 256);
  max_entropy_size = 1000;
  max_personal_size = 1000;
  max_additional_size = 1000;
  max_request_size = 1000;
  reseed_interval = 2;
}

toy-GivesOutput : GivesOutput toy
toy-GivesOutput = record {
  not_empty = omega arith;
  full = λ key message. length-replicate 2 (length message % 256);
}

abbrev seeded : State
seeded = record { initialized = true; reseed_counter = 1; key = 53 ∷ 53 ∷ []; value = 2 ∷ 2 ∷ [] }

seeds :
    instantiate toy (some (fresh toy)) (buffer (replicate 40 1)) (buffer (replicate 10 2)) (null 0)
    ≡ (success, some seeded)
unfolding instantiate valid_input update turn
seeds = refl

abbrev served : State
served = record { initialized = true; reseed_counter = 2; key = 3 ∷ 3 ∷ []; value = 2 ∷ 2 ∷ [] }

-- three bytes, of two blocks
abbrev request : Request
request = record { amount = 3; output = true; extra = null 0 }

abbrev given : Bytes
given = 2 ∷ 2 ∷ 2 ∷ []

gives_three : generate toy (some seeded) 3 true (null 0) ≡ (success, some served, given)
unfolding generate refuses valid_input must_reseed produce update turn blocks
gives_three = refl

generate-length_example : length given ≡ 3
generate-length_example =
    generate-length toy (some seeded) (some served) 3 true (null 0) given toy-GivesOutput
      gives_three

request_valid : refuses toy 3 true (null 0) ≡ false
unfolding refuses valid_input
request_valid = refl

generate_served_example :
    ((generate toy (serve toy (some seeded) (request ∷ request ∷ [])) 3 true (null 0)).0 ≡ success)
    ↔ (2 < 2)
generate_served_example =
    generate_served toy seeded (request ∷ request ∷ []) request refl refl
      (request_valid, (request_valid, tt)) request_valid
