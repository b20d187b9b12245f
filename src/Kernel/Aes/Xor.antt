-- ===== src/Kernel/Aes/Xor.antt =====
-- Blocks of pkgs/xnu/support/kernel-aes.c and their exclusive or.
use Prim.Native.Nat.{bit_xor}
use minidarwin.Prelude.{
  ℕ, zero, suc, ◌<◌, ◌/◌, ◌≡◌, refl, Bool, true, ◌&&◌, [], ◌∷◌, Bytes, All, length, arith, ◌==◌,
}
use minidarwin.Kernel.Aes.{xor_block}

-- sixteen bytes
abbrev pub IsBlock : Bytes → Type 0
IsBlock b = All (λ x. x < 256) b × (length b ≡ 16)

-- every number below the bound passes
passes : (ℕ → Bool) → ℕ → Bool
passes test zero = true
passes test (suc bound) = test bound && passes test bound

passes_each : (test : ℕ → Bool) (bound i : ℕ) → passes test bound ≡ true → i < bound → test i ≡ true
unfolding passes
passes_each test zero i p lt = absurd (omega arith)
passes_each test (suc bound) i p lt = ground (arith, passes_each test bound i)

xor_table :
    passes (λ x. passes (λ y. bit_xor (bit_xor x y) y == x && (bit_xor x y / 256 == 0)) 256) 256
    ≡ true
unfolding passes
xor_table = refl

xor_byte : (x y : ℕ) → x < 256 → y < 256 → (bit_xor (bit_xor x y) y ≡ x) × (bit_xor x y < 256)
xor_byte x y h k =
    let row =
      passes_each (λ x. passes (λ y. bit_xor (bit_xor x y) y == x && (bit_xor x y / 256 == 0)) 256)
        256 x xor_table h in
    let cell =
      passes_each (λ y. bit_xor (bit_xor x y) y == x && (bit_xor x y / 256 == 0)) 256 y row k in
    ground (arith, cell)

xor_bytes :
    (a b : Bytes)
    → All (λ x. x < 256) a
    → All (λ x. x < 256) b
    → length a ≡ length b
    → (xor_block (xor_block a b) b ≡ a)
      × All (λ x. x < 256) (xor_block a b)
      × (length (xor_block a b) ≡ length a)
unfolding xor_block
xor_bytes [] b h k e = (refl, tt, refl)
xor_bytes (x ∷ a) [] h k e = absurd (omega arith)
xor_bytes (x ∷ a) (y ∷ b) h k e =
    let (back, small) = xor_byte x y h.0 k.0 in
    let (backs, smalls, long) = xor_bytes a b h.1 k.1 (omega arith) in
    (cc, (small, smalls), omega arith)

pub xor_block_twice : (a b : Bytes) → IsBlock a → IsBlock b → xor_block (xor_block a b) b ≡ a
xor_block_twice a b h k = (xor_bytes a b h.0 k.0 (omega arith)).0

pub xor_block-IsBlock : (a b : Bytes) → IsBlock a → IsBlock b → IsBlock (xor_block a b)
xor_block-IsBlock a b h k =
    let (_, small, long) = xor_bytes a b h.0 k.0 (omega arith) in (small, omega arith)
