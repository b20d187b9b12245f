-- ===== src/Kernel/Memory.antt =====
-- Byte-addressed memory as pkgs/xnu/support/trust-cache.c reads it: `le32` of that file and the
-- `memcmp` of C. The caller of that file keeps the bytes it passes immutable, so memory is a
-- function of the address. A byte is below 256.
pub mod Compare
use minidarwin.Prelude.{ℕ, zero, suc, ◌+◌, ◌*◌, compare, Ordering}

abbrev pub Memory : Type 0
Memory = ℕ → ℕ

-- `|` of disjoint bytes is their sum.
unfoldable pub le32 : Memory → ℕ → ℕ
le32 mem p = mem p + mem (p + 1) * 0x100 + mem (p + 2) * 0x1_0000 + mem (p + 3) * 0x100_0000

-- the sign of `memcmp(p, q, n)`
unfoldable pub memcmp : Memory → ℕ → ℕ → ℕ → Ordering
memcmp mem zero p q = Ordering.eq
memcmp mem (suc n) p q = elim (compare (mem p) (mem q)) [
  | Ordering.lt ↦ Ordering.lt
  | Ordering.gt ↦ Ordering.gt
  | Ordering.eq ↦ memcmp mem n (p + 1) (q + 1)
]
