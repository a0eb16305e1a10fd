-- ===== src/Base/Words.antt =====
-- Unsigned C arithmetic on 64-bit and 32-bit words, which wraps around, and `align2` of
-- pkg/rbase/defs.h.
use Prim.Native.Nat.{ℕ, ◌+◌, ◌-◌, ◌*◌, ◌/◌, ◌%◌, ◌^◌}

abbrev pub u32 : ℕ → ℕ
u32 n = n % 2 ^ 32

abbrev pub u64 : ℕ → ℕ
u64 n = n % 2 ^ 64

-- `a - b` on `u32` and on `u64` operands.
abbrev pub sub_u32 : ℕ → ℕ → ℕ
sub_u32 a b = (a + 2 ^ 32 - b) % 2 ^ 32

abbrev pub sub_u64 : ℕ → ℕ → ℕ
sub_u64 a b = (a + 2 ^ 64 - b) % 2 ^ 64

abbrev pub max_u64 : ℕ
max_u64 = 0xFFFFFFFFFFFFFFFF

abbrev pub max_u32 : ℕ
max_u32 = 0xFFFFFFFF

-- `align2(n, w)` on 64-bit operands, for a power of two `w`: clearing the bits of `w - 1` in a word
-- is rounding down to a multiple of `w`.
abbrev pub align2 : ℕ → ℕ → ℕ
align2 n w = u64 (n + (w - 1)) / w * w
