-- ===== src/Hash.antt =====
-- pkg/rbase/hash.c: FNV-1a hashes of 32 and 64 bits.
mod Tests
use Prim.Native.Nat.{bit_xor}
use ckit.Base.{ℕ, ◌*◌, Bytes, [], ◌∷◌}
use ckit.Base.Words.{u32, u64}

-- The loop of `hash_fnv1a32`, on what is left of the buffer, and the function.
pub fnv1a32_loop : ℕ → Bytes → ℕ
fnv1a32_loop hash [] = hash
fnv1a32_loop hash (b ∷ buf) = fnv1a32_loop (u32 (bit_xor b hash * 0x01000193)) buf

pub hash_fnv1a32 : Bytes → ℕ
hash_fnv1a32 buf = fnv1a32_loop 0x811C9DC5 buf

-- The same for `hash_fnv1a64`.
pub fnv1a64_loop : ℕ → Bytes → ℕ
fnv1a64_loop hash [] = hash
fnv1a64_loop hash (b ∷ buf) = fnv1a64_loop (u64 (bit_xor b hash * 0x100000001B3)) buf

pub hash_fnv1a64 : Bytes → ℕ
hash_fnv1a64 buf = fnv1a64_loop 0xCBF29CE484222325 buf
