-- ===== src/MemLinear/Overrun.antt =====
-- `mla_realloc`: where its test for room goes wrong.
use ckit.Base.{ℕ, ◌+◌, ◌-◌, ◌^◌, ◌<◌, ◌≡◌, Option, arith, ret}
use ckit.MemLinear.{LinearAllocator, start, find_block, realloc, header_size, store, with_len}
use ckit.MemLinear.Valid.{Valid}

-- `mla_realloc` grows the latest allocation, of `size` bytes, to `newsize` in place although the block
-- has no room for it, whenever fewer than `size` bytes are left and `newsize - size` is more than
-- those: the difference in its test wraps around. What it then hands out ends behind the block.
pub realloc-overrun :
    (map : ℕ → Option ℕ) (a : LinearAllocator) (ptr newsize : ℕ)
    → Valid a
    → find_block a.b a.older ptr ≡ ret 0
    → let size = a.hdr (ptr - header_size) in
      ptr - header_size + header_size + size ≡ start a.b + a.b.len
      → a.b.size - a.b.len < size
      → a.b.size - a.b.len + size < newsize
      → newsize + size + a.b.len < 2 ^ 64
      → (a' : LinearAllocator) × (realloc map a ptr newsize ≡ ret (ptr, a'))
        × (a'.b.size < a'.b.len)
unfolding realloc
realloc-overrun map a ptr newsize v found top small more fits = (
  record (with_len a (a.b.len + (newsize - a.hdr (ptr - header_size)))) {
    hdr = store a.hdr (ptr - header_size) newsize;
  },
  ground (arith, found, v.blocks.0, v.top),
  omega arith,
)
