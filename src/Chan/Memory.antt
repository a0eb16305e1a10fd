-- ===== src/Chan/Memory.antt =====
-- pkg/rbase/chan.c: where a channel and its slots lie in the memory that `ChanOpen` allocates.
-- The size of the system's semaphore, and with it where the field `recvx` stands, is not part of the
-- sources: `recvx_offset` is a parameter, a multiple of a cache line. The allocator is a parameter,
-- which answers with an address or with NULL, which is 0. An `elemsize` is below 2 ^ 63.
use ckit.Base.{
  ℕ, ◌+◌, ◌*◌, ◌/◌, ◌%◌, ◌^◌, ◌≤◌, ◌<◌, ◌≡◌, Bool, not, ltb, ◌==◌, if◌then◌else◌, Outcome, ret,
  panic, ◌>>=◌, ◌>>◌, assert, defined, arith,
}
use native.Mathlib.Nat.{mul-le-mul_right}
use ckit.Base.Words.{u64, align2}

-- `LINE_CACHE_SIZE`
abbrev pub line : ℕ
line = 64

module _ (recvx_offset : ℕ) where
  -- `sizeof(Chan)`: `recvx` begins the last cache line.
  abbrev pub sizeof_chan : ℕ
  sizeof_chan = recvx_offset + line

  -- Where `buf` begins: behind the four bytes of `recvx`, as it needs no alignment.
  abbrev pub buf_offset : ℕ
  buf_offset = recvx_offset + 4

  -- `memsize` of `ChanOpen`; signed arithmetic that overflows is not defined.
  unfoldable pub open_size : ℕ → ℕ → Outcome ℕ
  open_size elemsize bufcap = do
    let raw = sizeof_chan + bufcap * elemsize
    defined (ltb (raw + (line + 1) / 2 + line) (2 ^ 63))
    let memsize = align2 (raw + (line + 1) / 2) line
    (if ltb memsize sizeof_chan then panic else ret memsize)

  -- `ChanOpen`, up to what `open_chan` stores: `memptr` and the address of the channel.
  unfoldable pub open_memory : (ℕ → ℕ) → ℕ → ℕ → Outcome (ℕ × ℕ)
  open_memory memalloc elemsize bufcap = do
    memsize ← open_size elemsize bufcap
    let ptr = memalloc memsize
    let c = align2 ptr line
    defined (not (c == 0))
    ret (ptr, c)

  -- `chan_bufptr`
  pub chan_bufptr : ℕ → ℕ → ℕ → ℕ
  chan_bufptr elemsize c i = u64 (c + buf_offset + u64 (i * elemsize))

  -- `ChanFree`: what it gives back to the allocator.
  pub free_chan : Bool → ℕ → Outcome ℕ
  free_chan closed memptr = do assert closed; ret memptr

  -- `ChanOpen` of a channel with fewer than 2 ^ 63 - 256 bytes, by an allocator that has a block for
  -- each size: the channel begins on a cache line, and it lies in the block with its fields and with all
  -- of its slots, of which slot `i` reaches from `chan_bufptr` of `i` to `chan_bufptr` of `i + 1`.
  pub open_memory_lem :
      (memalloc : ℕ → ℕ) (elemsize bufcap i : ℕ)
      → recvx_offset % line ≡ 0
      → recvx_offset + bufcap * elemsize + 256 < 2 ^ 63
      → ((n : ℕ) → n < 2 ^ 63 → (0 < memalloc n) × (memalloc n + n < 2 ^ 64))
      → i ≤ bufcap
      → (memsize : ℕ) × (c : ℕ) × (open_size elemsize bufcap ≡ ret memsize)
        × (open_memory memalloc elemsize bufcap ≡ ret (memalloc memsize, c))
        × (c % line ≡ 0)
        × (memalloc memsize ≤ c)
        × (c + sizeof_chan ≤ memalloc memsize + memsize)
        × (chan_bufptr elemsize c i ≡ c + buf_offset + i * elemsize)
        × (chan_bufptr elemsize c i ≤ memalloc memsize + memsize)
  unfolding open_size open_memory chan_bufptr
  open_memory_lem memalloc elemsize bufcap i aligned small has_block le =
      let below : i * elemsize ≤ bufcap * elemsize = mul-le-mul_right elemsize le in
      let memsize = align2 (sizeof_chan + bufcap * elemsize + (line + 1) / 2) line in
      let block = has_block memsize (omega arith) in
      let c = align2 (memalloc memsize) line in
      let sizes : open_size elemsize bufcap ≡ ret memsize = ground arith in
      (
        memsize,
        c,
        sizes,
        ground (arith, sizes, block),
        omega arith,
        omega (arith, block),
        omega (arith, block),
        omega (arith, below, block),
        omega (arith, below, block),
      )
