-- ===== src/MemLinear.antt =====
-- pkg/rbase/mem_linear.c: an allocator that hands out the space of mapped pages from low to high.
-- As a "safe" build runs it: a call with a foreign pointer panics, and freed memory is not cleared.
-- The allocator owns a list of blocks; the first is the current one (`a->b`, then along `next`).
-- What the sources do not hold, `mmap` and `munmap`, are arguments: `map n` is what
-- `mem_pagealloc(n)` returns in the call at hand, and `unmap` whether `mem_pagefree` succeeds.
-- Memory is two maps from addresses: `mem` for the bytes, and `hdr` for the field `size` of the
-- `AllocHeader` at an address. They are apart because no allocation covers a header of another: the
-- eight bytes of a header count as bytes in use of its allocation, and `MemLinear.Alloc` and
-- `MemLinear.Realloc` show that a new allocation has no byte in use of another one.
pub mod Region
pub mod Valid
pub mod Alloc
pub mod Stack
pub mod Realloc
pub mod Overrun
pub mod Calls
pub mod Reset
mod Tests
use ckit.Base.{
  ℕ, zero, suc, ◌+◌, ◌-◌, ◌*◌, ◌/◌, ◌%◌, ◌^◌, ◌≤◌, ◌≡◌, Bool, true, false, ◌&&◌, List, [], ◌∷◌,
  Option, none, some, ltb, leb, ◌==◌, if◌then◌else◌, Outcome, ret, panic, fault, ◌>>=◌, ◌>>◌,
  assert,
}
use ckit.Base.Words.{u64, sub_u64, align2}

-- `sizeof` of `Block`, `AllocHeader` and `LinearAllocator`, with pointers of eight bytes.
abbrev pub block_size : ℕ
block_size = 24

abbrev pub header_size : ℕ
header_size = 8

abbrev pub allocator_size : ℕ
allocator_size = 40

-- `Block`, at the address `addr`; `next` is the place in a list.
pub record Block : Type 0 where
  pub addr : ℕ
  pub size : ℕ
  pub len : ℕ

-- `&b->data[0]`
abbrev pub start : Block → ℕ
start b = b.addr + block_size

-- `LinearAllocator`, with the memory that its functions read and write.
pub record LinearAllocator : Type 0 where
  pub b : Block
  pub older : List Block
  pub pagesize : ℕ
  pub hdr : ℕ → ℕ
  pub mem : ℕ → ℕ

-- `ALIGN_ALLOC`
abbrev pub align_alloc : ℕ → ℕ
align_alloc size = align2 size 8

-- A store into one cell of a map.
abbrev pub store : (ℕ → ℕ) → ℕ → ℕ → ℕ → ℕ
store f i v j = if i == j then v else f j

-- `memcpy(dst, src, n)`
abbrev pub memcpy : (ℕ → ℕ) → ℕ → ℕ → ℕ → ℕ → ℕ
memcpy f dst src n j = if leb dst j && ltb j (dst + n) then f (src + (j - dst)) else f j

-- The bytes that `mla_grow` maps.
pub grow_size : ℕ → ℕ → ℕ
grow_size pagesize size =
    let wanted = u64 (u64 (size + block_size) + pagesize) in
    let rem = wanted % pagesize in if rem == 0 then wanted else u64 (wanted + (pagesize - rem))

-- `mla_grow`
pub grow : (ℕ → Option ℕ) → LinearAllocator → ℕ → Option LinearAllocator
grow map a size =
    let bytes = grow_size a.pagesize size in
    elim (map (bytes / a.pagesize)) [
      | none ↦ none
      | some addr ↦ some (record a {
        b = record { addr = addr; size = sub_u64 bytes block_size; len = 0 };
        older = a.b ∷ a.older;
      })
    ]

-- The end of `mla_alloc`: it takes `allocsize` bytes of the current block.
pub take_space : LinearAllocator → ℕ → ℕ × LinearAllocator
take_space a allocsize =
    let ah = start a.b + a.b.len in
    (
      ah + header_size,
      record a {
        b = record { addr = a.b.addr; size = a.b.size; len = u64 (a.b.len + allocsize) };
        hdr = store a.hdr ah (sub_u64 allocsize header_size);
      },
    )

-- `mla_alloc`
pub alloc : (ℕ → Option ℕ) → LinearAllocator → ℕ → Option (ℕ × LinearAllocator)
alloc map a size =
    let allocsize = align_alloc (u64 (size + header_size)) in
    if ltb (sub_u64 a.b.size a.b.len) allocsize
    then elim (grow map a allocsize) [ none ↦ none | some a' ↦ some (take_space a' allocsize) ]
    else some (take_space a allocsize)

-- `find_block`: how many blocks are newer than the one that `ptr` belongs to.
pub find_block : Block → List Block → ℕ → Outcome ℕ
find_block b [] ptr =
    let addr = sub_u64 ptr header_size in
    if leb (start b) addr && ltb addr (start b + b.size) then ret 0 else panic
find_block b (c ∷ cs) ptr =
    let addr = sub_u64 ptr header_size in
    let older = find_block c cs ptr in
    if leb (start b) addr && ltb addr (start b + b.size) then ret 0 else older >>= λ i. ret (suc i)

-- `is_most_recent_alloc`, of the header at `ah` in the block with the index `i`.
pub is_most_recent_alloc : LinearAllocator → ℕ → ℕ → Bool
is_most_recent_alloc a i ah = i == 0 && (ah + header_size + a.hdr ah) == (start a.b + a.b.len)

-- The allocator with another length of its current block.
abbrev pub with_len : LinearAllocator → ℕ → LinearAllocator
with_len a len = record a { b = record { addr = a.b.addr; size = a.b.size; len = len } }

-- `mla_free`
pub free : LinearAllocator → ℕ → Outcome LinearAllocator
unfolding is_most_recent_alloc
free a ptr = do
  i ← find_block a.b a.older ptr
  let ah = ptr - header_size
  ret (
      if is_most_recent_alloc a i ah
      then with_len a (sub_u64 a.b.len (header_size + a.hdr ah))
      else a)

-- The last lines of `mla_realloc`; `memcpy` to the null pointer is not defined.
pub move_alloc : (ℕ → Option ℕ) → LinearAllocator → ℕ → ℕ → Outcome (ℕ × LinearAllocator)
move_alloc map a ptr newsize = elim (alloc map a newsize) [
  | none ↦ fault
  | some (ptr2, a') ↦
      ret (ptr2, record a' { mem = memcpy a'.mem ptr2 ptr (a'.hdr (ptr - header_size)) })
]

-- `mla_realloc`
pub realloc : (ℕ → Option ℕ) → LinearAllocator → ℕ → ℕ → Outcome (ℕ × LinearAllocator)
unfolding is_most_recent_alloc
realloc map a ptr newsize = do
  i ← find_block a.b a.older ptr
  let ah = ptr - header_size
  let size = a.hdr ah
  let resized = λ (len : ℕ). record (with_len a len) { hdr = store a.hdr ah newsize }
  let top = is_most_recent_alloc a i ah
  let avail = sub_u64 a.b.size a.b.len
  (if newsize == size
      then ret (ptr, a)
      else if top && ltb newsize size
      then ret (ptr, resized (sub_u64 a.b.len (size - newsize)))
      else if top && leb newsize (sub_u64 avail size)
      then ret (ptr, resized (u64 (a.b.len + sub_u64 newsize size)))
      else if ltb newsize size
      then ret (ptr, a)
      else move_alloc map a ptr newsize)

-- `MemLinearAlloc`; `hdr` and `mem` are what memory held before.
pub init : (ℕ → Option ℕ) → ℕ → ℕ → (ℕ → ℕ) → (ℕ → ℕ) → Outcome (Option LinearAllocator)
init map pagesize npages_init hdr mem = do
  assert (ltb 0 npages_init)
  ret (elim (map npages_init) [
    | none ↦ none
    | some addr ↦
        let size = sub_u64 (u64 (npages_init * pagesize)) block_size in
        some (record {
          b = record { addr = addr; size = size; len = allocator_size };
          older = [];
          pagesize = pagesize;
          hdr = hdr;
          mem = mem;
        })
  ])

-- What a call of `mem_pagefree` is given.
pub record Unmapped : Type 0 where
  pub addr : ℕ
  pub npages : ℕ

-- The arguments of the call in `mla_free_block`.
abbrev pub pages_of : ℕ → Block → Unmapped
pages_of pagesize b = record { addr = b.addr; npages = u64 (b.size + block_size) / pagesize }

module _ (unmap : Unmapped → Bool) (pagesize : ℕ) where
  -- `mla_free_block`
  pub free_block : Block → Outcome Unmapped
  free_block b = if unmap (pages_of pagesize b) then ret (pages_of pagesize b) else panic

  -- The loop of `MemLinearReset`: the root block, and what was unmapped.
  pub reset_loop : Block → List Block → List Unmapped → Outcome (Block × List Unmapped)
  unfolding free_block
  reset_loop b [] freed = ret (b, freed)
  reset_loop b (c ∷ cs) freed = free_block b >>= λ u. reset_loop c cs (u ∷ freed)

  -- The loop of `MemLinearFree`.
  pub free_loop : List Block → List Unmapped → Outcome (List Unmapped)
  unfolding free_block
  free_loop [] freed = ret freed
  free_loop (b ∷ bs) freed = free_block b >>= λ u. free_loop bs (u ∷ freed)

-- `MemLinearReset`
pub reset : (Unmapped → Bool) → LinearAllocator → Outcome (LinearAllocator × List Unmapped)
reset unmap a = do
  (root, freed) ← reset_loop unmap a.pagesize a.b a.older []
  ret (
    record a {
      b = record { addr = root.addr; size = root.size; len = allocator_size };
      older = [];
    },
    freed,
  )

-- `MemLinearFree`
pub free_all : (Unmapped → Bool) → LinearAllocator → Outcome (List Unmapped)
free_all unmap a = free_loop unmap a.pagesize (a.b ∷ a.older) []
