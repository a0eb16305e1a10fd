-- ===== src/Arena.antt =====
-- pkg/rbase/mem_arena.c: `MemArenaShim`, which is to free all that was allocated at once.
-- The allocator below is not part of the sources: its functions are parameters that change what is
-- outside, a `W`. NULL is 0. A chain of entries is the list of their addresses, so that the tail of a
-- chain is `next`, and to read an entry that was freed is not defined.
pub mod Chain
mod Tests
use ckit.Base.{
  ℕ, ◌+◌, ◌-◌, Bool, true, false, not, List, [], ◌∷◌, ◌==◌, if◌then◌else◌, Outcome, ret, fault,
  ◌>>=◌, ◌>>◌, assert, defined,
}
use ckit.Base.Words.{u64}

-- `sizeof(MemArenaShimEntry)`
abbrev pub entry_size : ℕ
entry_size = 8

-- `ENT_TO_PTR` and `PTR_TO_ENT`
abbrev pub ent_to_ptr : ℕ → ℕ
ent_to_ptr e = e + entry_size

abbrev pub ptr_to_ent : ℕ → ℕ
ptr_to_ent ptr = ptr - entry_size

-- `MemAllocator`: `alloc`, `realloc` and `free`.
pub record MemAllocator (W : Type 0) : Type 0 where
  pub alloc : ℕ → W → ℕ × W
  pub realloc : ℕ → ℕ → W → ℕ × W
  pub free : ℕ → W → W

-- `MemArenaShim`: the chain from `allocations` on, and what is outside.
pub record MemArenaShim (W : Type 0) : Type 0 where
  pub allocations : List ℕ
  pub outside : W

-- `e->next`, where `e` begins the chain.
abbrev pub next_entry : List ℕ → List ℕ
next_entry [] = []
next_entry (e ∷ es) = es

-- The loop of `MemArenaShim_realloc`, which looks for the entry that was moved and reads its `next`.
pub unlink : List ℕ → ℕ → Outcome (List ℕ)
unlink [] ptr = ret []
unlink (e ∷ es) ptr =
    let more = unlink es ptr in
    if ent_to_ptr e == ptr then fault else (more >>= λ rest. ret (e ∷ rest))

module _ {W : Type 0} (underlying : MemAllocator W) where
  -- `MemArenaShimInit`
  pub arena_init : W → MemArenaShim W
  arena_init outside = record { allocations = []; outside = outside }

  -- `MemArenaShim_alloc`: the pointer.
  pub arena_alloc : MemArenaShim W → ℕ → Outcome (ℕ × MemArenaShim W)
  arena_alloc a size = do
    let (e, out) = underlying.alloc (u64 (entry_size + size)) a.outside
    defined (not (e == 0))
    let chain = e ∷ a.allocations
    ret (ent_to_ptr e, record { allocations = next_entry chain; outside = out })

  -- `MemArenaShim_realloc`
  pub arena_realloc : MemArenaShim W → ℕ → ℕ → Outcome (ℕ × MemArenaShim W)
  arena_realloc a ptr newsize = do
    assert (not (ptr == 0))
    let (newe, out) = underlying.realloc (ptr_to_ent ptr) (u64 (entry_size + newsize)) a.outside
    let ptr2 = ent_to_ptr newe
    chain ← (if ptr == ptr2 then ret a.allocations else unlink a.allocations ptr)
    ret (ptr2, record { allocations = chain; outside = out })

  -- `MemArenaShim_free`
  abbrev pub arena_free : MemArenaShim W → ℕ → MemArenaShim W
  arena_free a ptr = a

  -- The loop of `MemArenaShimFree`: each entry is read behind its `memfree`.
  pub free_entries : List ℕ → W → Outcome W
  free_entries [] out = ret out
  free_entries (e ∷ es) out = let freed = underlying.free e out in fault

  -- `MemArenaShimFree`
  pub arena_free_all : MemArenaShim W → Outcome (MemArenaShim W)
  arena_free_all a = do
    out ← free_entries a.allocations a.outside
    ret (record { allocations = a.allocations; outside = out })
