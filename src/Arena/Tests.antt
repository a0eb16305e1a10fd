-- ===== src/Arena/Tests.antt =====
-- An arena over an allocator that only counts up.
use ckit.Base.{ℕ, ◌+◌, ◌≡◌, refl, [], ret}
use ckit.Arena.{MemAllocator, MemArenaShim, arena_init, arena_alloc, arena_free_all}
use ckit.Arena.Chain.{Calls, start, alloc, arena_free_all-Calls}

-- The address behind all blocks, and how often `free` was called.
abbrev counting : MemAllocator (ℕ × ℕ)
counting = record {
  alloc = λ size out. (out.0, (out.0 + size, out.1));
  realloc = λ ptr size out. (out.0, (out.0 + size, out.1));
  free = λ ptr out. (out.0, out.1 + 1);
}

abbrev behind : MemArenaShim (ℕ × ℕ)
behind = record { allocations = []; outside = (4144, 0) }

-- 40 bytes with their entry, from 4096 on.
allocated : Calls counting (4096, 0) behind
unfolding arena_alloc arena_init
allocated = alloc 40 4104 start refl

arena_free_all-Calls_example :
    (behind.allocations ≡ []) × (arena_free_all counting behind ≡ ret behind)
arena_free_all-Calls_example = arena_free_all-Calls counting allocated
