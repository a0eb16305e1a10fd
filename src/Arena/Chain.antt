-- ===== src/Arena/Chain.antt =====
-- `MemArenaShim` of pkg/rbase/mem_arena.c: what its chain holds.
use ckit.Base.{ℕ, ◌≡◌, refl, [], ret, arith}
use ckit.Arena.{
  MemAllocator, MemArenaShim, arena_init, arena_alloc, arena_realloc, arena_free, arena_free_all,
  free_entries, unlink,
}

module _ {W : Type 0} (underlying : MemAllocator W) where
  -- What calls of an arena lead to from `MemArenaShimInit` on.
  pub data Calls (outside : W) : MemArenaShim W → Type 0 where
    start : Calls outside (arena_init underlying outside)
    alloc :
        {a a' : MemArenaShim W} (size ptr : ℕ)
        → Calls outside a
        → arena_alloc underlying a size ≡ ret (ptr, a')
        → Calls outside a'
    realloc :
        {a a' : MemArenaShim W} (ptr newsize ptr2 : ℕ)
        → Calls outside a
        → arena_realloc underlying a ptr newsize ≡ ret (ptr2, a')
        → Calls outside a'
    free :
        {a : MemArenaShim W} (ptr : ℕ)
        → Calls outside a
        → Calls outside (arena_free underlying a ptr)

  arena_alloc-nil :
      (a a' : MemArenaShim W) (size ptr : ℕ)
      → a.allocations ≡ []
      → arena_alloc underlying a size ≡ ret (ptr, a')
      → a'.allocations ≡ []
  unfolding arena_alloc
  arena_alloc-nil a a' size ptr none e = ground (arith)

  arena_realloc-nil :
      (a a' : MemArenaShim W) (ptr newsize ptr2 : ℕ)
      → a.allocations ≡ []
      → arena_realloc underlying a ptr newsize ≡ ret (ptr2, a')
      → a'.allocations ≡ []
  unfolding arena_realloc unlink
  arena_realloc-nil a a' ptr newsize ptr2 none e = ground (arith)

  Calls-nil : {outside : W} {a : MemArenaShim W} → Calls outside a → a.allocations ≡ []
  unfolding arena_init
  Calls-nil start = refl
  Calls-nil (alloc {a = a} {a' = a'} size ptr c e) = arena_alloc-nil a a' size ptr (Calls-nil c) e
  Calls-nil (realloc {a = a} {a' = a'} ptr newsize ptr2 c e) =
      arena_realloc-nil a a' ptr newsize ptr2 (Calls-nil c) e
  Calls-nil (free ptr c) = Calls-nil c

  -- After any calls from `MemArenaShimInit` on the chain of an arena is empty, and `MemArenaShimFree`
  -- returns and frees nothing: what was allocated stays allocated.
  pub arena_free_all-Calls :
      {outside : W} {a : MemArenaShim W}
      → Calls outside a
      → (a.allocations ≡ []) × (arena_free_all underlying a ≡ ret a)
  unfolding arena_free_all free_entries
  arena_free_all-Calls c = (Calls-nil c, ground (arith, Calls-nil c))
