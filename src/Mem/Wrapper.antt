-- ===== src/Mem/Wrapper.antt =====
-- pkg/rbase/mem.h and mem.c: allocators as `Mem` handles, and `MemSyncWrapper`, as a safe build runs them.
-- `calloc`, `realloc` and `free` are not part of the sources: they are the parameter `System`, over the
-- memory, a `W`. NULL is `none`. The lock of a wrapper is free: one thread makes the calls.
use ckit.Base.{arith, ℕ, ◌≡◌, refl, Option, none, some, Outcome, ret, panic, fault, ◌>>=◌}

pub record System (W : Type 0) : Type 0 where
  pub calloc : ℕ → W → Option ℕ × W
  pub resize : ℕ → ℕ → W → Option ℕ × W
  pub release : ℕ → W → W

-- What a `Mem` points to: the allocator of the C library, the one that allocates nothing, or a wrapper
-- around another one.
pub data Handle : Type 0 where
  libc : Handle
  invalid : Handle
  wrapper : (inner : Handle) → Handle

module _ {W : Type 0} (os : System W) where
  -- `_mem_syncw_alloc`: it calls `alloc` of `m`, which is itself, with `w->m`. What is no wrapper has no
  -- mutex where it looks for one.
  unfoldable pub syncw_alloc : Handle → ℕ → W → Outcome (Option ℕ × W)
  syncw_alloc (wrapper inner) size w = syncw_alloc inner size w
  syncw_alloc _ size w = fault

  -- `_mem_syncw_realloc`
  pub syncw_realloc : Handle → ℕ → ℕ → W → Outcome (Option ℕ × W)
  syncw_realloc (wrapper inner) ptr newsize w = syncw_realloc inner ptr newsize w
  syncw_realloc _ ptr newsize w = fault

  -- `_mem_syncw_free`
  pub syncw_free : Handle → ℕ → W → Outcome W
  syncw_free (wrapper inner) ptr w = syncw_free inner ptr w
  syncw_free _ ptr w = fault

  -- `memalloc`
  unfoldable pub memalloc : Handle → ℕ → W → Outcome (Option ℕ × W)
  memalloc libc size w = ret (os.calloc size w)
  memalloc invalid size w = panic
  memalloc (wrapper inner) size w = syncw_alloc (wrapper inner) size w

  -- `memrealloc`, which allocates when `ptr` is NULL.
  pub memrealloc : Handle → Option ℕ → ℕ → W → Outcome (Option ℕ × W)
  memrealloc m none newsize w = memalloc m newsize w
  memrealloc libc (some ptr) newsize w = ret (os.resize ptr newsize w)
  memrealloc invalid (some ptr) newsize w = panic
  memrealloc (wrapper inner) (some ptr) newsize w = syncw_realloc (wrapper inner) ptr newsize w

  -- `memfree`
  pub memfree : Handle → ℕ → W → Outcome W
  memfree libc ptr w = ret (os.release ptr w)
  memfree invalid ptr w = panic
  memfree (wrapper inner) ptr w = syncw_free (wrapper inner) ptr w

  -- `MemSyncWrapper`, for a wrapper of `size` bytes; where there is no memory for it, it stores to NULL.
  unfoldable pub mem_sync_wrapper : ℕ → Handle → W → Outcome (Handle × ℕ × W)
  mem_sync_wrapper size inner w = memalloc inner size w >>= λ r. elim r.0 [
    | none ↦ fault
    | some ptr ↦ ret (wrapper inner, ptr, r.1)
  ]

  -- `MemSyncWrapperFree`, of a wrapper at `ptr`.
  pub mem_sync_wrapper_free : Handle → ℕ → W → Outcome (Handle × W)
  mem_sync_wrapper_free (wrapper inner) ptr w = memfree inner ptr w >>= λ w1. ret (inner, w1)
  mem_sync_wrapper_free _ ptr w = fault

  syncw_alloc-fault : (m : Handle) (size : ℕ) (w : W) → syncw_alloc m size w ≡ fault
  unfolding syncw_alloc
  syncw_alloc-fault libc size w = refl
  syncw_alloc-fault invalid size w = refl
  syncw_alloc-fault (wrapper inner) size w = syncw_alloc-fault inner size w

  syncw_realloc-fault :
      (m : Handle) (ptr newsize : ℕ) (w : W) → syncw_realloc m ptr newsize w ≡ fault
  unfolding syncw_realloc
  syncw_realloc-fault libc ptr newsize w = refl
  syncw_realloc-fault invalid ptr newsize w = refl
  syncw_realloc-fault (wrapper inner) ptr newsize w = syncw_realloc-fault inner ptr newsize w

  syncw_free-fault : (m : Handle) (ptr : ℕ) (w : W) → syncw_free m ptr w ≡ fault
  unfolding syncw_free
  syncw_free-fault libc ptr w = refl
  syncw_free-fault invalid ptr w = refl
  syncw_free-fault (wrapper inner) ptr w = syncw_free-fault inner ptr w

  memrealloc-fault :
      (inner : Handle) (p : Option ℕ) (n : ℕ) (w : W) → memrealloc (wrapper inner) p n w ≡ fault
  unfolding memrealloc memalloc
  memrealloc-fault inner none n w = syncw_alloc-fault (wrapper inner) n w
  memrealloc-fault inner (some q) n w = syncw_realloc-fault (wrapper inner) q n w

  -- No call of `memalloc`, `memrealloc` or `memfree` on a wrapper is defined, whatever it wraps, although
  -- `MemSyncWrapper` around the C library's allocator returns it whenever there is memory for it, and
  -- `MemSyncWrapperFree` gives that back and answers with the allocator inside.
  pub mem_sync_wrapper_lem :
      (size ptr : ℕ) (w w1 : W)
      → os.calloc size w ≡ (some ptr, w1)
      → (mem_sync_wrapper size libc w ≡ ret (wrapper libc, ptr, w1))
        × (mem_sync_wrapper_free (wrapper libc) ptr w1 ≡ ret (libc, os.release ptr w1))
        × ((inner : Handle) (n : ℕ) (p : Option ℕ) (a : ℕ) (w2 : W)
            → (memalloc (wrapper inner) n w2 ≡ fault)
              × (memrealloc (wrapper inner) p n w2 ≡ fault)
              × (memfree (wrapper inner) a w2 ≡ fault))
  unfolding mem_sync_wrapper mem_sync_wrapper_free memalloc memrealloc memfree
  mem_sync_wrapper_lem size ptr w w1 e = (
    ground (arith, e),
    refl,
    λ inner n p a w2. (
      syncw_alloc-fault (wrapper inner) n w2,
      memrealloc-fault inner p n w2,
      syncw_free-fault (wrapper inner) a w2,
    ),
  )
