-- ===== src/RwMutex.antt =====
-- pkg/rbase/thread.c and thread.h: `rwmtx_t`, a lock for one writer or for many readers.
-- Any number of threads call its functions, each at its own pace: a step is one access of one thread to
-- what they share. The memory is sequentially consistent. `mtx_t` of the system is not part of the
-- sources: it is a lock that is free or not, and whose calls do not fail. What a call returns is told by
-- where its thread stands then. Yielding has no effect here, and a weak exchange may fail at any time.
pub mod Invariant
pub mod Stuck
mod Tests
use ckit.Base.{ℕ, ◌+◌, ◌≤◌, ◌<◌, ◌≡◌, Bool, true, false}
use ckit.Base.Words.{u32, sub_u32}
use ckit.Base.Family.{at}

-- `MTX_W_WATERMARK`
abbrev pub watermark : ℕ
watermark = 0xffffff

-- `rwmtx_t`: whether `w` is locked, and `r`.
pub record RwMutex : Type 0 where
  pub w : Bool
  pub r : ℕ

-- `rwmtx_init`
abbrev pub rwmtx_init : RwMutex
rwmtx_init = record { w = false; r = 0 }

-- Where a thread stands.
pub data Pc : Type 0 where
  away : Pc  -- holds no lock and is in no call
  rlock : Pc  -- `rwmtx_rlock`, before the addition
  revert : Pc  -- before the subtraction there
  await : Pc  -- before `mtx_lock` there
  passing : Pc  -- before `mtx_unlock` there
  try_revert : Pc  -- before the subtraction in `rwmtx_tryrlock`
  reading : Pc  -- holds a read lock
  drop : Pc  -- `rwmtx_runlock`, before the subtraction
  drop_await : Pc  -- before `mtx_lock` there
  drop_passing : Pc  -- before `mtx_unlock` there
  lock : Pc  -- `rwmtx_lock`, before the load
  lock_swap : Pc  -- before the exchange there, which expects 0
  lock_mutex : Pc  -- before `mtx_lock` there
  try_swap : Pc  -- before the exchange in `rwmtx_trylock`, which expects 0
  try_mutex : Pc  -- before `mtx_trylock` there
  writing : Pc  -- holds the write lock
  unlock_swap : (prevr : ℕ) → Pc  -- before the exchange in `rwmtx_unlock`
  unlock_mutex : Pc  -- before `mtx_unlock` there

-- One access of one thread.
pub data Move (m : RwMutex) : Pc → RwMutex → Pc → Type 0 where
  want_read : Move m away m rlock
  read_lock : m.r < watermark → Move m rlock (record m { r = u32 (m.r + 1) }) reading
  read_wait : watermark ≤ m.r → Move m rlock (record m { r = u32 (m.r + 1) }) revert
  read_revert : Move m revert (record m { r = sub_u32 m.r 1 }) await
  read_await : m.w ≡ false → Move m await (record m { w = true }) passing
  read_again : Move m passing (record m { w = false }) rlock
  try_read : m.r < watermark → Move m away (record m { r = u32 (m.r + 1) }) reading
  try_wait : watermark ≤ m.r → Move m away (record m { r = u32 (m.r + 1) }) try_revert
  try_busy : Move m try_revert (record m { r = sub_u32 m.r 1 }) away
  read_none : m.r ≡ 0 → Move m reading m away
  read_drop : 0 < m.r → m.r < watermark → Move m reading m drop
  read_unlock : Move m drop (record m { r = sub_u32 m.r 1 }) away
  drop_wait : watermark ≤ m.r → Move m reading m drop_await
  drop_lock : m.w ≡ false → Move m drop_await (record m { w = true }) drop_passing
  drop_again : Move m drop_passing (record m { w = false }) reading
  want_write : Move m away m lock
  write_taken : 0 < m.r → Move m lock m lock
  write_free : m.r ≡ 0 → Move m lock m lock_swap
  write_lost : Move m lock_swap m lock
  write_swap : m.r ≡ 0 → Move m lock_swap (record m { r = watermark }) lock_mutex
  write_lock : m.w ≡ false → Move m lock_mutex (record m { w = true }) writing
  try_taken : 0 < m.r → Move m away m away
  try_free : m.r ≡ 0 → Move m away m try_swap
  try_lost : Move m try_swap m away
  try_won : m.r ≡ 0 → Move m try_swap (record m { r = watermark }) try_mutex
  try_write : m.w ≡ false → Move m try_mutex (record m { w = true }) writing
  try_failed : m.w ≡ true → Move m try_mutex m away
  write_done : watermark ≤ m.r → Move m writing m (unlock_swap m.r)
  write_none : m.r < watermark → Move m writing m away
  unlock_lost : {prevr : ℕ} → Move m (unlock_swap prevr) m writing
  unlock_won :
      {prevr : ℕ}
      → m.r ≡ prevr
      → Move m (unlock_swap prevr) (record m { r = sub_u32 prevr watermark }) unlock_mutex
  unlock_done : Move m unlock_mutex (record m { w = false }) away

-- What `n` threads reach from a given state on.
pub data Reach (n : ℕ) (m0 : RwMutex) (pc0 : ℕ → Pc) : RwMutex → (ℕ → Pc) → Type 0 where
  start : Reach n m0 pc0 m0 pc0
  step :
      {m m' : RwMutex} {pc : ℕ → Pc} {q : Pc}
      → Reach n m0 pc0 m pc
      → (i : ℕ) → i < n
      → Move m (pc i) m' q
      → Reach n m0 pc0 m' (at i q pc)
