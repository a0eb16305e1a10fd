-- ===== src/Once.antt =====
-- pkg/rbase/thread.c and thread.h: `r_sync_once`, which runs its statement once.
-- Any number of threads come by, each at its own pace: a step is one access of one thread to what they
-- share. The memory is sequentially consistent, and the mutex of the system, which is not part of the
-- sources, is a lock that is free or not.
pub mod Invariant
mod Tests
use ckit.Base.{ℕ, ◌+◌, ◌≤◌, ◌<◌, ◌≡◌, Bool, true, false}
use ckit.Base.Family.{at}

-- `r_sync_once_flag`: `flag`, and whether `mu` is locked.
pub record SyncOnceFlag : Type 0 where
  pub flag : ℕ
  pub mu : Bool

abbrev pub fresh : SyncOnceFlag
fresh = record { flag = 0; mu = false }

-- Where a thread stands.
pub data Pc : Type 0 where
  before : Pc  -- before the load in `r_sync_once`
  starting : Pc  -- `_sync_once_start`, before the exchange
  init_mutex : Pc  -- before `mtx_init` there
  lock_mutex : Pc  -- before the first `mtx_lock`
  add_flag : Pc  -- before the addition
  running : Pc  -- in the statement
  ending : Pc  -- `_sync_once_end`, before the store
  unlocking : Pc  -- before `mtx_unlock` there
  spinning : Pc  -- before the load in the loop of `_sync_once_start`
  waiting : Pc  -- before the last `mtx_lock`
  holding : Pc  -- before the last `mtx_unlock`
  ran : Pc  -- behind `r_sync_once`, having run the statement
  past : Pc  -- behind `r_sync_once`, not having run it

-- One access of one thread.
pub data Move (m : SyncOnceFlag) : Pc → SyncOnceFlag → Pc → Type 0 where
  skip : 3 ≤ m.flag → Move m before m past
  enter : m.flag < 3 → Move m before m starting
  win : m.flag ≡ 0 → Move m starting (record m { flag = 1 }) init_mutex
  lose : ¬ (m.flag ≡ 0) → Move m starting m spinning
  init : Move m init_mutex (record m { mu = false }) lock_mutex
  lock : m.mu ≡ false → Move m lock_mutex (record m { mu = true }) add_flag
  add : Move m add_flag (record m { flag = m.flag + 1 }) running
  run : Move m running m ending
  store : Move m ending (record m { flag = 3 }) unlocking
  unlock : Move m unlocking (record m { mu = false }) ran
  spin : m.flag ≤ 1 → Move m spinning m spinning
  complete : m.flag ≡ 3 → Move m spinning m past
  available : 1 < m.flag → ¬ (m.flag ≡ 3) → Move m spinning m waiting
  wait : m.mu ≡ false → Move m waiting (record m { mu = true }) holding
  release : Move m holding (record m { mu = false }) past

-- What `n` threads reach from a fresh flag on.
pub data Reach (n : ℕ) : SyncOnceFlag → (ℕ → Pc) → Type 0 where
  start : Reach n fresh (λ _. before)
  step :
      {m m' : SyncOnceFlag} {pc : ℕ → Pc} {q : Pc}
      → Reach n m pc
      → (i : ℕ) → i < n
      → Move m (pc i) m' q
      → Reach n m' (at i q pc)
