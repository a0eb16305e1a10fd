-- ===== src/Mutex.antt =====
-- pkg/rbase/thread.h and thread_spinmutex.c: `HybridMutex`, a mutex that spins and then sleeps.
-- Any number of threads lock and unlock, each at its own pace: a step is one access of one thread to
-- what they share. The exchanges of `flag` are atomic; the loads of `flag` and of `nwait` that are relaxed
-- may see older values. The semaphore of the system is not part of
-- the sources: it is a number that a signal raises and that a wait lowers once it is not zero.
pub mod Invariant
pub mod Spin
mod Tests
use ckit.Base.{ℕ, suc, ◌+◌, ◌-◌, ◌<◌, ◌≡◌, Bool, true, false}
use ckit.Base.Words.{u32, sub_u32, sub_u64}
use ckit.Base.Family.{at}

-- `kYieldProcessorTries`
abbrev pub tries : ℕ
tries = 1000

-- `HybridMutex`
pub record HybridMutex : Type 0 where
  pub flag : Bool
  pub nwait : ℕ
  pub sema : ℕ

-- Where a thread stands.
pub data Pc : Type 0 where
  away : Pc  -- outside, before `HybridMutexLock`
  retry : Pc  -- before the exchange in `_hybridMutexWait`
  watch : (n : ℕ) → Pc  -- before the test of its inner loop
  adding : Pc  -- before `AtomicAdd`
  check : Pc  -- before the test of the innermost loop
  asleep : Pc  -- in `SemaWait`
  leaving : Pc  -- before `AtomicSub`
  inside : Pc  -- holding the lock
  unlocked : Pc  -- in `HybridMutexUnlock`, before it reads `nwait`
  waking : Pc  -- before `SemaSignal`

-- One access of one thread. A relaxed load may see an older value: it answers anything. `nwait` is a word
-- of 32 bits.
pub data Move (m : HybridMutex) : Pc → HybridMutex → Pc → Type 0 where
  lock : m.flag ≡ false → Move m away (record m { flag = true }) inside
  busy : m.flag ≡ true → Move m away m retry
  acquire : m.flag ≡ false → Move m retry (record m { flag = true }) inside
  again : m.flag ≡ true → Move m retry m (watch tries)
  free : {n : ℕ} → Move m (watch n) m retry
  spin : {n : ℕ} → ¬ (sub_u64 n 1 ≡ 0) → Move m (watch n) m (watch (sub_u64 n 1))
  tired : {n : ℕ} → sub_u64 n 1 ≡ 0 → Move m (watch n) m adding
  add : Move m adding (record m { nwait = u32 (m.nwait + 1) }) check
  wait : Move m check m asleep
  proceed : Move m check m leaving
  wake : {k : ℕ} → m.sema ≡ suc k → Move m asleep (record m { sema = k }) check
  subtract : Move m leaving (record m { nwait = sub_u32 m.nwait 1 }) (watch 0)
  unlock : Move m inside (record m { flag = false }) unlocked
  quiet : Move m unlocked m away
  signal : Move m unlocked m waking
  post : Move m waking (record m { sema = m.sema + 1 }) away

-- The mutex as `HybridMutexInit` leaves it.
abbrev pub hybrid_mutex_init : HybridMutex
hybrid_mutex_init = record { flag = false; nwait = 0; sema = 0 }

-- What `n` threads that are all away can reach.
pub data Reach (n : ℕ) : HybridMutex → (ℕ → Pc) → Type 0 where
  start : Reach n hybrid_mutex_init (λ _. away)
  step :
      {m m' : HybridMutex} {pc : ℕ → Pc} {q : Pc}
      → Reach n m pc
      → (i : ℕ) → i < n
      → Move m (pc i) m' q
      → Reach n m' (at i q pc)
