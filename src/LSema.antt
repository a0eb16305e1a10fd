-- ===== src/LSema.antt =====
-- pkg/rbase/thread_sema.c and thread.h: `LSema`, a semaphore that counts by atomic accesses and sleeps
-- on a semaphore of the system.
-- Any number of threads wait and signal, each at its own pace: a step is one access of one thread to
-- what they share. The memory is sequentially consistent, and an exchange may fail at any time. The
-- semaphore of the system is not part of the sources: it is a number that a signal raises by one and
-- that a wait lowers once it is not zero, and its calls do not fail. A wait with a timeout may give up.
-- `count` is a 64-bit word in two's complement.
pub mod Invariant
mod Tests
use ckit.Base.{ℕ, zero, suc, ◌+◌, ◌-◌, ◌^◌, ◌≤◌, ◌<◌, ◌≡◌, min, leb, if◌then◌else◌}
use ckit.Base.Words.{u64, sub_u64}
use ckit.Base.Family.{at}

-- `LSEMA_MAX_SPINS`
abbrev pub max_spins : ℕ
max_spins = 10000

-- `LSema`
pub record LSema : Type 0 where
  pub count : ℕ
  pub sema : ℕ

-- `LSemaInit`
abbrev pub lsema_init : ℕ → LSema
lsema_init initcount = record { count = initcount; sema = initcount }

-- The part of a word below and above zero.
abbrev pub below_zero : ℕ → ℕ
below_zero c = if leb (2 ^ 63) c then 2 ^ 64 - c else 0

abbrev pub above_zero : ℕ → ℕ
above_zero c = if leb (2 ^ 63) c then 0 else c

-- Where a thread stands.
pub data Pc : Type 0 where
  away : Pc  -- in no call
  trying : (old : ℕ) → Pc  -- before the test of the loop of `LSemaTryWait`
  spinning : (spin : ℕ) → Pc  -- before the test of the first loop of `_LSemaWaitPartialSpin`
  swapping : (spin old : ℕ) → Pc  -- before the exchange there
  asleep : Pc  -- in `SemaWait` or `SemaTimedWait` there
  checking : Pc  -- before the load in the last loop there
  last_try : Pc  -- before `SemaTryWait` there
  giving_up : (old : ℕ) → Pc  -- before the exchange there
  posting : (more : ℕ) → Pc  -- in the loop of `SemaSignal`, called by `LSemaSignal`

-- One access of one thread, with the signals that it gives and takes.
pub data Move (m : LSema) : Pc → LSema → Pc → ℕ → ℕ → Type 0 where
  load : Move m away m (trying m.count) 0 0
  take :
      {old : ℕ}
      → 0 < above_zero old
      → m.count ≡ old
      → Move m (trying old) (record m { count = sub_u64 old 1 }) away 0 1
  take_again : {old : ℕ} → 0 < above_zero old → Move m (trying old) m (trying m.count) 0 0
  try_failed : {old : ℕ} → above_zero old ≡ 0 → Move m (trying old) m away 0 0
  wait : {old : ℕ} → above_zero old ≡ 0 → Move m (trying old) m (spinning max_spins) 0 0
  spin_again : {k : ℕ} → above_zero m.count ≡ 0 → Move m (spinning (suc k)) m (spinning k) 0 0
  spin_found :
      {k : ℕ} → 0 < above_zero m.count → Move m (spinning (suc k)) m (swapping k m.count) 0 0
  swap :
      {k old : ℕ}
      → m.count ≡ old
      → Move m (swapping k old) (record m { count = sub_u64 old 1 }) away 0 1
  swap_lost : {k old : ℕ} → Move m (swapping k old) m (spinning k) 0 0
  subtract_won :
      0 < above_zero m.count → Move m (spinning 0) (record m { count = sub_u64 m.count 1 }) away 0 1
  subtract_wait :
      above_zero m.count ≡ 0
      → Move m (spinning 0) (record m { count = sub_u64 m.count 1 }) asleep 0 0
  wake : {k : ℕ} → m.sema ≡ suc k → Move m asleep (record m { sema = k }) away 0 1
  timeout : Move m asleep m checking 0 0
  check_signal : below_zero m.count ≡ 0 → Move m checking m last_try 0 0
  check_none : 0 < below_zero m.count → Move m checking m (giving_up m.count) 0 0
  wake_last : {k : ℕ} → m.sema ≡ suc k → Move m last_try (record m { sema = k }) away 0 1
  wake_none : m.sema ≡ 0 → Move m last_try m checking 0 0
  give_up :
      {old : ℕ}
      → m.count ≡ old
      → Move m (giving_up old) (record m { count = u64 (old + 1) }) away 0 0
  give_up_lost : {old : ℕ} → Move m (giving_up old) m checking 0 0
  signal :
      {count : ℕ}
      → 0 < count
      → count < 2 ^ 32
      → Move m away
          (record m { count = u64 (m.count + count) })
          (posting (min (below_zero m.count) count))
          count
          0
  post : {k : ℕ} → Move m (posting (suc k)) (record m { sema = m.sema + 1 }) (posting k) 0 0
  posted : Move m (posting 0) m away 0 0

-- What `n` threads reach from a new semaphore on, with all signals that were given and taken.
pub data Reach (n initcount : ℕ) : LSema → (ℕ → Pc) → ℕ → ℕ → Type 0 where
  start : Reach n initcount (lsema_init initcount) (λ _. away) 0 0
  step :
      {m m' : LSema} {pc : ℕ → Pc} {q : Pc} {given taken g t : ℕ}
      → Reach n initcount m pc given taken
      → (i : ℕ) → i < n
      → Move m (pc i) m' q g t
      → Reach n initcount m' (at i q pc) (given + g) (taken + t)
