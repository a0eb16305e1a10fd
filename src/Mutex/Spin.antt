-- ===== src/Mutex/Spin.antt =====
-- pkg/rbase/thread.h and thread_spinmutex.c: `SpinMutex`, a mutex that only spins.
-- Threads, steps and memory are those of `HybridMutex`; yielding has no effect here.
use ckit.Base.{ℕ, ◌+◌, ◌<◌, ◌≡◌, refl, ap, Bool, true, false, arith}
use ckit.Base.Words.{sub_u64}
use ckit.Base.Family.{at, one_if, count, count-at, count-none, count-two}
use ckit.Mutex.{tries}

-- `SpinMutex`
pub record SpinMutex : Type 0 where
  pub flag : Bool

-- `SpinMutexInit`
abbrev pub spin_mutex_init : SpinMutex
spin_mutex_init = record { flag = false }

-- Where a thread stands.
pub data Pc : Type 0 where
  away : Pc  -- outside, before `SpinMutexLock`
  retry : Pc  -- before the exchange in `_spinMutexWait`
  watch : (n : ℕ) → Pc  -- before the test of its inner loop
  inside : Pc  -- holding the lock

-- One access of one thread. A relaxed load may see an older value: it answers anything.
pub data Move (m : SpinMutex) : Pc → SpinMutex → Pc → Type 0 where
  lock : m.flag ≡ false → Move m away (record { flag = true }) inside
  busy : m.flag ≡ true → Move m away m retry
  acquire : m.flag ≡ false → Move m retry (record { flag = true }) inside
  again : m.flag ≡ true → Move m retry m (watch tries)
  free : {n : ℕ} → Move m (watch n) m retry
  spin : {n : ℕ} → ¬ (sub_u64 n 1 ≡ 0) → Move m (watch n) m (watch (sub_u64 n 1))
  tired : {n : ℕ} → sub_u64 n 1 ≡ 0 → Move m (watch n) m (watch tries)
  unlock : Move m inside (record { flag = false }) away

-- What `n` threads that are all away can reach.
pub data Reach (n : ℕ) : SpinMutex → (ℕ → Pc) → Type 0 where
  start : Reach n spin_mutex_init (λ _. away)
  step :
      {m m' : SpinMutex} {pc : ℕ → Pc} {q : Pc}
      → Reach n m pc
      → (i : ℕ) → i < n
      → Move m (pc i) m' q
      → Reach n m' (at i q pc)

is_inside : Pc → Bool
is_inside inside = true
is_inside _ = false

-- As many threads are inside as the flag tells.
Move-holders :
    {m m' : SpinMutex} {p q : Pc} (before after : ℕ)
    → Move m p m' q
    → after + one_if (is_inside p) ≡ before + one_if (is_inside q)
    → before ≡ one_if m.flag
    → after ≡ one_if m'.flag
unfolding is_inside
Move-holders before after (lock h) d v = ground arith
Move-holders before after (busy h) d v = ground arith
Move-holders before after (acquire h) d v = ground arith
Move-holders before after (again h) d v = ground arith
Move-holders before after free d v = ground arith
Move-holders before after (spin t) d v = ground arith
Move-holders before after (tired t) d v = ground arith
Move-holders before after unlock d v = ground arith

Reach-holders :
    {n : ℕ} {m : SpinMutex} {pc : ℕ → Pc} → Reach n m pc → count is_inside n pc ≡ one_if m.flag
unfolding is_inside
Reach-holders {n} start = count-none is_inside n (λ _. away) (λ i. refl)
Reach-holders {n} (step {pc = pc} {q = q} r i below move) =
    Move-holders (count is_inside n pc) (count is_inside n (at i q pc)) move
      (count-at is_inside n i q pc below) (Reach-holders r)

-- Whatever `n` threads do from a new mutex on, two of them are never inside at once.
pub spin_mutex_exclusive :
    {n : ℕ} {m : SpinMutex} {pc : ℕ → Pc}
    → Reach n m pc
    → (i j : ℕ) → i < j
    → j < n
    → ¬ ((pc i ≡ inside) × (pc j ≡ inside))
unfolding is_inside
spin_mutex_exclusive {n} {m} {pc} r i j below last (a, b) = ground (
  arith,
  Reach-holders r,
  count-two is_inside n i j pc below last (ap is_inside a) (ap is_inside b),
)
