-- ===== src/Mutex/Tests.antt =====
-- A run of `HybridMutex` with two threads, and the theorems at it.
use ckit.Base.{ℕ, ◌≡◌, refl, true, arith}
use ckit.Base.Family.{at}
use ckit.Mutex.{HybridMutex, Pc, away, inside, retry, lock, busy, Reach, start, step}
use ckit.Mutex.Invariant.{hybrid_mutex_exclusive}

-- Thread 0 has locked, and thread 1 has found the mutex locked.
abbrev taken : HybridMutex
taken = record { flag = true; nwait = 0; sema = 0 }

abbrev stands : ℕ → Pc
stands = at 1 retry (at 0 inside (λ _. away))

two_threads : Reach 2 taken stands
two_threads = step (step start 0 (omega arith) (lock refl)) 1 (omega arith) (busy refl)

hybrid_mutex_exclusive_example : ¬ ((stands 0 ≡ inside) × (stands 1 ≡ inside))
hybrid_mutex_exclusive_example = hybrid_mutex_exclusive two_threads 0 1 (omega arith) (omega arith)
