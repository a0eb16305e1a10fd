-- ===== src/RwMutex/Tests.antt =====
-- Runs of `rwmtx_t` with two threads, and the theorems at them.
use ckit.Base.{ℕ, ◌≡◌, refl, true, arith}
use ckit.Base.Family.{at}
use ckit.RwMutex.{
  rwmtx_init, Pc, away, lock, lock_swap, lock_mutex, writing, reading, rlock, revert, want_write,
  write_free, write_swap, write_lock, want_read, read_wait, Reach, start, step,
}
use ckit.RwMutex.Invariant.{rwmtx_exclusive}
use ckit.RwMutex.Stuck.{left_behind, tried, rwmtx_trylock_stuck}

-- Thread 0 writes, and thread 1 has asked for a read lock.
abbrev stands : ℕ → Pc
stands =
    at 1 revert
      (at 1 rlock (at 0 writing (at 0 lock_mutex (at 0 lock_swap (at 0 lock (λ _. away))))))

asked : Reach 2 rwmtx_init (λ _. away) (record { w = true; r = 0x1000000 }) stands
asked =
    let r1 = step start 0 (omega arith) want_write in
    let r2 = step r1 0 (omega arith) (write_free refl) in
    let r3 = step r2 0 (omega arith) (write_swap refl) in
    let r4 = step r3 0 (omega arith) (write_lock refl) in
    let r5 = step r4 1 (omega arith) want_read in step r5 1 (omega arith) (read_wait (omega arith))

rwmtx_exclusive_example : (¬ (stands 1 ≡ reading)) × (¬ (stands 1 ≡ writing))
rwmtx_exclusive_example =
    rwmtx_exclusive (omega arith) asked 0 1 (omega arith) (omega arith) (λ e. omega (arith, e)) refl

rwmtx_trylock_stuck_example :
    Reach 2 rwmtx_init (λ _. away) left_behind tried
    × (¬ (tried 1 ≡ reading))
    × (¬ (tried 1 ≡ writing))
rwmtx_trylock_stuck_example = rwmtx_trylock_stuck (omega arith) (omega arith) start 1 (omega arith)
