-- ===== src/Once/Tests.antt =====
-- A run of `r_sync_once` with two threads, and the theorem at it.
use ckit.Base.{ℕ, ◌<◌, ◌≡◌, ◌⊎◌, refl, true, false, arith}
use ckit.Base.Family.{at, count}
use ckit.Once.{Pc, before, starting, init_mutex, unlocking, ran, enter, win, Reach, start, step}
use ckit.Once.Invariant.{is_winner, is_past, sync_once_lem}

-- Thread 0 has won, and thread 1 comes next.
abbrev stands : ℕ → Pc
stands = at 1 starting (at 0 init_mutex (at 0 starting (λ _. before)))

two_threads : Reach 2 (record { flag = 1; mu = false }) stands
two_threads =
    step (step (step start 0 (omega arith) (enter (omega arith))) 0 (omega arith) (win refl)) 1
      (omega arith) (enter (omega arith))

sync_once_lem_example :
    (¬ ((is_winner (stands 0) ≡ true) × (is_winner (stands 1) ≡ true)))
    × ((count is_past 2 stands ≡ 0)
        ⊎ ((k : ℕ) × (k < 2) × ((stands k ≡ unlocking) ⊎ (stands k ≡ ran))))
sync_once_lem_example = sync_once_lem two_threads 0 1 (omega arith) (omega arith)
