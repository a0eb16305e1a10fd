-- ===== src/LSema/Tests.antt =====
-- Runs of `LSema`, and the theorem at one.
use ckit.Base.{ℕ, zero, suc, ◌+◌, ◌^◌, ◌≤◌, ◌<◌, ◌≡◌, ◌⊎◌, refl, sym, subst, ◌-◌, arith}
use ckit.Base.Family.{at, count, total}
use ckit.LSema.{
  LSema, Move, max_spins, above_zero, Pc, away, trying, spinning, asleep, posting, load, take, wait,
  spin_again, subtract_wait, wake, signal, Reach, start, step,
}
use ckit.LSema.Invariant.{is_waiting, posts, lsema_lem}

-- Thread 0 gives two signals to a new semaphore, and thread 1 takes one.
abbrev stands : ℕ → Pc
stands = at 1 away (at 1 (trying 2) (at 0 (posting 0) (λ _. away)))

two_threads : Reach 2 0 (record { count = 1; sema = 0 }) stands 2 1
two_threads =
    step
      (step (step start 0 (omega arith) (signal {count = 2} (omega arith) (omega arith))) 1
        (omega arith) load)
      1 (omega arith) (take (omega arith) refl)

lsema_lem_example :
    (1 ≤ 2)
    × ((count is_waiting 2 stands ≡ 0)
        ⊎ ((0 < 0) ⊎ ((0 < total posts 2 stands) ⊎ (◌≡◌ {A = ℕ} 1 2))))
lsema_lem_example = lsema_lem two_threads (omega arith)

-- One thread turns in its loop until it has no turns left.
spun :
    (k : ℕ) {m : LSema} {pc : ℕ → Pc} {taken : ℕ}
    → Reach 1 1 m pc 0 taken
    → pc 0 ≡ spinning k
    → above_zero m.count ≡ 0
    → (pc' : ℕ → Pc) × Reach 1 1 m pc' 0 taken × (pc' 0 ≡ spinning 0)
spun zero {pc = pc} r e h = (pc, r, e)
spun (suc k) {m = m} {pc = pc} {taken = taken} r e h =
    let move = subst (λ p. Move m p m (spinning k) 0 0) (sym e) (spin_again h) in
    let none : taken + 0 ≡ taken = omega arith in
    let pc' = at 0 (spinning k) pc in
    spun k {pc = pc'} (subst (λ t. Reach 1 1 m pc' 0 t) none (step r 0 (omega arith) move)) refl h

-- A semaphore that starts with one signal lets one thread take two.
taken_twice : (pc : ℕ → Pc) × Reach 1 1 (record { count = 2 ^ 64 - 1; sema = 0 }) pc 0 2
taken_twice =
    let one = step (step start 0 (omega arith) load) 0 (omega arith) (take (omega arith) refl) in
    let waits = step (step one 0 (omega arith) load) 0 (omega arith) (wait refl) in
    let (pc, r, e) = spun max_spins waits refl refl in
    let m : LSema = record { count = 0; sema = 1 } in
    let m' : LSema = record { count = 2 ^ 64 - 1; sema = 1 } in
    let sleeps =
      step r 0 (omega arith) (subst (λ p. Move m p m' asleep 0 0) (sym e) (subtract_wait refl)) in
    (at 0 away (at 0 asleep pc), step sleeps 0 (omega arith) (wake refl))
