-- ===== src/Once/Invariant.antt =====
-- `r_sync_once` of pkg/rbase/thread.h runs the statement once, and before any thread goes on.
use ckit.Base.{
  ℕ, ◌+◌, ◌≤◌, ◌<◌, ◌≡◌, ◌⊎◌, inl, inr, refl, ap, sym, subst, ◌∙◌, Bool, true, false, ◌==◌, arith,
}
use ckit.Base.Family.{
  at, one_if, count, count-at, count-none, count-here, some-count, count-sum, count-two,
}
use ckit.Once.{
  SyncOnceFlag, fresh, Pc, before, starting, init_mutex, lock_mutex, add_flag, running, ending,
  unlocking, spinning, waiting, holding, ran, past, Move, skip, enter, win, lose, init, lock, add,
  run, store, unlock, spin, complete, available, wait, release, Reach, start, step,
}

-- Has won, and has not yet locked the mutex.
abbrev pub is_unlocked : Pc → Bool
is_unlocked init_mutex = true
is_unlocked lock_mutex = true
is_unlocked _ = false

-- Has locked it.
abbrev pub is_adding : Pc → Bool
is_adding add_flag = true
is_adding _ = false

-- Runs the statement, or has run it and not yet said so.
abbrev pub is_running : Pc → Bool
is_running running = true
is_running ending = true
is_running _ = false

-- Has said so.
abbrev pub is_unlocking : Pc → Bool
is_unlocking unlocking = true
is_unlocking _ = false

-- Has run the statement and said so.
abbrev pub is_over : Pc → Bool
is_over unlocking = true
is_over ran = true
is_over _ = false

-- Waits for the statement.
abbrev pub is_waiting : Pc → Bool
is_waiting waiting = true
is_waiting _ = false

-- Has the mutex after waiting for the statement.
abbrev pub is_holding : Pc → Bool
is_holding holding = true
is_holding _ = false

-- Is behind `r_sync_once` and has not run the statement.
abbrev pub is_past : Pc → Bool
is_past past = true
is_past _ = false

-- The flag tells how far the one winner is, and who has the mutex follows from it. Nobody gets the mutex
-- by waiting, or is past, before the statement has been run.
pub record Inv (n : ℕ) (m : SyncOnceFlag) (pc : ℕ → Pc) : Type 0 where
  pub range : m.flag ≤ 3
  pub first : count is_unlocked n pc + count is_adding n pc ≡ one_if (m.flag == 1)
  pub second : count is_running n pc ≡ one_if (m.flag == 2)
  pub third : count is_over n pc ≡ one_if (m.flag == 3)
  pub mutex :
      count is_adding n pc + count is_running n pc + count is_unlocking n pc + count is_holding n pc
      ≤ one_if m.mu
  pub within : count is_unlocking n pc ≤ count is_over n pc
  pub over : (m.flag ≡ 3) ⊎ ((count is_holding n pc ≡ 0) × (count is_past n pc ≡ 0))
  pub later : (1 < m.flag) ⊎ (count is_waiting n pc ≡ 0)

-- How a step of the thread `i` from `p` to `q` changes the numbers.
pub record Moved (n : ℕ) (p q : Pc) (pc pc' : ℕ → Pc) : Type 0 where
  pub unlocked_by :
      count is_unlocked n pc' + one_if (is_unlocked p)
      ≡ count is_unlocked n pc + one_if (is_unlocked q)
  pub adding_by :
      count is_adding n pc' + one_if (is_adding p) ≡ count is_adding n pc + one_if (is_adding q)
  pub running_by :
      count is_running n pc' + one_if (is_running p) ≡ count is_running n pc + one_if (is_running q)
  pub unlocking_by :
      count is_unlocking n pc' + one_if (is_unlocking p)
      ≡ count is_unlocking n pc + one_if (is_unlocking q)
  pub over_by : count is_over n pc' + one_if (is_over p) ≡ count is_over n pc + one_if (is_over q)
  pub waiting_by :
      count is_waiting n pc' + one_if (is_waiting p) ≡ count is_waiting n pc + one_if (is_waiting q)
  pub holding_by :
      count is_holding n pc' + one_if (is_holding p) ≡ count is_holding n pc + one_if (is_holding q)
  pub past_by : count is_past n pc' + one_if (is_past p) ≡ count is_past n pc + one_if (is_past q)
  pub unlocked_here : one_if (is_unlocked p) ≤ count is_unlocked n pc

at-Moved : (n i : ℕ) (p q : Pc) (pc : ℕ → Pc) → i < n → pc i ≡ p → Moved n p q pc (at i q pc)
at-Moved n i p q pc below e =
    let by = λ (test : Pc → Bool).
      ap (λ x. count test n (at i q pc) + one_if (test x)) (sym e) ∙ count-at test n i q pc below in
    record {
      unlocked_by = by is_unlocked;
      adding_by = by is_adding;
      running_by = by is_running;
      unlocking_by = by is_unlocking;
      over_by = by is_over;
      waiting_by = by is_waiting;
      holding_by = by is_holding;
      past_by = by is_past;
      unlocked_here =
          subst (λ x. one_if (is_unlocked x) ≤ count is_unlocked n pc) e
            (count-here is_unlocked n i pc below);
    }

start-Inv : (n : ℕ) → Inv n fresh (λ _. before)
start-Inv n =
    let none =
      λ (test : Pc → Bool) (e : test before ≡ false). count-none test n (λ _. before) (λ i. e) in
    ground (
      arith,
      none is_unlocked refl,
      none is_adding refl,
      none is_running refl,
      none is_unlocking refl,
      none is_over refl,
      none is_waiting refl,
      none is_holding refl,
      none is_past refl,
    )

Move-Inv :
    {m m' : SyncOnceFlag} {p q : Pc}
    → (n : ℕ) (pc pc' : ℕ → Pc) → Move m p m' q
    → Moved n p q pc pc'
    → Inv n m pc
    → Inv n m' pc'
Move-Inv n pc pc' (skip h) d v = ground arith
Move-Inv n pc pc' (enter h) d v = ground arith
Move-Inv n pc pc' (win h) d v = ground arith
Move-Inv n pc pc' (lose h) d v = ground arith
Move-Inv n pc pc' init d v = ground arith
Move-Inv n pc pc' (lock h) d v = ground arith
Move-Inv n pc pc' add d v = ground arith
Move-Inv n pc pc' run d v = ground arith
Move-Inv n pc pc' store d v = ground arith
Move-Inv n pc pc' unlock d v = ground arith
Move-Inv n pc pc' (spin h) d v = ground arith
Move-Inv n pc pc' (complete h) d v = ground arith
Move-Inv n pc pc' (available h k) d v = ground arith
Move-Inv n pc pc' (wait h) d v = ground arith
Move-Inv n pc pc' release d v = ground arith

pub Reach-Inv : {n : ℕ} {m : SyncOnceFlag} {pc : ℕ → Pc} → Reach n m pc → Inv n m pc
Reach-Inv {n} start = start-Inv n
Reach-Inv {n} (step {pc = pc} r i below move) =
    Move-Inv n pc (at i _ pc) move (at-Moved n i (pc i) _ pc below refl) (Reach-Inv r)

abbrev pub is_winner : Pc → Bool
is_winner running = true
is_winner ending = true
is_winner unlocking = true
is_winner ran = true
is_winner _ = false

winner-parts : (p : Pc) → one_if (is_winner p) ≡ one_if (is_running p) + one_if (is_over p)
winner-parts before = refl
winner-parts starting = refl
winner-parts init_mutex = refl
winner-parts lock_mutex = refl
winner-parts add_flag = refl
winner-parts running = refl
winner-parts ending = refl
winner-parts unlocking = refl
winner-parts spinning = refl
winner-parts waiting = refl
winner-parts holding = refl
winner-parts ran = refl
winner-parts past = refl

is_over-eq : (p : Pc) → is_over p ≡ true → (p ≡ unlocking) ⊎ (p ≡ ran)
is_over-eq before e = absurd (ground arith)
is_over-eq starting e = absurd (ground arith)
is_over-eq init_mutex e = absurd (ground arith)
is_over-eq lock_mutex e = absurd (ground arith)
is_over-eq add_flag e = absurd (ground arith)
is_over-eq running e = absurd (ground arith)
is_over-eq ending e = absurd (ground arith)
is_over-eq unlocking e = inl refl
is_over-eq spinning e = absurd (ground arith)
is_over-eq waiting e = absurd (ground arith)
is_over-eq holding e = absurd (ground arith)
is_over-eq ran e = inr refl
is_over-eq past e = absurd (ground arith)

-- Whatever `n` threads do from a fresh flag on: two of them never both come to the statement, and either
-- none is behind `r_sync_once` without having run the statement, or one has run it to its end.
pub sync_once_lem :
    {n : ℕ} {m : SyncOnceFlag} {pc : ℕ → Pc}
    → Reach n m pc
    → (i j : ℕ) → i < j
    → j < n
    → (¬ ((is_winner (pc i) ≡ true) × (is_winner (pc j) ≡ true)))
      × ((count is_past n pc ≡ 0) ⊎ ((k : ℕ) × (k < n) × ((pc k ≡ unlocking) ⊎ (pc k ≡ ran))))
sync_once_lem {n} {m} {pc} r i j below last =
    let v = Reach-Inv r in
    (
      λ w.
          let two = count-two is_winner n i j pc below last w.0 w.1 in
          absurd (
            ground (
              arith,
              v.second,
              v.third,
              two,
              count-sum is_running is_over is_winner n pc winner-parts,
            )),
      elim v.over [
        | inl e ↦
            let (k, h, o) = some-count is_over n pc (ground (arith, v.third, e)) in
            inr (k, h, is_over-eq (pc k) o)
        | inr none ↦ inl (none.1)
      ],
    )
