-- ===== src/LSema/Invariant.antt =====
-- `LSema` of pkg/rbase/thread_sema.c: signals are neither made up nor lost.
use native.Mathlib.Decide.{ℕ_discrete}
use ckit.Base.{
  subst, ◌⊎◌, ℕ, ◌+◌, ◌*◌, ◌^◌, ◌≤◌, ◌<◌, ◌≡◌, refl, ap, sym, ◌∙◌, Bool, true, false, arith,
}
use ckit.Base.Family.{
  at, one_if, count, count-at, count-none, count-le, total, total-at, total-none,
}
use ckit.LSema.{
  LSema, lsema_init, below_zero, above_zero, Pc, away, swapping, asleep, checking, last_try,
  giving_up, posting, Move, load, take, take_again, try_failed, wait, spin_again, spin_found, swap,
  swap_lost, subtract_won, subtract_wait, wake, timeout, check_signal, check_none, wake_last,
  wake_none, give_up, give_up_lost, signal, post, posted, Reach, start, step,
}

-- Behind the subtraction of `_LSemaWaitPartialSpin`, with no signal taken.
abbrev pub is_waiting : Pc → Bool
is_waiting asleep = true
is_waiting checking = true
is_waiting last_try = true
is_waiting (giving_up old) = true
is_waiting _ = false

-- The signals that a thread is about to post.
abbrev pub posts : Pc → ℕ
posts (posting more) = more
posts _ = 0

-- An exchange expects a word of the right sign.
abbrev pub Sound : Pc → Type 0
Sound (swapping k old) = 0 < above_zero old
Sound (giving_up old) = 0 < below_zero old
Sound _ = Unit

-- How many signals were given and taken, and how many of the system's are on their way.
pub record Inv (n initcount : ℕ) (m : LSema) (pc : ℕ → Pc) (given taken : ℕ) : Type 0 where
  pub word : m.count < 2 ^ 64
  pub counted :
      above_zero m.count + taken + count is_waiting n pc ≡ initcount + given + below_zero m.count
  pub posted : m.sema + total posts n pc + below_zero m.count ≡ count is_waiting n pc + initcount

start-Inv :
    (n initcount : ℕ) → initcount < 2 ^ 63 → Inv n initcount (lsema_init initcount) (λ _. away) 0 0
start-Inv n initcount h =
    let no_waiting = count-none is_waiting n (λ _. away) (λ i. refl) in
    let no_posts = total-none posts n (λ _. away) (λ i. refl) in
    record {
      word = omega arith;
      counted = ground (arith, no_waiting);
      posted = ground (arith, no_waiting, no_posts);
    }

-- How a step of the thread `i` from `p` to `q` changes the numbers.
record Moved (n : ℕ) (p q : Pc) (pc pc' : ℕ → Pc) : Type 0 where
  wts :
      count is_waiting n pc' + one_if (is_waiting p) ≡ count is_waiting n pc + one_if (is_waiting q)
  pst : total posts n pc' + posts p ≡ total posts n pc + posts q
  few : count is_waiting n pc ≤ n

at-Moved : (n i : ℕ) (p q : Pc) (pc : ℕ → Pc) → i < n → pc i ≡ p → Moved n p q pc (at i q pc)
at-Moved n i p q pc below e = record {
  wts =
      ap (λ x. count is_waiting n (at i q pc) + one_if (is_waiting x)) (sym e)
      ∙ count-at is_waiting n i q pc below;
  pst = ap (λ x. total posts n (at i q pc) + posts x) (sym e) ∙ total-at posts n i q pc below;
  few = count-le is_waiting n pc;
}

Move-Inv :
    {m m' : LSema} {p q : Pc} {g t : ℕ}
    → (n initcount : ℕ) (pc pc' : ℕ → Pc) (given taken : ℕ) → Move m p m' q g t
    → Moved n p q pc pc'
    → Sound p
    → initcount + (given + g) + n < 2 ^ 63
    → Inv n initcount m pc given taken
    → Inv n initcount m' pc' (given + g) (taken + t)
Move-Inv n initcount pc pc' given taken load d s b v = ground arith
Move-Inv n initcount pc pc' given taken (take h e) d s b v = ground arith
Move-Inv n initcount pc pc' given taken (take_again h) d s b v = ground arith
Move-Inv n initcount pc pc' given taken (try_failed h) d s b v = ground arith
Move-Inv n initcount pc pc' given taken (wait h) d s b v = ground arith
Move-Inv n initcount pc pc' given taken (spin_again h) d s b v = ground arith
Move-Inv n initcount pc pc' given taken (spin_found h) d s b v = ground arith
Move-Inv n initcount pc pc' given taken (swap e) d s b v = ground arith
Move-Inv n initcount pc pc' given taken swap_lost d s b v = ground arith
Move-Inv n initcount pc pc' given taken (subtract_won h) d s b v = ground arith
Move-Inv n initcount pc pc' given taken (subtract_wait h) d s b v = ground arith
Move-Inv n initcount pc pc' given taken (wake h) d s b v = ground arith
Move-Inv n initcount pc pc' given taken timeout d s b v = ground arith
Move-Inv n initcount pc pc' given taken (check_signal h) d s b v = ground arith
Move-Inv n initcount pc pc' given taken (check_none h) d s b v = ground arith
Move-Inv n initcount pc pc' given taken (wake_last h) d s b v = ground arith
Move-Inv n initcount pc pc' given taken (wake_none h) d s b v = ground arith
Move-Inv n initcount pc pc' given taken (give_up e) d s b v = ground arith
Move-Inv n initcount pc pc' given taken give_up_lost d s b v = ground arith
Move-Inv n initcount pc pc' given taken (signal h k) d s b v = ground arith
Move-Inv n initcount pc pc' given taken post d s b v = ground arith
Move-Inv n initcount pc pc' given taken posted d s b v = ground arith

Move-Sound : {m m' : LSema} {p q : Pc} {g t : ℕ} → Move m p m' q g t → Sound q
Move-Sound load = tt
Move-Sound (take h e) = tt
Move-Sound (take_again h) = tt
Move-Sound (try_failed h) = tt
Move-Sound (wait h) = tt
Move-Sound (spin_again h) = tt
Move-Sound (spin_found h) = h
Move-Sound (swap e) = tt
Move-Sound swap_lost = tt
Move-Sound (subtract_won h) = tt
Move-Sound (subtract_wait h) = tt
Move-Sound (wake h) = tt
Move-Sound timeout = tt
Move-Sound (check_signal h) = tt
Move-Sound (check_none h) = h
Move-Sound (wake_last h) = tt
Move-Sound (wake_none h) = tt
Move-Sound (give_up e) = tt
Move-Sound give_up_lost = tt
Move-Sound (signal h k) = tt
Move-Sound post = tt
Move-Sound posted = tt

module _ {n initcount : ℕ} where
  Reach-Sound :
      {m : LSema} {pc : ℕ → Pc} {given taken : ℕ}
      → Reach n initcount m pc given taken
      → (j : ℕ) → Sound (pc j)
  Reach-Sound start j = tt
  Reach-Sound (step {pc = pc} {q = q} r i below move) j = elim (ℕ_discrete i j) [
    | yes e ↦ subst Sound (ground (arith, e)) (Move-Sound move)
    | no ne ↦ subst Sound (ground (arith, ne)) (Reach-Sound r j)
  ]

  pub Reach-Inv :
      {m : LSema} {pc : ℕ → Pc} {given taken : ℕ}
      → Reach n initcount m pc given taken
      → initcount + given + n < 2 ^ 63
      → Inv n initcount m pc given taken
  Reach-Inv start h = start-Inv n initcount (omega arith)
  Reach-Inv (step {pc = pc} {q = q} {given = given} {taken = taken} r i below move) h =
      Move-Inv n initcount pc (at i q pc) given taken move (at-Moved n i (pc i) q pc below refl)
        (Reach-Sound r i) (omega arith) (Reach-Inv r (omega arith))

-- Whatever `n` threads do from `LSemaInit` with `initcount` on: they never take more signals than were
-- given and twice `initcount` (the counter and the semaphore of the system both start with it), and
-- either none of them waits behind its subtraction, or the semaphore of the system is not zero, or a
-- post to it is under way, or all of those signals have been taken. The signals given, `initcount` and
-- `n` add up to less than 2 ^ 63.
pub lsema_lem :
    {n initcount : ℕ} {m : LSema} {pc : ℕ → Pc} {given taken : ℕ}
    → Reach n initcount m pc given taken
    → initcount + given + n < 2 ^ 63
    → (taken ≤ given + 2 * initcount)
      × ((count is_waiting n pc ≡ 0)
          ⊎ ((0 < m.sema) ⊎ ((0 < total posts n pc) ⊎ (taken ≡ given + 2 * initcount))))
lsema_lem r h = let v = Reach-Inv r h in (ground (arith, v), ground (arith, v))
