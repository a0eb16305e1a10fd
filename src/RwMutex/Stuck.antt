-- ===== src/RwMutex/Stuck.antt =====
-- `rwmtx_trylock` of pkg/rbase/thread.c can leave the watermark behind in `r`.
use ckit.Base.{ℕ, ◌+◌, ◌<◌, ◌≡◌, refl, ap, ◌∙◌, Bool, false, arith}
use ckit.Base.Family.{at, count, count-none, count-some}
use ckit.RwMutex.{
  RwMutex, rwmtx_init, watermark, Pc, away, reading, lock, lock_swap, lock_mutex, try_swap,
  try_mutex, writing, unlock_swap, unlock_mutex, Move, want_read, read_lock, read_wait, read_revert,
  read_await, read_again, try_read, try_wait, try_busy, read_none, read_drop, read_unlock,
  drop_wait, drop_lock, drop_again, want_write, write_taken, write_free, write_lost, write_swap,
  write_lock, try_taken, try_free, try_lost, try_won, try_write, try_failed, write_done, write_none,
  unlock_lost, unlock_won, unlock_done, Reach, start, step,
}
use ckit.RwMutex.Invariant.{is_reader, is_passing, is_writer, Moved, at-Moved}

-- The watermark is set, and nobody has a lock or has set it.
record Stuck (n : ℕ) (m : RwMutex) (pc : ℕ → Pc) : Type 0 where
  exact : m.r ≡ watermark + count is_passing n pc
  readers : count is_reader n pc ≡ 0
  writers : count is_writer n pc ≡ 0

Move-Stuck :
    {m m' : RwMutex} {p q : Pc}
    → (n : ℕ) (pc pc' : ℕ → Pc) → Move m p m' q
    → Moved n p q pc pc'
    → Stuck n m pc
    → Stuck n m' pc'
Move-Stuck n pc pc' want_read d v = ground arith
Move-Stuck n pc pc' (read_lock h) d v = ground arith
Move-Stuck n pc pc' (read_wait h) d v = ground arith
Move-Stuck n pc pc' read_revert d v = ground arith
Move-Stuck n pc pc' (read_await h) d v = ground arith
Move-Stuck n pc pc' read_again d v = ground arith
Move-Stuck n pc pc' (try_read h) d v = ground arith
Move-Stuck n pc pc' (try_wait h) d v = ground arith
Move-Stuck n pc pc' try_busy d v = ground arith
Move-Stuck n pc pc' (read_none h) d v = ground arith
Move-Stuck n pc pc' (read_drop h k) d v = ground arith
Move-Stuck n pc pc' read_unlock d v = ground arith
Move-Stuck n pc pc' (drop_wait h) d v = ground arith
Move-Stuck n pc pc' (drop_lock h) d v = ground arith
Move-Stuck n pc pc' drop_again d v = ground arith
Move-Stuck n pc pc' want_write d v = ground arith
Move-Stuck n pc pc' (write_taken h) d v = ground arith
Move-Stuck n pc pc' (write_free h) d v = ground arith
Move-Stuck n pc pc' write_lost d v = ground arith
Move-Stuck n pc pc' (write_swap h) d v = ground arith
Move-Stuck n pc pc' (write_lock h) d v = ground arith
Move-Stuck n pc pc' (try_taken h) d v = ground arith
Move-Stuck n pc pc' (try_free h) d v = ground arith
Move-Stuck n pc pc' try_lost d v = ground arith
Move-Stuck n pc pc' (try_won h) d v = ground arith
Move-Stuck n pc pc' (try_write h) d v = ground arith
Move-Stuck n pc pc' (try_failed h) d v = ground arith
Move-Stuck n pc pc' (write_done h) d v = ground arith
Move-Stuck n pc pc' (write_none h) d v = ground arith
Move-Stuck n pc pc' unlock_lost d v = ground arith
Move-Stuck n pc pc' (unlock_won h) d v = ground arith
Move-Stuck n pc pc' unlock_done d v = ground arith

-- Nobody holds a lock, and the watermark is set.
abbrev pub left_behind : RwMutex
left_behind = record { w = false; r = watermark }

Reach-Stuck :
    {n : ℕ} {pc0 : ℕ → Pc} {m : RwMutex} {pc : ℕ → Pc}
    → n < watermark
    → ((i : ℕ) → pc0 i ≡ away)
    → Reach n left_behind pc0 m pc
    → Stuck n m pc
Reach-Stuck {n} {pc0} few off start =
    let none = λ (test : Pc → Bool) (e : test away ≡ false).
      count-none test n pc0 (λ i. ap test (off i) ∙ e) in
    record {
      exact = omega (arith, none is_passing refl);
      readers = none is_reader refl;
      writers = none is_writer refl;
    }
Reach-Stuck {n} few off (step {pc = pc} r i below move) =
    Move-Stuck n pc (at i _ pc) move (at-Moved n i (pc i) _ pc few below refl)
      (Reach-Stuck few off r)

-- Where the threads stand when thread 0 has locked for writing and unlocked, and thread 1 has called
-- `rwmtx_trylock` between the two parts of `rwmtx_unlock`; the last step comes first.
abbrev pub tried : ℕ → Pc
tried = at 0 away (
    at 1 away (
      at 1 try_mutex (
        at 1 try_swap (
          at 0 unlock_mutex (
            at 0 (unlock_swap watermark)
              (at 0 writing (at 0 lock_mutex (at 0 lock_swap (at 0 lock (λ _. away))))))))))

tried-reached : {n : ℕ} → 1 < n → Reach n rwmtx_init (λ _. away) left_behind tried
tried-reached {n} two =
    let r1 = step start 0 (omega arith) want_write in
    let r2 = step r1 0 (omega arith) (write_free refl) in
    let r3 = step r2 0 (omega arith) (write_swap refl) in
    let r4 = step r3 0 (omega arith) (write_lock refl) in
    let r5 = step r4 0 (omega arith) (write_done (omega arith)) in
    let r6 = step r5 0 (omega arith) (unlock_won refl) in
    let r7 = step r6 1 two (try_free refl) in
    let r8 = step r7 1 two (try_won refl) in
    let r9 = step r8 1 two (try_failed refl) in step r9 0 (omega arith) unlock_done

-- `rwmtx_trylock` of one thread, between the two parts of `rwmtx_unlock` of another, leaves a lock that
-- nobody holds and that nobody can get any more: two or more threads, fewer than 2 ^ 24 - 1, reach such a
-- state from a new lock with both calls over, and whatever they do from there on, none of them reads or
-- writes.
pub rwmtx_trylock_stuck :
    {n : ℕ} {m : RwMutex} {pc : ℕ → Pc}
    → 1 < n
    → n < watermark
    → Reach n left_behind tried m pc
    → (i : ℕ) → i < n
    → Reach n rwmtx_init (λ _. away) left_behind tried × (¬ (pc i ≡ reading)) × (¬ (pc i ≡ writing))
rwmtx_trylock_stuck {n} {m} {pc} two few r i below =
    let v = Reach-Stuck few (λ j. ground arith) r in
    (
      tried-reached two,
      λ e. omega (arith, v.readers, count-some is_reader n i pc below (ap is_reader e)),
      λ e. omega (arith, v.writers, count-some is_writer n i pc below (ap is_writer e)),
    )
