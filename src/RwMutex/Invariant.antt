-- ===== src/RwMutex/Invariant.antt =====
-- `rwmtx_t` of pkg/rbase/thread.c: a writer is alone.
use native.Mathlib.Decide.{dec_lt}
use ckit.Base.{ℕ, ◌+◌, ◌*◌, ◌≤◌, ◌<◌, ◌≡◌, ◌⊎◌, inl, refl, ap, sym, ◌∙◌, Bool, true, false, arith}
use ckit.Base.Family.{at, one_if, count, count-at, count-none, count-apart, count-some, count-two}
use ckit.RwMutex.{
  RwMutex, rwmtx_init, watermark, Pc, away, rlock, revert, await, passing, try_revert, reading,
  drop, drop_await, drop_passing, lock, lock_swap, lock_mutex, try_swap, try_mutex, writing,
  unlock_swap, unlock_mutex, Move, want_read, read_lock, read_wait, read_revert, read_await,
  read_again, try_read, try_wait, try_busy, read_none, read_drop, read_unlock, drop_wait, drop_lock,
  drop_again, want_write, write_taken, write_free, write_lost, write_swap, write_lock, try_taken,
  try_free, try_lost, try_won, try_write, try_failed, write_done, write_none, unlock_lost,
  unlock_won, unlock_done, Reach, start, step,
}

-- Counted in `r` as a reader for a moment.
abbrev pub is_passing : Pc → Bool
is_passing revert = true
is_passing try_revert = true
is_passing _ = false

-- Holds a read lock.
abbrev pub is_reader : Pc → Bool
is_reader reading = true
is_reader drop = true
is_reader drop_await = true
is_reader drop_passing = true
is_reader _ = false

-- Has put the watermark into `r` and not yet taken it out.
abbrev pub is_writer : Pc → Bool
is_writer lock_mutex = true
is_writer try_mutex = true
is_writer writing = true
is_writer (unlock_swap _) = true
is_writer _ = false

-- `r` counts the readers, and the watermark where it is set. That is for a writer only, or left behind by
-- `rwmtx_trylock`, and while it is set nobody holds a read lock.
pub record Inv (n : ℕ) (m : RwMutex) (pc : ℕ → Pc) : Type 0 where
  pub marks : ℕ
  pub exact : m.r ≡ watermark * marks + (count is_reader n pc + count is_passing n pc)
  pub one : marks ≤ 1
  pub writers : count is_writer n pc ≤ marks
  pub apart : (marks ≡ 0) ⊎ (count is_reader n pc ≡ 0)

start-Inv : (n : ℕ) → Inv n rwmtx_init (λ _. away)
start-Inv n =
    let none = count-none is_passing n (λ _. away) (λ i. refl) in
    record {
      marks = 0;
      exact = omega (arith, none, count-none is_reader n (λ _. away) (λ i. refl));
      one = omega arith;
      writers = omega (arith, count-none is_writer n (λ _. away) (λ i. refl));
      apart = inl refl;
    }

-- How a step of the thread `i` from `p` to `q` changes the numbers.
pub record Moved (n : ℕ) (p q : Pc) (pc pc' : ℕ → Pc) : Type 0 where
  pub cnt :
      count is_passing n pc' + one_if (is_passing p) ≡ count is_passing n pc + one_if (is_passing q)
  pub rdr :
      count is_reader n pc' + one_if (is_reader p) ≡ count is_reader n pc + one_if (is_reader q)
  pub wrt :
      count is_writer n pc' + one_if (is_writer p) ≡ count is_writer n pc + one_if (is_writer q)
  pub fit : count is_reader n pc' + count is_passing n pc' < watermark

reader-or-passing : (p : Pc) → one_if (is_reader p) + one_if (is_passing p) ≤ 1
reader-or-passing away = omega arith
reader-or-passing rlock = omega arith
reader-or-passing revert = omega arith
reader-or-passing await = omega arith
reader-or-passing passing = omega arith
reader-or-passing try_revert = omega arith
reader-or-passing reading = omega arith
reader-or-passing drop = omega arith
reader-or-passing drop_await = omega arith
reader-or-passing drop_passing = omega arith
reader-or-passing lock = omega arith
reader-or-passing lock_swap = omega arith
reader-or-passing lock_mutex = omega arith
reader-or-passing try_swap = omega arith
reader-or-passing try_mutex = omega arith
reader-or-passing writing = omega arith
reader-or-passing (unlock_swap k) = omega arith
reader-or-passing unlock_mutex = omega arith

pub at-Moved :
    (n i : ℕ) (p q : Pc) (pc : ℕ → Pc)
    → n < watermark
    → i < n
    → pc i ≡ p
    → Moved n p q pc (at i q pc)
at-Moved n i p q pc few below e =
    let by = λ (test : Pc → Bool).
      ap (λ x. count test n (at i q pc) + one_if (test x)) (sym e) ∙ count-at test n i q pc below in
    record {
      cnt = by is_passing;
      rdr = by is_reader;
      wrt = by is_writer;
      fit = omega (arith, few, count-apart is_reader is_passing n (at i q pc) reader-or-passing);
    }

-- The invariant for a number of marks.
abbrev Marked : ℕ → ℕ → RwMutex → (ℕ → Pc) → Type 0
Marked n k m pc =
    (m.r ≡ watermark * k + (count is_reader n pc + count is_passing n pc))
    × (k ≤ 1)
    × (count is_writer n pc ≤ k)
    × ((k ≡ 0) ⊎ (count is_reader n pc ≡ 0))

marked : {n : ℕ} {m : RwMutex} {pc : ℕ → Pc} → (k : ℕ) → Marked n k m pc → Inv n m pc
marked k (exact, one, writers, apart) = record {
  marks = k;
  exact = exact;
  one = one;
  writers = writers;
  apart = apart;
}

Move-Inv :
    {m m' : RwMutex} {p q : Pc}
    → (n : ℕ) (pc pc' : ℕ → Pc) → Move m p m' q
    → Moved n p q pc pc'
    → Inv n m pc
    → Inv n m' pc'
Move-Inv n pc pc' want_read d v = marked v.marks (ground arith)
Move-Inv n pc pc' (read_lock h) d v = marked v.marks (ground arith)
Move-Inv n pc pc' (read_wait h) d v = marked v.marks (ground arith)
Move-Inv n pc pc' read_revert d v = marked v.marks (ground arith)
Move-Inv n pc pc' (read_await h) d v = marked v.marks (ground arith)
Move-Inv n pc pc' read_again d v = marked v.marks (ground arith)
Move-Inv n pc pc' (try_read h) d v = marked v.marks (ground arith)
Move-Inv n pc pc' (try_wait h) d v = marked v.marks (ground arith)
Move-Inv n pc pc' try_busy d v = marked v.marks (ground arith)
Move-Inv n pc pc' (read_none h) d v = marked v.marks (ground arith)
Move-Inv n pc pc' (read_drop h k) d v = marked v.marks (ground arith)
Move-Inv n pc pc' read_unlock d v = marked v.marks (ground arith)
Move-Inv n pc pc' (drop_wait h) d v = marked v.marks (ground arith)
Move-Inv n pc pc' (drop_lock h) d v = marked v.marks (ground arith)
Move-Inv n pc pc' drop_again d v = marked v.marks (ground arith)
Move-Inv n pc pc' want_write d v = marked v.marks (ground arith)
Move-Inv n pc pc' (write_taken h) d v = marked v.marks (ground arith)
Move-Inv n pc pc' (write_free h) d v = marked v.marks (ground arith)
Move-Inv n pc pc' write_lost d v = marked v.marks (ground arith)
Move-Inv n pc pc' (write_swap h) d v = marked 1 (ground arith)
Move-Inv n pc pc' (write_lock h) d v = marked v.marks (ground arith)
Move-Inv n pc pc' (try_taken h) d v = marked v.marks (ground arith)
Move-Inv n pc pc' (try_free h) d v = marked v.marks (ground arith)
Move-Inv n pc pc' try_lost d v = marked v.marks (ground arith)
Move-Inv n pc pc' (try_won h) d v = marked 1 (ground arith)
Move-Inv n pc pc' (try_write h) d v = marked v.marks (ground arith)
Move-Inv n pc pc' (try_failed h) d v = marked v.marks (ground arith)
Move-Inv n pc pc' (write_done h) d v = marked v.marks (ground arith)
Move-Inv n pc pc' (write_none h) d v = marked v.marks (ground arith)
Move-Inv n pc pc' unlock_lost d v = marked v.marks (ground arith)
Move-Inv n pc pc' (unlock_won h) d v = marked 0 (ground arith)
Move-Inv n pc pc' unlock_done d v = marked v.marks (ground arith)

pub Reach-Inv :
    {n : ℕ} {m : RwMutex} {pc : ℕ → Pc}
    → n < watermark
    → Reach n rwmtx_init (λ _. away) m pc
    → Inv n m pc
Reach-Inv {n} few start = start-Inv n
Reach-Inv {n} few (step {pc = pc} r i below move) =
    Move-Inv n pc (at i _ pc) move (at-Moved n i (pc i) _ pc few below refl) (Reach-Inv few r)

-- Whatever fewer than 2 ^ 24 - 1 threads do from a new lock on: when one of them holds the write lock, no
-- other holds the write lock, and none a read lock.
pub rwmtx_exclusive :
    {n : ℕ} {m : RwMutex} {pc : ℕ → Pc}
    → n < watermark
    → Reach n rwmtx_init (λ _. away) m pc
    → (i j : ℕ) → i < n
    → j < n
    → ¬ (i ≡ j)
    → pc i ≡ writing
    → (¬ (pc j ≡ reading)) × (¬ (pc j ≡ writing))
rwmtx_exclusive {n} {m} {pc} few r i j below last h a =
    let v = Reach-Inv few r in
    let one = count-some is_writer n i pc below (ap is_writer a) in
    (
      λ b.
          ground
            (arith, v.apart, v.writers, one, count-some is_reader n j pc last (ap is_reader b)),
      λ b.
          let w = ap is_writer a in
          let w' = ap is_writer b in
          elim (dec_lt i j) [
            | yes up ↦
                absurd (omega (arith, v.one, v.writers, count-two is_writer n i j pc up last w w'))
            | no down ↦ absurd (
                omega (
                  arith,
                  v.one,
                  v.writers,
                  count-two is_writer n j i pc (omega (arith, h)) below w' w,
                ))
          ],
    )
