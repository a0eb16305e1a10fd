-- ===== src/Mutex/Invariant.antt =====
-- `HybridMutex` of pkg/rbase/thread.h: one thread at a time.
use ckit.Base.{ℕ, ◌+◌, ◌<◌, ◌≡◌, refl, ap, sym, ◌∙◌, Bool, true, false, arith}
use ckit.Base.Family.{at, one_if, count, count-at, count-none, count-two}
use ckit.Mutex.{
  HybridMutex, Pc, away, inside, Move, lock, busy, acquire, again, free, spin, tired, add, wait,
  proceed, wake, subtract, unlock, quiet, signal, post, hybrid_mutex_init, Reach, start, step,
}

abbrev pub is_inside : Pc → Bool
is_inside inside = true
is_inside _ = false

-- As many threads are inside as the flag tells.
abbrev pub Inv : ℕ → HybridMutex → (ℕ → Pc) → Type 0
Inv n m pc = count is_inside n pc ≡ one_if m.flag

start-Inv : (n : ℕ) → Inv n hybrid_mutex_init (λ _. away)
start-Inv n = count-none is_inside n (λ _. away) (λ i. refl)

-- How a step of the thread `i` from `p` to `q` changes the number.
abbrev Moved : ℕ → Pc → Pc → (ℕ → Pc) → (ℕ → Pc) → Type 0
Moved n p q pc pc' =
    count is_inside n pc' + one_if (is_inside p) ≡ count is_inside n pc + one_if (is_inside q)

at-Moved : (n i : ℕ) (p q : Pc) (pc : ℕ → Pc) → i < n → pc i ≡ p → Moved n p q pc (at i q pc)
at-Moved n i p q pc below e =
    ap (λ x. count is_inside n (at i q pc) + one_if (is_inside x)) (sym e)
    ∙ count-at is_inside n i q pc below

Move-Inv :
    {m m' : HybridMutex} {p q : Pc}
    → (n : ℕ) (pc pc' : ℕ → Pc) → Move m p m' q
    → Moved n p q pc pc'
    → Inv n m pc
    → Inv n m' pc'
Move-Inv n pc pc' (lock h) d v = ground arith
Move-Inv n pc pc' (busy h) d v = ground arith
Move-Inv n pc pc' (acquire h) d v = ground arith
Move-Inv n pc pc' (again h) d v = ground arith
Move-Inv n pc pc' free d v = ground arith
Move-Inv n pc pc' (spin t) d v = ground arith
Move-Inv n pc pc' (tired t) d v = ground arith
Move-Inv n pc pc' add d v = ground arith
Move-Inv n pc pc' wait d v = ground arith
Move-Inv n pc pc' proceed d v = ground arith
Move-Inv n pc pc' (wake h) d v = ground arith
Move-Inv n pc pc' subtract d v = ground arith
Move-Inv n pc pc' unlock d v = ground arith
Move-Inv n pc pc' quiet d v = ground arith
Move-Inv n pc pc' signal d v = ground arith
Move-Inv n pc pc' post d v = ground arith

pub Reach-Inv : {n : ℕ} {m : HybridMutex} {pc : ℕ → Pc} → Reach n m pc → Inv n m pc
Reach-Inv {n} start = start-Inv n
Reach-Inv {n} (step {pc = pc} r i below move) =
    Move-Inv n pc (at i _ pc) move (at-Moved n i (pc i) _ pc below refl) (Reach-Inv r)

-- Whatever `n` threads do from a new mutex on, two of them are never inside at once.
pub hybrid_mutex_exclusive :
    {n : ℕ} {m : HybridMutex} {pc : ℕ → Pc}
    → Reach n m pc
    → (i j : ℕ) → i < j
    → j < n
    → ¬ ((pc i ≡ inside) × (pc j ≡ inside))
hybrid_mutex_exclusive {n} {m} {pc} r i j below last (a, b) =
    let two = count-two is_inside n i j pc below last (ap is_inside a) (ap is_inside b) in
    ground (arith, Reach-Inv r, two)
