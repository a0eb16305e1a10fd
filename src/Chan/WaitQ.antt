-- ===== src/Chan/WaitQ.antt =====
-- pkg/rbase/chan.c: `wq_enqueue` and `wq_dequeue` keep a queue of threads, linked by `next`.
use ckit.Base.{ℕ, ◌≡◌, refl, List, [], ◌∷◌, ◌++◌, Option, none, some, arith}
use ckit.Base.Links.{
  update, Absent, Distinct, Distinct-snoc, Chain, Chain-update, Chain-snoc, LastIs, LastIs-snoc,
  LastIs-tail, last-differs,
}
use ckit.Chan.{WaitQueue, wq_enqueue, wq_dequeue}

-- The threads on a queue, from the one that waits longest.
pub record Waiting (wq : WaitQueue) (next : ℕ → Option ℕ) (ids : List ℕ) : Type 0 where
  pub chain : Chain next wq.first ids
  pub last : LastIs wq.last ids
  pub distinct : Distinct ids

wq_enqueue-none :
    (wq : WaitQueue) (next : ℕ → Option ℕ) (t : ℕ)
    → wq.first ≡ none
    → wq_enqueue wq next t ≡ (record { first = some t; last = t }, next)
unfolding wq_enqueue
wq_enqueue-none wq next t e = rw (e) refl

wq_enqueue-some :
    (wq : WaitQueue) (next : ℕ → Option ℕ) (t : ℕ) {u : ℕ}
    → wq.first ≡ some u
    → wq_enqueue wq next t ≡ (record wq { last = t }, update next wq.last (some t))
unfolding wq_enqueue
wq_enqueue-some wq next t e = rw (e) refl

-- `wq_enqueue` puts a thread at the end.
pub wq_enqueue-Waiting :
    (wq : WaitQueue) (next : ℕ → Option ℕ) (t : ℕ) (ids : List ℕ)
    → Waiting wq next ids
    → Absent t ids
    → next t ≡ none
    → let (q, n) = wq_enqueue wq next t in Waiting q n (ids ++ t ∷ [])
wq_enqueue-Waiting wq next t [] w a free =
    rw (wq_enqueue-none wq next t w.chain)
      (record { chain = (refl, free); last = refl; distinct = (tt, tt) })
wq_enqueue-Waiting wq next t (u ∷ us) w a free = rw (wq_enqueue-some wq next t w.chain.0) (record {
  chain = Chain-snoc next wq.first wq.last t u us w.chain w.last w.distinct a free;
  last = LastIs-snoc t (u ∷ us);
  distinct = Distinct-snoc t (u ∷ us) w.distinct a;
})

-- `wq_dequeue` takes the thread that waits longest.
pub wq_dequeue-Waiting :
    (wq : WaitQueue) (next : ℕ → Option ℕ) (t : ℕ) (ts : List ℕ)
    → Waiting wq next (t ∷ ts)
    → let (q, n) = wq_dequeue wq next t in Waiting q n ts
unfolding wq_dequeue
wq_dequeue-Waiting wq next t ts w = record {
  chain = Chain-update next t none (next t) ts w.distinct.0 w.chain.1;
  last = LastIs-tail wq.last t ts w.last;
  distinct = w.distinct.1;
}

-- The links of the threads that are not on the queue stay.
pub wq_enqueue-other :
    (wq : WaitQueue) (next : ℕ → Option ℕ) (t u : ℕ) (ids : List ℕ)
    → Waiting wq next ids
    → Absent u ids
    → (wq_enqueue wq next t).1 u ≡ next u
wq_enqueue-other wq next t u [] w a = rw (wq_enqueue-none wq next t w.chain) refl
wq_enqueue-other wq next t u (v ∷ vs) w a =
    rw (wq_enqueue-some wq next t w.chain.0) (ground (arith, last-differs v vs w.last a))
