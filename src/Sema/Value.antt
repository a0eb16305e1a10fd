-- ===== src/Sema/Value.antt =====
-- What the calls of thread_sema.c do to the value of the semaphore.
use ckit.Base.{
  ℕ, zero, suc, ◌+◌, ◌≤◌, ◌<◌, ◌≡◌, ◌⊎◌, inl, inr, refl, Bool, true, false, ret, panic, arith,
  Bool-cases, subst,
}
use ckit.Sema.{System, Answer, done, interrupted, failed, retry, post_loop, sema_signal}

-- What the manual says of a wait: it lowers the value by one when it succeeds, and leaves it otherwise.
-- An interruption takes a signal away, of which there are only so many.
pub record Waits {W : Type 0} (value signals : W → ℕ) (call : W → Answer × W) : Type 0 where
  pub takes : (w : W) → (call w).0 ≡ done → value w ≡ value (call w).1 + 1
  pub fails : (w : W) → (call w).0 ≡ failed → value (call w).1 ≡ value w
  pub stops : (w : W) → (call w).0 ≡ interrupted → value (call w).1 ≡ value w
  pub counts : (w : W) → (call w).0 ≡ interrupted → signals (call w).1 < signals w

-- A post raises the value by one, or fails and leaves it.
pub record Posts {W : Type 0} (value : W → ℕ) (post : W → Bool × W) : Type 0 where
  pub raises : (w : W) → (post w).0 ≡ true → value (post w).1 ≡ value w + 1
  pub fails : (w : W) → (post w).0 ≡ false → value (post w).1 ≡ value w

Answer-cases : (a : Answer) → (a ≡ done) ⊎ ((a ≡ failed) ⊎ (a ≡ interrupted))
Answer-cases done = inl refl
Answer-cases failed = inr (inl refl)
Answer-cases interrupted = inr (inr refl)

module _ {W : Type 0} (value signals : W → ℕ) where
  -- What a wait answers, and what it did to the value `v`.
  abbrev pub Waited : ℕ → Bool × W → Type 0
  Waited v (true, w') = v ≡ value w' + 1
  Waited v (false, w') = value w' ≡ v

  -- `SemaWait`, `SemaTryWait` and `SemaTimedWait` call the system again when they are interrupted. That
  -- ends when there are fewer signals than turns, and then the value is one lower if the answer is true
  -- and as it was if it is false.
  pub retry_lem :
      (call : W → Answer × W) (fuel : ℕ) (w : W)
      → Waits value signals call
      → signals w < fuel
      → (r : Bool × W) × (retry call fuel w ≡ ret r) × Waited (value w) r
  unfolding retry
  retry_lem call zero w l enough = absurd (omega arith)
  retry_lem call (suc fuel) w l enough = elim (Answer-cases (call w).0) [
    | inl e ↦ ((true, (call w).1), ground (arith, e), l.takes w e)
    | inr (inl e) ↦ ((false, (call w).1), ground (arith, e), l.fails w e)
    | inr (inr e) ↦
        let (r, runs, did) = retry_lem call fuel (call w).1 l (omega (arith, l.counts w e)) in
        (r, ground (arith, e, runs), subst (λ v. Waited v r) (l.stops w e) did)
  ]

  -- How the loop of `SemaSignal` ends: after `count` posts, or after fewer, when one fails.
  abbrev pub Posted : ℕ → ℕ → Bool × W → Type 0
  Posted v count (true, w') = value w' ≡ v + count
  Posted v count (false, w') = (v ≤ value w') × (value w' < v + count)

  -- One post and then the others.
  Posted-suc :
      (v v1 count : ℕ) (r : Bool × W) → v1 ≡ v + 1 → Posted v1 count r → Posted v (suc count) r
  Posted-suc v v1 count (true, w') e h = omega (arith, e, h)
  Posted-suc v v1 count (false, w') e (low, high) = (omega (arith, e, low), omega (arith, e, high))

  post_loop_lem :
      (os : System W) (count : ℕ) (w : W)
      → Posts value os.post
      → Posted (value w) count (post_loop os count w)
  unfolding post_loop
  post_loop_lem os zero w l = omega arith
  post_loop_lem os (suc count) w l = elim (Bool-cases (os.post w).0) [
    | inl e ↦ rw e (
        Posted-suc (value w) (value (os.post w).1) count (post_loop os count (os.post w).1)
          (l.raises w e) (post_loop_lem os count (os.post w).1 l))
    | inr e ↦ rw e (omega (arith, l.fails w e), omega (arith, l.fails w e))
  ]

  -- `SemaSignal` of no signals stops the program. Of `count` signals it gives all of them if it answers
  -- true, and fewer if it answers false.
  pub sema_signal_lem :
      (os : System W) (count : ℕ) (w : W)
      → Posts value os.post
      → ((count ≡ 0) × (sema_signal os count w ≡ panic))
        ⊎ ((r : Bool × W) × (sema_signal os count w ≡ ret r) × Posted (value w) count r)
  unfolding sema_signal
  sema_signal_lem os zero w l = inl (refl, refl)
  sema_signal_lem os (suc count) w l =
      inr (post_loop os (suc count) w, ground arith, post_loop_lem os (suc count) w l)
