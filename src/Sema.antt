-- ===== src/Sema.antt =====
-- pkg/rbase/thread_sema.c, as it is built for Unix, and `msleep` of pkg/rbase/time.c.
-- The semaphores and the clock of the system are not part of the sources: they are the parameter
-- `System`, over what is outside, a `W`. A call may be interrupted by a signal (EINTR).
pub mod Value
pub mod Deadline
mod Tests
use ckit.Base.{
  ℕ, zero, suc, ◌+◌, ◌-◌, ◌*◌, ◌/◌, ◌%◌, Bool, true, false, leb, ltb, if◌then◌else◌, Outcome, ret,
  fault, ◌>>◌, assert,
}

-- How a call of the system ends: with 0, or with -1 and EINTR, or with -1 and something else in `errno`.
pub data Answer : Type 0 where
  done : Answer
  interrupted : Answer
  failed : Answer

-- `struct timespec`
pub record Timespec : Type 0 where
  pub tv_sec : ℕ
  pub tv_nsec : ℕ

-- One semaphore of the system, and its clock.
pub record System (W : Type 0) : Type 0 where
  pub init : ℕ → W → Bool × W
  pub wait : W → Answer × W
  pub trywait : W → Answer × W
  pub timedwait : Timespec → W → Answer × W
  pub post : W → Bool × W
  pub clock : W → Timespec

abbrev pub usecs_in_1_sec : ℕ
usecs_in_1_sec = 1000000

abbrev pub nsecs_in_1_sec : ℕ
nsecs_in_1_sec = 1000000000

-- What `SemaTimedWait` makes of the time that it is: when the wait ends.
pub deadline : Timespec → ℕ → Timespec
deadline now timeout_usecs =
    let tv_sec = now.tv_sec + timeout_usecs / usecs_in_1_sec in
    let tv_nsec = now.tv_nsec + timeout_usecs % usecs_in_1_sec * 1000 in
    if leb nsecs_in_1_sec tv_nsec
    then record { tv_sec = tv_sec + 1; tv_nsec = tv_nsec - nsecs_in_1_sec }
    else record { tv_sec = tv_sec; tv_nsec = tv_nsec }

-- The loop that the waits share, which calls again when it is interrupted. Fuel for its turns.
pub retry : {W : Type 0} → (W → Answer × W) → ℕ → W → Outcome (Bool × W)
retry call zero w = fault
retry call (suc fuel) w =
    let (answer, w1) = call w in
    elim answer [
      | done ↦ ret (true, w1)
      | failed ↦ ret (false, w1)
      | interrupted ↦ retry call fuel w1
    ]

module _ {W : Type 0} (os : System W) where
  -- `SemaInit`
  pub sema_init : ℕ → W → Bool × W
  sema_init initcount w = os.init initcount w

  -- `SemaWait`
  pub sema_wait : ℕ → W → Outcome (Bool × W)
  sema_wait fuel w = retry os.wait fuel w

  -- `SemaTryWait`
  pub sema_try_wait : ℕ → W → Outcome (Bool × W)
  sema_try_wait fuel w = retry os.trywait fuel w

  -- `SemaTimedWait`
  pub sema_timed_wait : ℕ → ℕ → W → Outcome (Bool × W)
  sema_timed_wait fuel timeout_usecs w =
      let ts = deadline (os.clock w) timeout_usecs in retry (os.timedwait ts) fuel w

  -- The loop of `SemaSignal`.
  pub post_loop : ℕ → W → Bool × W
  post_loop zero w = (true, w)
  post_loop (suc count) w =
      let (posted, w1) = os.post w in
      let more = post_loop count w1 in if posted then more else (false, w1)

  -- `SemaSignal`
  pub sema_signal : ℕ → W → Outcome (Bool × W)
  sema_signal count w = assert (ltb 0 count) >> ret (post_loop count w)

-- What `msleep` asks `nanosleep` for.
pub sleep_time : ℕ → Timespec
sleep_time milliseconds =
    let sec = milliseconds / 1000 in
    record { tv_sec = sec; tv_nsec = (milliseconds - sec * 1000) * 1000000 }

-- `msleep`, with `nanosleep` as a parameter.
pub msleep : {W : Type 0} → (Timespec → W → Bool × W) → ℕ → W → Bool × W
msleep nanosleep milliseconds w = nanosleep (sleep_time milliseconds) w
