-- ===== src/Sema/Deadline.antt =====
-- The times that `SemaTimedWait` and `msleep` hand to the system.
use ckit.Base.{ℕ, ◌+◌, ◌*◌, ◌^◌, ◌<◌, ◌≡◌, refl, Bool, ret, arith}
use ckit.Sema.{
  System, Timespec, nsecs_in_1_sec, deadline, sema_timed_wait, retry, sleep_time, msleep,
}
use ckit.Sema.Value.{Waits, Waited, retry_lem}

-- A time in nanoseconds.
abbrev pub nanoseconds : Timespec → ℕ
nanoseconds ts = ts.tv_sec * nsecs_in_1_sec + ts.tv_nsec

-- A time that the system accepts.
abbrev pub Normal : Timespec → Type 0
Normal ts = (ts.tv_nsec < nsecs_in_1_sec) × (ts.tv_sec < 2 ^ 63)

deadline_lem :
    (now : Timespec) (usecs : ℕ)
    → now.tv_nsec < nsecs_in_1_sec
    → now.tv_sec < 2 ^ 62
    → usecs < 2 ^ 64
    → Normal (deadline now usecs)
      × (nanoseconds (deadline now usecs) ≡ nanoseconds now + usecs * 1000)
unfolding deadline
deadline_lem now usecs normal small below = (ground arith, ground arith)

-- `SemaTimedWait` with any timeout waits until exactly as many microseconds later, by a time that the
-- system accepts, and it returns, although it waits again when it is interrupted. The value is then one
-- lower if the answer is true and as it was if it is false. The clock shows fewer than
-- 2 ^ 62 seconds, and there are fewer signals than turns.
pub sema_timed_wait_lem :
    {W : Type 0} (os : System W) (value signals : W → ℕ) (fuel usecs : ℕ) (w : W)
    → (os.clock w).tv_nsec < nsecs_in_1_sec
    → (os.clock w).tv_sec < 2 ^ 62
    → usecs < 2 ^ 64
    → ((ts : Timespec) → Normal ts → Waits value signals (os.timedwait ts))
    → signals w < fuel
    → (ts : Timespec) × (r : Bool × W) × Normal ts
      × (nanoseconds ts ≡ nanoseconds (os.clock w) + usecs * 1000)
      × (sema_timed_wait os fuel usecs w ≡ retry (os.timedwait ts) fuel w)
      × (sema_timed_wait os fuel usecs w ≡ ret r)
      × Waited value signals (value w) r
unfolding sema_timed_wait
sema_timed_wait_lem os value signals fuel usecs w normal small below documented enough =
    let ts = deadline (os.clock w) usecs in
    let (fine, exact) = deadline_lem (os.clock w) usecs normal small below in
    let (r, runs, did) =
      retry_lem value signals (os.timedwait ts) fuel w (documented ts fine) enough in
    (ts, r, fine, exact, refl, runs, did)

-- `msleep` asks the system to sleep for exactly as many milliseconds, by a time that it accepts.
pub msleep_lem :
    {W : Type 0} (nanosleep : Timespec → W → Bool × W) (milliseconds : ℕ) (w : W)
    → milliseconds < 2 ^ 64
    → (ts : Timespec) × (msleep nanosleep milliseconds w ≡ nanosleep ts w)
      × Normal ts
      × (nanoseconds ts ≡ milliseconds * 1000000)
unfolding msleep sleep_time
msleep_lem nanosleep milliseconds w below =
    (sleep_time milliseconds, refl, (omega arith, omega arith), omega arith)
