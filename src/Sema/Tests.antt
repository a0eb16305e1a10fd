-- ===== src/Sema/Tests.antt =====
-- Semaphores by evaluation, and the theorems over a semaphore that is a number.
use ckit.Base.{
  ℕ, zero, suc, ◌+◌, ◌*◌, ◌<◌, ◌≡◌, refl, Bool, true, false, ret, arith, ltb, if◌then◌else◌,
}
use ckit.Sema.{
  Answer, done, interrupted, failed, Timespec, System, deadline, retry, sema_wait, sema_try_wait,
  sema_timed_wait, sema_signal, post_loop, sleep_time,
}
use ckit.Sema.Value.{Waits, Posts, Waited}
use ckit.Sema.Deadline.{Normal, nanoseconds, sema_timed_wait_lem}

-- The value, and how many signals are to come.
abbrev Outside : Type 0
Outside = ℕ × ℕ

abbrev value : Outside → ℕ
value w = w.0

abbrev signals : Outside → ℕ
signals w = w.1

-- A wait that is interrupted while there are signals, and that times out when the value is 0.
abbrev wait : Outside → Answer × Outside
wait (v, suc k) = (interrupted, (v, k))
wait (suc v, zero) = (done, (v, zero))
wait (zero, zero) = (failed, (zero, zero))

abbrev os : System Outside
os = record {
  init = λ n w. (true, (n, 0));
  wait = wait;
  trywait = wait;
  timedwait = λ ts w. wait w;
  post = λ w. if ltb w.0 5 then (true, (w.0 + 1, w.1)) else (false, w);
  clock = λ w. record { tv_sec = 1000; tv_nsec = 999999999 };
}

wait-Waits : Waits value signals wait
wait-Waits = record {
  takes = λ w e. takes w e;
  fails = λ w e. fails w e;
  stops = λ w e. stops w e;
  counts = λ w e. counts w e;
}
  where
    takes : (w : Outside) → (wait w).0 ≡ done → value w ≡ value (wait w).1 + 1
    takes (v, suc k) e = ground (arith, e)
    takes (suc v, zero) e = omega arith
    takes (zero, zero) e = ground (arith, e)

    fails : (w : Outside) → (wait w).0 ≡ failed → value (wait w).1 ≡ value w
    fails (v, suc k) e = refl
    fails (suc v, zero) e = ground (arith, e)
    fails (zero, zero) e = refl

    stops : (w : Outside) → (wait w).0 ≡ interrupted → value (wait w).1 ≡ value w
    stops (v, suc k) e = refl
    stops (suc v, zero) e = ground (arith, e)
    stops (zero, zero) e = refl

    counts : (w : Outside) → (wait w).0 ≡ interrupted → signals (wait w).1 < signals w
    counts (v, suc k) e = omega arith
    counts (suc v, zero) e = ground (arith, e)
    counts (zero, zero) e = ground (arith, e)

post-Posts : Posts value os.post
post-Posts = record { raises = λ w e. ground (arith, e); fails = λ w e. ground (arith, e) }

-- The nanoseconds are carried over.
deadline_test : deadline (os.clock (0, 0)) 2500001 ≡ record { tv_sec = 1003; tv_nsec = 500000999 }
unfolding deadline
deadline_test = refl

-- Two signals, and then the wait succeeds, and the next one times out.
wait_test : sema_wait os 5 (1, 2) ≡ ret (true, (0, 0))
unfolding sema_wait retry
wait_test = refl

try_wait_test : sema_try_wait os 5 (0, 0) ≡ ret (false, (0, 0))
unfolding sema_try_wait retry
try_wait_test = refl

-- The semaphore takes two of three signals.
signal_test : sema_signal os 3 (3, 0) ≡ ret (false, (5, 0))
unfolding sema_signal post_loop
signal_test = refl

sema_timed_wait_lem_example :
    (ts : Timespec) × (r : Bool × Outside) × Normal ts
    × (nanoseconds ts ≡ nanoseconds (os.clock (1, 2)) + 2500001 * 1000)
    × (sema_timed_wait os 5 2500001 (1, 2) ≡ retry (os.timedwait ts) 5 (1, 2))
    × (sema_timed_wait os 5 2500001 (1, 2) ≡ ret r)
    × Waited value signals 1 r
sema_timed_wait_lem_example =
    sema_timed_wait_lem os value signals 5 2500001 (1, 2) (omega arith) (omega arith) (omega arith)
      (λ ts h. wait-Waits) (omega arith)

sleep_test : sleep_time 2500 ≡ record { tv_sec = 2; tv_nsec = 500000000 }
unfolding sleep_time
sleep_test = refl
