-- ===== src/Chan/SendCalls.antt =====
-- pkg/rbase/chan.c: the branches of `chan_send` on an open channel.
use ckit.Base.{ℕ, ◌<◌, ◌≡◌, ◌⊎◌, refl, Bool, true, false, none, some, ret, arith}
use ckit.Base.Links.{update}
use ckit.Chan.{
  Channel, done, refused, parked, signal, wq_dequeue, send_direct, send_locked, send, chan_full,
  enqueue, park_send,
}

-- The channel with its first receiver off the queue.
abbrev pub unqueued : Channel → ℕ → Channel
unqueued c t = record c {
  recvq = record c.recvq { first = c.threads.next t };
  threads = record c.threads { next = update c.threads.next t none };
}

-- What the tests before the lock let through.
pub send-locked :
    (block : Bool) (c : Channel) (me : ℕ)
    → c.closed ≡ false
    → (block ≡ true) ⊎ (chan_full c ≡ false)
    → send block c me ≡ send_locked block c me
unfolding send
send-locked block c me opened pass = ground (arith, opened, pass)

pub send-refused :
    (c : Channel) (me : ℕ)
    → c.closed ≡ false
    → chan_full c ≡ true
    → send false c me ≡ ret (refused, c)
unfolding send
send-refused c me opened full = ground (arith, opened, full)

pub chan_full-receiver :
    (c : Channel) {t : ℕ} → c.recvq.first ≡ some t → c.qlen ≡ 0 → chan_full c ≡ false
unfolding chan_full
chan_full-receiver c first empty = rw (first) (ground (arith, empty))

pub chan_full-room : (c : Channel) → c.qlen < c.qcap → chan_full c ≡ false
unfolding chan_full
chan_full-room c room = ground (arith, room)

pub chan_full-none : (c : Channel) → c.recvq.first ≡ none → c.qlen ≡ c.qcap → chan_full c ≡ true
unfolding chan_full
chan_full-none c first full = rw (first) (ground (arith, full))

pub send_locked-receiver :
    (block : Bool) (c : Channel) (me : ℕ) {t : ℕ}
    → c.recvq.first ≡ some t
    → send_locked block c me ≡ send_direct (unqueued c t) me t
unfolding send_locked wq_dequeue
send_locked-receiver block c me first = rw (first) refl

pub send_locked-buffer :
    (block : Bool) (c : Channel) (me : ℕ)
    → c.recvq.first ≡ none
    → c.qlen < c.qcap
    → send_locked block c me ≡ ret (done, enqueue c me)
unfolding send_locked
send_locked-buffer block c me first room = rw (first) (ground (arith, room))

pub send_locked-park :
    (c : Channel) (me : ℕ)
    → c.recvq.first ≡ none
    → c.qlen ≡ c.qcap
    → send_locked true c me ≡ ret (parked, park_send c me)
unfolding send_locked
send_locked-park c me first full = rw (first) (ground (arith, full))

-- The channel when `t` has been handed the element of `me`.
abbrev pub handed : Channel → ℕ → ℕ → Channel
handed c me t = record c {
  threads =
      signal
        (record c.threads {
          elem = update c.threads.elem t (c.threads.elem me);
          elemptr = update c.threads.elemptr t false;
        })
        t;
}

pub send_direct-offered :
    (c : Channel) (me t : ℕ)
    → c.threads.elemptr t ≡ true
    → send_direct c me t ≡ ret (done, handed c me t)
unfolding send_direct
send_direct-offered c me t o = rw (o) refl
