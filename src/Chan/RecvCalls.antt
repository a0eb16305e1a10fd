-- ===== src/Chan/RecvCalls.antt =====
-- pkg/rbase/chan.c: the branches of `chan_recv` on an open channel.
use ckit.Base.{ℕ, ◌≤◌, ◌<◌, ◌≡◌, ◌⊎◌, refl, Bool, true, false, none, some, ret, arith}
use ckit.Base.Links.{update}
use ckit.Chan.{
  Channel, done, refused, parked, signal, wq_dequeue, recv_direct, recv_locked, recv, chan_empty,
  dequeue, park_recv,
}
use ckit.Chan.Ring.{rotate}

-- The channel with its first sender off the queue.
abbrev pub unqueued : Channel → ℕ → Channel
unqueued c t = record c {
  sendq = record c.sendq { first = c.threads.next t };
  threads = record c.threads { next = update c.threads.next t none };
}

-- What the tests before the lock let through.
pub recv-locked :
    (block : Bool) (c : Channel) (me : ℕ)
    → c.closed ≡ false
    → (block ≡ true) ⊎ (chan_empty c ≡ false)
    → recv block c me ≡ recv_locked block c me
unfolding recv
recv-locked block c me opened pass = ground (arith, opened, pass)

pub recv-refused :
    (c : Channel) (me : ℕ)
    → c.closed ≡ false
    → chan_empty c ≡ true
    → recv false c me ≡ ret (refused, c)
unfolding recv
recv-refused c me opened empty = ground (arith, opened, empty)

pub chan_empty-sender :
    (c : Channel) {t : ℕ} → c.sendq.first ≡ some t → c.qlen ≡ c.qcap → chan_empty c ≡ false
unfolding chan_empty
chan_empty-sender c first full = rw (first) (ground (arith, full))

pub recv_locked-sender :
    (block : Bool) (c : Channel) (me : ℕ) {t : ℕ}
    → c.sendq.first ≡ some t
    → recv_locked block c me ≡ recv_direct (unqueued c t) me t
unfolding recv_locked wq_dequeue
recv_locked-sender block c me first = rw (first) refl

pub recv_locked-buffer :
    (block : Bool) (c : Channel) (me : ℕ)
    → c.sendq.first ≡ none
    → 0 < c.qlen
    → recv_locked block c me ≡ ret (done, dequeue c me)
unfolding recv_locked
recv_locked-buffer block c me first more = rw (first) (ground (arith, more))

pub recv_locked-park :
    (c : Channel) (me : ℕ)
    → c.sendq.first ≡ none
    → c.qlen ≡ 0
    → c.closed ≡ false
    → recv_locked true c me ≡ ret (parked, park_recv c me)
unfolding recv_locked
recv_locked-park c me first none_left opened = rw (first) (ground (arith, none_left, opened))

pub chan_empty-buffer : (c : Channel) → c.qlen ≤ c.qcap → 0 < c.qlen → chan_empty c ≡ false
unfolding chan_empty
chan_empty-buffer c len more = ground (arith, len, more)

pub chan_empty-none : (c : Channel) → c.sendq.first ≡ none → c.qlen ≡ 0 → chan_empty c ≡ true
unfolding chan_empty
chan_empty-none c first none_left = rw (first) (ground (arith, none_left))

pub recv_direct-empty :
    (c : Channel) (me t : ℕ)
    → c.threads.elemptr t ≡ true
    → c.qlen ≡ 0
    → recv_direct c me t
      ≡ ret (
        done,
        record c {
          threads =
              signal (record c.threads { elem = update c.threads.elem me (c.threads.elem t) }) t;
        },
      )
unfolding recv_direct
recv_direct-empty c me t o e = rw (o, e) refl

pub recv_direct-full :
    (c : Channel) (me t : ℕ)
    → c.threads.elemptr t ≡ true
    → 0 < c.qlen
    → recv_direct c me t
      ≡ ret (
        done,
        record (rotate c (c.threads.elem t)) {
          threads = signal (record c.threads { elem = update c.threads.elem me (c.buf c.recvx) }) t;
        },
      )
unfolding recv_direct
recv_direct-full c me t o e = rw (o) (ground (arith, e))
