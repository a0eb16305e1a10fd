-- ===== src/Chan.antt =====
-- pkg/rbase/chan.c and chan.h: channels between threads.
-- A call runs in one step up to its end or to where it parks its thread: every store to the channel is
-- under the channel's lock. Before it a call only reads, to answer early what it would answer under
-- the lock as well, and behind it it only signals a thread. So the state is that of a channel whose lock is free,
-- with the thread-local `Thr` of every thread, one map for each field. A thread hands over one element
-- of its own in a call (`elem`), and `elemptr` tells whether a pointer to it is published. An element
-- is its `elemsize` bytes. Built without DEBUG, where a slot that is read is not cleared.
pub mod WaitQ
pub mod Ring
pub mod Inv
pub mod SendCalls
pub mod Send
pub mod RecvCalls
pub mod Recv
pub mod Close
pub mod Memory
pub mod Drain
pub mod Runs
pub mod Fifo
mod Tests
use ckit.Base.{
  ℕ, zero, suc, ◌+◌, ◌-◌, ◌%◌, ◌^◌, ◌≤◌, ◌<◌, ◌≡◌, Bool, true, false, not, ◌&&◌, List, [], ◌∷◌,
  Option, none, some, Bytes, replicate, ltb, leb, ◌==◌, if◌then◌else◌, Outcome, ret, panic, fault,
  ◌>>=◌, ◌>>◌, assert,
}
use ckit.Base.Words.{u32, sub_u32}
use ckit.Base.Links.{update}

-- `Thr`, for every thread; `sema` is the count of its semaphore.
pub record Threads : Type 0 where
  pub next : ℕ → Option ℕ
  pub closed : ℕ → Bool
  pub sema : ℕ → ℕ
  pub elemptr : ℕ → Bool
  pub elem : ℕ → Bytes

-- `WaitQ`; `last` is read only after the first `wq_enqueue` has set it.
pub record WaitQueue : Type 0 where
  pub first : Option ℕ
  pub last : ℕ

-- `Chan`, without its lock and where its memory is.
pub record Channel : Type 0 where
  pub elemsize : ℕ
  pub qcap : ℕ
  pub qlen : ℕ
  pub closed : Bool
  pub sendq : WaitQueue
  pub recvq : WaitQueue
  pub sendx : ℕ
  pub recvx : ℕ
  pub buf : ℕ → Bytes
  pub threads : Threads

-- How a call ends: `true`, `false`, `false` with `*closed` set, or not before another thread wakes it.
pub data Reply : Type 0 where
  done : Reply
  refused : Reply
  was_closed : Reply
  parked : Reply

-- `thr_signal`
abbrev pub signal : Threads → ℕ → Threads
signal th t = record th { sema = update th.sema t (th.sema t + 1) }

-- `wq_enqueue`
pub wq_enqueue : WaitQueue → (ℕ → Option ℕ) → ℕ → WaitQueue × (ℕ → Option ℕ)
wq_enqueue wq next t = elim wq.first [
  | some _ ↦ (record wq { last = t }, update next wq.last (some t))
  | none ↦ (record { first = some t; last = t }, next)
]

-- `wq_dequeue`, for the thread `t` that it finds.
pub wq_dequeue : WaitQueue → (ℕ → Option ℕ) → ℕ → WaitQueue × (ℕ → Option ℕ)
wq_dequeue wq next t = (record wq { first = next t }, update next t none)

abbrev pub is_null : Option ℕ → Bool
is_null none = true
is_null (some _) = false

-- `chan_full`
pub chan_full : Channel → Bool
chan_full c = if c.qcap == 0 then is_null c.recvq.first else c.qlen == c.qcap

-- `chan_empty`
pub chan_empty : Channel → Bool
chan_empty c = if c.qcap == 0 then is_null c.sendq.first else c.qlen == 0

-- The index behind `i`, where the code adds 1 and starts again behind the last slot.
abbrev pub bump : Channel → ℕ → ℕ
bump c i = if i == sub_u32 c.qcap 1 then 0 else u32 (i + 1)

-- `chan_park`, up to where the thread sleeps, for the senders and for the receivers.
pub park_send : Channel → ℕ → Channel
park_send c me =
    let th = c.threads in
    let (q, next) = wq_enqueue c.sendq th.next me in
    record c { sendq = q; threads = record th { next = next; elemptr = update th.elemptr me true } }

pub park_recv : Channel → ℕ → Channel
park_recv c me =
    let th = c.threads in
    let (q, next) = wq_enqueue c.recvq th.next me in
    record c { recvq = q; threads = record th { next = next; elemptr = update th.elemptr me true } }

-- `chan_send_direct`, of the element of `me` to the receiver `t`, which is off its queue.
pub send_direct : Channel → ℕ → ℕ → Outcome (Reply × Channel)
send_direct c me t = do
  let th = c.threads
  assert (th.elemptr t)
  ret (
    done,
    record c {
      threads =
          signal
            (record th {
              elem = update th.elem t (th.elem me);
              elemptr = update th.elemptr t false;
            })
            t;
    },
  )

-- The part of `chan_send` that stores into the buffer.
pub enqueue : Channel → ℕ → Channel
enqueue c me = record c {
  buf = update c.buf c.sendx (c.threads.elem me);
  sendx = bump c c.sendx;
  qlen = u32 (c.qlen + 1);
}

-- `chan_send` by the thread `me`, with the lock taken and the channel not closed.
pub send_locked : Bool → Channel → ℕ → Outcome (Reply × Channel)
send_locked block c me = elim c.recvq.first [
  | some t ↦
      let (q, next) = wq_dequeue c.recvq c.threads.next t in
      send_direct (record c { recvq = q; threads = record c.threads { next = next } }) me t
  | none ↦
      if ltb c.qlen c.qcap
      then ret (done, enqueue c me)
      else if block
      then ret (parked, park_send c me)
      else ret (refused, c)
]

-- `chan_send`; `block` is that `closed` is null.
pub send : Bool → Channel → ℕ → Outcome (Reply × Channel)
send block c me =
    if not block && (not c.closed && chan_full c)
    then ret (refused, c)
    else if c.closed
    then (if block then panic else ret (was_closed, c))
    else send_locked block c me

-- `memset(dstelemptr, 0, c->elemsize)`
abbrev pub clear : Channel → ℕ → Channel
clear c me = record c {
  threads = record c.threads { elem = update c.threads.elem me (replicate c.elemsize 0) };
}

-- `chan_recv_direct`, from the sender `t`, which is off its queue, to the element of `me`.
pub recv_direct : Channel → ℕ → ℕ → Outcome (Reply × Channel)
recv_direct c me t = do
  let th = c.threads
  assert (th.elemptr t)
  ret (
    done,
    if c.qlen == 0
        then record c { threads = signal (record th { elem = update th.elem me (th.elem t) }) t }
        else record c {
          buf = update c.buf c.recvx (th.elem t);
          recvx = bump c c.recvx;
          sendx = bump c c.recvx;
          threads = signal (record th { elem = update th.elem me (c.buf c.recvx) }) t;
        },
  )

-- The part of `chan_recv` that reads from the buffer.
pub dequeue : Channel → ℕ → Channel
dequeue c me = record c {
  recvx = bump c c.recvx;
  qlen = sub_u32 c.qlen 1;
  threads = record c.threads { elem = update c.threads.elem me (c.buf c.recvx) };
}

-- `chan_recv` by the thread `me`, with the lock taken and not both closed and empty. The last test
-- for a closed channel is in the code too.
pub recv_locked : Bool → Channel → ℕ → Outcome (Reply × Channel)
recv_locked block c me = elim c.sendq.first [
  | some t ↦
      let (q, next) = wq_dequeue c.sendq c.threads.next t in
      recv_direct (record c { sendq = q; threads = record c.threads { next = next } }) me t
  | none ↦
      if ltb 0 c.qlen
      then ret (done, dequeue c me)
      else if not block
      then ret (refused, c)
      else if c.closed
      then ret (was_closed, clear c me)
      else ret (parked, park_recv c me)
]

-- `chan_recv`; `block` is that `closed` is null. A blocking call on a closed channel answers `false`
-- with no place for `*closed`, which is `was_closed` here too.
pub recv : Bool → Channel → ℕ → Outcome (Reply × Channel)
recv block c me =
    if not block && (chan_empty c && not c.closed)
    then ret (refused, c)
    else if not block && chan_empty c
    then ret (was_closed, clear c me)
    else if c.closed && c.qlen == 0
    then ret (was_closed, clear c me)
    else recv_locked block c me

-- The end of `chan_recv` for a thread that was parked and has been woken.
pub resume_recv : Channel → ℕ → Reply × Channel
resume_recv c me = if c.threads.closed me then (was_closed, clear c me) else (done, c)

-- The end of `chan_send` for a thread that was parked and has been woken: it looks at nothing.
pub resume_send : Channel → ℕ → Reply × Channel
resume_send c me = (done, c)

-- A loop of `ChanClose` along the list from `t`, with fuel for the threads on it.
pub wake_all : ℕ → Threads → Option ℕ → Outcome Threads
wake_all fuel th none = ret th
wake_all zero th (some t) = fault
wake_all (suc fuel) th (some t) =
    wake_all fuel (signal (record th { closed = update th.closed t true }) t) (th.next t)

-- `ChanClose`, with fuel for its two loops.
pub close : ℕ → Channel → Outcome Channel
close fuel c = if c.closed then panic else do
  th1 ← wake_all fuel c.threads c.recvq.first
  th2 ← wake_all fuel th1 c.sendq.first
  ret (record c { closed = true; threads = th2 })

-- `ChanCap`
abbrev pub chan_cap : Channel → ℕ
chan_cap c = c.qcap

-- What `ChanOpen` makes of a piece of zeroed memory. It stores only `elemsize` and `qcap`.
pub open_chan : ℕ → ℕ → Threads → Channel
open_chan elemsize bufcap th = record {
  elemsize = elemsize;
  qcap = bufcap;
  qlen = 0;
  closed = false;
  sendq = record { first = none; last = 0 };
  recvq = record { first = none; last = 0 };
  sendx = 0;
  recvx = 0;
  buf = λ i. replicate elemsize 0;
  threads = th;
}
