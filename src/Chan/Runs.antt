-- ===== src/Chan/Runs.antt =====
-- pkg/rbase/chan.c: any sequence of calls by any threads on one channel.
-- The calls stand in the order in which they hold the channel's lock. A thread that is parked makes no
-- call until it has been signalled. Beside the channel a run keeps the parked threads, the messages
-- that were sent, and those that were handed to a receiver, in order.
use ckit.Base.{
  ℕ, Bool, false, ◌||◌, List, [], ◌∷◌, ◌++◌, Bytes, ◌==◌, if◌then◌else◌, Outcome, ret, ◌>>=◌,
}
use ckit.Base.Links.{update}
use ckit.Chan.{
  Channel, Threads, Reply, done, refused, was_closed, parked, send, recv, resume_recv, open_chan,
}
use ckit.Chan.Inv.{tail_of}

pub record System : Type 0 where
  pub chan : Channel
  pub sends : List ℕ
  pub recvs : List ℕ
  pub sent : List Bytes
  pub got : List Bytes

-- A call of `chan_send` with a message, or of `chan_recv`, that blocks or not, by a thread.
pub data Call : Type 0 where
  sending : (block : Bool) (me : ℕ) (m : Bytes) → Call
  receiving : (block : Bool) (me : ℕ) → Call

-- The element of a thread, when it is about to send it.
abbrev pub set_elem : Channel → ℕ → Bytes → Channel
set_elem c me m = record c { threads = record c.threads { elem = update c.threads.elem me m } }

-- A receiver that was parked goes on at once with the end of its call, and counts as having received the
-- message if that answers `true`.
unfoldable pub resumed : System → Reply × Channel → ℕ → List ℕ → System
resumed s (done, c) t ts = record s { chan = c; recvs = ts; got = s.got ++ c.threads.elem t ∷ [] }
resumed s (refused, c) t ts = record s { chan = c; recvs = ts }
resumed s (was_closed, c) t ts = record s { chan = c; recvs = ts }
resumed s (parked, c) t ts = record s { chan = c; recvs = ts }

unfoldable pub after_send : System → ℕ → Bytes → Reply × Channel → System
unfolding resume_recv
after_send s me m (done, c) = elim s.recvs [
  | t ∷ ts ↦ resumed (record s { sent = s.sent ++ m ∷ [] }) (resume_recv c t) t ts
  | [] ↦ record s { chan = c; sent = s.sent ++ m ∷ [] }
]
after_send s me m (parked, c) = record s {
  chan = c;
  sends = s.sends ++ me ∷ [];
  sent = s.sent ++ m ∷ [];
}
after_send s me m (refused, c) = record s { chan = c }
after_send s me m (was_closed, c) = record s { chan = c }

unfoldable pub after_recv : System → ℕ → Reply × Channel → System
after_recv s me (done, c) = record s {
  chan = c;
  sends = tail_of s.sends;
  got = s.got ++ c.threads.elem me ∷ [];
}
after_recv s me (parked, c) = record s { chan = c; recvs = s.recvs ++ me ∷ [] }
after_recv s me (refused, c) = record s { chan = c }
after_recv s me (was_closed, c) = record s { chan = c }

abbrev pub listed : ℕ → List ℕ → Bool
listed t [] = false
listed t (u ∷ us) = t == u || listed t us

unfoldable pub step : System → Call → Outcome System
step s (sending block me m) =
    if listed me s.sends || listed me s.recvs
    then ret s
    else do r ← send block (set_elem s.chan me m) me; ret (after_send s me m r)
step s (receiving block me) =
    if listed me s.sends || listed me s.recvs
    then ret s
    else do r ← recv block s.chan me; ret (after_recv s me r)

unfoldable pub run : System → List Call → Outcome System
run s [] = ret s
run s (k ∷ ks) = step s k >>= λ s'. run s' ks

-- The state in which a channel is opened.
unfoldable pub opened : ℕ → ℕ → Threads → System
opened elemsize bufcap th = record {
  chan = open_chan elemsize bufcap th;
  sends = [];
  recvs = [];
  sent = [];
  got = [];
}
