-- ===== src/Chan/Tests.antt =====
-- Runs of the code of pkg/rbase/chan.c, and the theorems at concrete inputs.
use ckit.Base.{
  ℕ, ◌≡◌, refl, ◌++◌, true, false, List, [], ◌∷◌, Bytes, none, some, Outcome, ret, panic, fault,
  ◌==◌, inl, inr, arith, ◌≤◌, ◌+◌, ◌*◌, ◌%◌, ◌>>=◌,
}
use ckit.Chan.{
  Channel, Threads, send, recv, close, open_chan, send_locked, recv_locked, chan_full, chan_empty,
  wq_enqueue, wq_dequeue, park_send, park_recv, send_direct, recv_direct, enqueue, dequeue,
  wake_all, was_closed, resume_recv,
}
use ckit.Chan.Ring.{window}
use ckit.Chan.Inv.{Inv, pending}
use ckit.Chan.Send.{Sent, send_lem}
use ckit.Chan.Recv.{Received, recv_lem}
use ckit.Chan.Close.{Woken, close_lem}
use ckit.Chan.Runs.{
  System, Call, sending, receiving, run, opened, step, resumed, after_send, after_recv,
}
use ckit.Chan.Fifo.{run_lem}
use ckit.Chan.Memory.{
  line, sizeof_chan, buf_offset, open_size, open_memory, chan_bufptr, open_memory_lem,
}
use ckit.Chan.Drain.{drain, close-drain}

abbrev fresh : Threads
fresh = record {
  next = λ t. none;
  closed = λ t. false;
  sema = λ t. 0;
  elemptr = λ t. false;
  elem = λ t. [];
}

-- A channel for one message that holds one, with the sender 7 parked.
abbrev full : Channel
full = record {
  elemsize = 1;
  qcap = 1;
  qlen = 1;
  closed = false;
  sendq = record { first = some 7; last = 7 };
  recvq = record { first = none; last = 0 };
  sendx = 0;
  recvx = 0;
  buf = λ i. 10 ∷ [];
  threads = record fresh { elemptr = λ t. true; elem = λ t. 11 ∷ [] };
}

full-Inv : Inv full (7 ∷ []) []
full-Inv = record {
  opened = refl;
  indices = record { cap = omega arith; len = omega arith; low = λ h. h; behind = λ h. refl };
  sending = record { chain = (refl, refl); last = refl; distinct = (tt, tt) };
  receiving = record { chain = refl; last = tt; distinct = tt };
  send_offers = (refl, tt);
  recv_offers = tt;
  full = inr refl;
  hungry = inl refl;
  idle = λ t a b. refl;
}

-- A channel without a buffer, with the receiver 5 parked.
abbrev hungry : Channel
hungry = record full {
  qcap = 0;
  qlen = 0;
  sendq = record { first = none; last = 0 };
  recvq = record { first = some 5; last = 5 };
}

hungry-Inv : Inv hungry [] (5 ∷ [])
hungry-Inv = record {
  opened = refl;
  indices = record {
    cap = omega arith;
    len = omega arith;
    low = λ h. h;
    behind = λ h. absurd (omega arith);
  };
  sending = record { chain = refl; last = tt; distinct = tt };
  receiving = record { chain = (refl, refl); last = refl; distinct = (tt, tt) };
  send_offers = tt;
  recv_offers = (refl, tt);
  full = inl refl;
  hungry = inr (refl, refl);
  idle = λ t a b. refl;
}

recv_lem_example : Received true full 9 (7 ∷ []) [] ((10 ∷ []) ∷ (11 ∷ []) ∷ []) (recv true full 9)
recv_lem_example = recv_lem true full 9 (7 ∷ []) [] full-Inv (ground arith, tt) tt

send_lem_example : Sent true false hungry 9 [] (5 ∷ []) (send true hungry 9)
send_lem_example = send_lem true hungry 9 [] (5 ∷ []) hungry-Inv tt (ground arith, tt)

close_lem_example :
    (c' : Channel) × (close 1 full ≡ ret c')
    × (c'.closed ≡ true)
    × (window c' ≡ window full)
    × Woken full.threads (7 ∷ []) c'.threads
    × (close 1 c' ≡ panic)
close_lem_example = close_lem 1 full (7 ∷ []) [] full-Inv (omega arith)

-- Thread 1 waits for a message, 2 sends two, 3 and 4 have to wait, and 1 and 5 receive.
abbrev calls : List Call
calls =
    receiving true 1
    ∷ sending true 2 (10 ∷ [])
    ∷ sending true 2 (11 ∷ [])
    ∷ sending true 3 (12 ∷ [])
    ∷ sending true 4 (13 ∷ [])
    ∷ sending false 2 (14 ∷ [])
    ∷ receiving false 1
    ∷ receiving false 5
    ∷ []

run_lem_example :
    (s : System) × (run (opened 1 1 fresh) calls ≡ ret s)
    × (s.sent ≡ s.got ++ pending s.chan s.sends)
    × Inv s.chan s.sends s.recvs
run_lem_example = run_lem 1 1 fresh calls (omega arith) (λ t. refl) (λ t. refl)

abbrev messages : Outcome System → List Bytes × List Bytes × List ℕ
messages (ret s) = (s.got, pending s.chan s.sends, s.sends)
messages panic = ([], [], [])
messages fault = ([], [], [])

calls_test :
    messages (run (opened 1 1 fresh) calls)
    ≡ ((10 ∷ []) ∷ (11 ∷ []) ∷ (12 ∷ []) ∷ [], (13 ∷ []) ∷ [], [])
unfolding opened run step resumed after_send after_recv resume_recv send recv send_locked
    recv_locked chan_full chan_empty wq_enqueue wq_dequeue park_send park_recv send_direct
    recv_direct enqueue dequeue open_chan
calls_test = refl

-- A receiver that a `ChanClose` has woken before clears the message that it was parked for, and answers
-- `false`: the message is lost.
abbrev woken_before : Threads
woken_before = record fresh { closed = λ t. t == 1 }

lost_test :
    messages (run (opened 1 1 woken_before) (receiving true 1 ∷ sending true 2 (10 ∷ []) ∷ []))
    ≡ ([], [], [])
unfolding opened run step resumed after_send after_recv resume_recv send recv send_locked
    recv_locked chan_full chan_empty wq_enqueue wq_dequeue park_send park_recv send_direct
    recv_direct enqueue dequeue open_chan
lost_test = refl

-- `full` without its sender.
abbrev loaded : Channel
loaded = record full { sendq = record { first = none; last = 0 }; threads = fresh }

loaded-Inv : Inv loaded [] []
loaded-Inv = record {
  opened = refl;
  indices = record { cap = omega arith; len = omega arith; low = λ h. h; behind = λ h. refl };
  sending = record { chain = refl; last = tt; distinct = tt };
  receiving = record { chain = refl; last = tt; distinct = tt };
  send_offers = tt;
  recv_offers = tt;
  full = inl refl;
  hungry = inl refl;
  idle = λ t a b. refl;
}

close-drain_example :
    (c' : Channel) × (end : Channel) × (close 0 loaded ≡ ret c')
    × (drain 2 c' 1 ≡ ret ((10 ∷ []) ∷ [], end))
    × (send true c' 2 ≡ panic)
    × (send false c' 2 ≡ ret (was_closed, c'))
    × (send true end 2 ≡ panic)
    × (send false end 2 ≡ ret (was_closed, end))
close-drain_example = close-drain 0 loaded [] 1 2 loaded-Inv (omega arith)

-- The sender 7 is woken by `ChanClose` and gives its message up, but it is still parked: a receiver that
-- takes the message of the buffer puts the one of 7 there.
abbrev taken : Outcome (List Bytes × Channel) → List Bytes
taken (ret r) = r.0
taken panic = []
taken fault = []

parked_sender_test : taken (close 1 full >>= λ c. drain 3 c 9) ≡ (10 ∷ []) ∷ (11 ∷ []) ∷ []
unfolding close wake_all drain recv recv_locked wq_dequeue recv_direct dequeue
parked_sender_test = refl

-- Four messages of eight bytes in a channel whose last line begins at 128.
open_memory_test : open_memory 128 (λ n. 4104) 8 4 ≡ ret (4104, 4160)
unfolding open_memory open_size
open_memory_test = refl

open_memory_lem_example :
    (memsize : ℕ) × (c : ℕ) × (open_size 128 8 4 ≡ ret memsize)
    × (open_memory 128 (λ n. 4104) 8 4 ≡ ret (4104, c))
    × (c % line ≡ 0)
    × (4104 ≤ c)
    × (c + sizeof_chan 128 ≤ 4104 + memsize)
    × (chan_bufptr 128 8 c 2 ≡ c + buf_offset 128 + 2 * 8)
    × (chan_bufptr 128 8 c 2 ≤ 4104 + memsize)
open_memory_lem_example =
    open_memory_lem 128 (λ n. 4104) 8 4 2 refl (omega arith) (λ n h. (omega arith, omega arith))
      (omega arith)
