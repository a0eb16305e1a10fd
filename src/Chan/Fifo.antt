-- ===== src/Chan/Fifo.antt =====
-- pkg/rbase/chan.c: a channel is a queue, over any sequence of calls.
use ckit.Base.{
  ℕ, ◌^◌, ◌<◌, ◌≡◌, refl, sym, ap, ap₂, ◌∙◌, Bool, true, false, ◌||◌, List, [], ◌∷◌, ◌++◌, Bytes,
  append_assoc, append-nil, none, ltb, Outcome, ret, ◌>>=◌, inl, inr, arith, Bool-cases,
}
use ckit.Base.Links.{Absent}
use ckit.Chan.{
  Channel, Threads, Reply, done, parked, send, recv, open_chan, resume_recv, send_locked,
  send_direct, enqueue, park_send, wq_enqueue, wq_dequeue, recv_locked, recv_direct, dequeue,
  park_recv,
}
use ckit.Chan.Ring.{window}
use ckit.Chan.Inv.{Inv, pending, map-update, tail_of}
use ckit.Chan.Runs.{
  System, Call, resumed, sending, receiving, set_elem, after_send, after_recv, listed, step, run,
  opened,
}
use ckit.Chan.Send.{Sent, send_lem}
use ckit.Chan.Recv.{Received, recv_lem}

-- What was sent is what was received, in this order, and then what the channel holds.
pub record InOrder (s : System) : Type 0 where
  pub inv : Inv s.chan s.sends s.recvs
  pub order : s.sent ≡ s.got ++ pending s.chan s.sends
  pub awake : (t : ℕ) → s.chan.threads.closed t ≡ false

-- No call of `chan_send` or `chan_recv` stores into the field `closed` of a thread.
send-closed :
    (block : Bool) (c : Channel) (me : ℕ) (r : Reply) (c' : Channel)
    → send block c me ≡ ret (r, c')
    → c'.threads.closed ≡ c.threads.closed
unfolding send send_locked send_direct enqueue park_send wq_enqueue wq_dequeue
send-closed block c me r c' e = ground (arith, e)

recv-closed :
    (block : Bool) (c : Channel) (me : ℕ) (r : Reply) (c' : Channel)
    → recv block c me ≡ ret (r, c')
    → c'.threads.closed ≡ c.threads.closed
unfolding recv recv_locked recv_direct dequeue park_recv wq_enqueue wq_dequeue
recv-closed block c me r c' e = ground (arith, e)

listed-Absent : (t : ℕ) (ids : List ℕ) → listed t ids ≡ false → Absent t ids
listed-Absent t [] e = tt
listed-Absent t (u ∷ us) e = (ground (arith, e), listed-Absent t us (ground (arith, e)))

set_elem-Inv :
    (c : Channel) (me : ℕ) (m : Bytes) (sends recvs : List ℕ)
    → Inv c sends recvs
    → Inv (set_elem c me m) sends recvs
set_elem-Inv c me m sends recvs v = record {
  opened = v.opened;
  indices = record {
    cap = v.indices.cap;
    len = v.indices.len;
    low = v.indices.low;
    behind = v.indices.behind;
  };
  sending = v.sending;
  receiving = v.receiving;
  send_offers = v.send_offers;
  recv_offers = v.recv_offers;
  full = v.full;
  hungry = v.hungry;
  idle = v.idle;
}

snoc-order :
    (sent got held : List Bytes) (m : Bytes) {m' : Bytes} {held' : List Bytes}
    → m' ≡ m
    → sent ≡ got ++ held
    → held' ≡ held ++ m' ∷ []
    → sent ++ m ∷ [] ≡ got ++ held'
snoc-order sent got held m e order after =
    ap (λ w. w ++ m ∷ []) order
    ∙ append_assoc got held (m ∷ [])
    ∙ ap (λ x. got ++ (held ++ x ∷ [])) (sym e)
    ∙ ap (λ w. got ++ w) (sym after)

Sent-InOrder :
    (block room : Bool) (c c0 : Channel) (sends recvs : List ℕ) (sent got : List Bytes) (me : ℕ)
    (m : Bytes) (o : Outcome (Reply × Channel))
    → c0.threads.elem me ≡ m
    → Inv c0 sends recvs
    → ((t : ℕ) → c0.threads.closed t ≡ false)
    → ((r : Reply) (c' : Channel) → o ≡ ret (r, c') → (t : ℕ) → c'.threads.closed t ≡ false)
    → sent ≡ got ++ pending c0 sends
    → Sent block room c0 me sends recvs o
    → let s : System = record { chan = c; sends = sends; recvs = recvs; sent = sent; got = got } in
      (s' : System) × ((o >>= λ r. ret (after_send s me m r)) ≡ ret s') × InOrder s'
unfolding Sent after_send resumed resume_recv
Sent-InOrder block room c c0 sends (t ∷ ts) sent got me m o e v quiet still order
      (c', call, elem, sema, before, after, inv) =
    (
      record {
        chan = c';
        sends = sends;
        recvs = ts;
        sent = sent ++ m ∷ [];
        got = got ++ c'.threads.elem t ∷ [];
      },
      rw (call) (rw (still done c' call t) refl),
      record {
        inv = inv;
        awake = still done c' call;
        order =
            let all : sent ≡ got = order ∙ ap (λ w. got ++ w) before ∙ append-nil got in
            let last : c'.threads.elem t ≡ m = rw (elem) (ground (arith, e)) in
            ap (λ w. w ++ m ∷ []) all
            ∙ ap (λ x. got ++ x ∷ []) (sym last)
            ∙ sym (append-nil (got ++ c'.threads.elem t ∷ []))
            ∙ ap (λ w. (got ++ c'.threads.elem t ∷ []) ++ w) (sym after);
      },
    )
Sent-InOrder block true c c0 sends [] sent got me m o e v quiet still order
      (c', call, same, after, inv) =
    (
      record { chan = c'; sends = sends; recvs = []; sent = sent ++ m ∷ []; got = got },
      rw (call) refl,
      record {
        inv = inv;
        awake = still done c' call;
        order = snoc-order sent got (pending c0 sends) m e order after;
      },
    )
Sent-InOrder true false c c0 sends [] sent got me m o e v quiet still order
      (c', call, elem, after, inv) =
    (
      record { chan = c'; sends = sends ++ me ∷ []; recvs = []; sent = sent ++ m ∷ []; got = got },
      rw (call) refl,
      record {
        inv = inv;
        awake = still parked c' call;
        order = snoc-order sent got (pending c0 sends) m e order after;
      },
    )
Sent-InOrder false false c c0 sends [] sent got me m o e v quiet still order call = (
  record { chan = c0; sends = sends; recvs = []; sent = sent; got = got },
  rw (call) refl,
  record { inv = v; awake = quiet; order = order },
)

Received-InOrder :
    (block : Bool) (c : Channel) (sends recvs : List ℕ) (sent got held : List Bytes) (me : ℕ)
    (o : Outcome (Reply × Channel))
    → Inv c sends recvs
    → ((t : ℕ) → c.threads.closed t ≡ false)
    → ((r : Reply) (c' : Channel) → o ≡ ret (r, c') → (t : ℕ) → c'.threads.closed t ≡ false)
    → pending c sends ≡ held
    → sent ≡ got ++ held
    → Received block c me sends recvs held o
    → let s : System = record { chan = c; sends = sends; recvs = recvs; sent = sent; got = got } in
      (s' : System) × ((o >>= λ r. ret (after_recv s me r)) ≡ ret s') × InOrder s'
unfolding Received after_recv
Received-InOrder block c sends recvs sent got (m ∷ ms) me o v quiet still is order
      (c', call, elem, left, woke, inv) =
    let last : c'.threads.elem me ≡ m = rw (elem) (ground arith) in
    (
      record {
        chan = c';
        sends = tail_of sends;
        recvs = recvs;
        sent = sent;
        got = got ++ c'.threads.elem me ∷ [];
      },
      rw (call) refl,
      record {
        inv = inv;
        awake = still done c' call;
        order =
            order
            ∙ sym (append_assoc got (m ∷ []) ms)
            ∙ ap₂ (λ x w. (got ++ x ∷ []) ++ w) (sym last) (sym left);
      },
    )
Received-InOrder true c sends recvs sent got [] me o v quiet still is order
      (c', call, elem, left, inv) =
    (
      record { chan = c'; sends = sends; recvs = recvs ++ me ∷ []; sent = sent; got = got },
      rw (call) refl,
      record {
        inv = inv;
        awake = still parked c' call;
        order = order ∙ ap (λ w. got ++ w) (sym left);
      },
    )
Received-InOrder false c sends recvs sent got [] me o v quiet still is order call = (
  record { chan = c; sends = sends; recvs = recvs; sent = sent; got = got },
  rw (call) refl,
  record { inv = v; awake = quiet; order = order ∙ ap (λ w. got ++ w) (sym is) },
)

-- One call keeps the order.
step-InOrder :
    (s : System) (k : Call) → InOrder s → (s' : System) × (step s k ≡ ret s') × InOrder s'
unfolding step
step-InOrder s (sending block me m) g = elim (Bool-cases (listed me s.sends || listed me s.recvs)) [
  | inl e ↦ (s, rw (e) refl, g)
  | inr e ↦
      let a = listed-Absent me s.sends (ground (arith, e)) in
      let b = listed-Absent me s.recvs (ground (arith, e)) in
      let c0 = set_elem s.chan me m in
      let inv = set_elem-Inv s.chan me m s.sends s.recvs g.inv in
      let (s', run, g') =
        Sent-InOrder block (ltb c0.qlen c0.qcap) s.chan c0 s.sends s.recvs s.sent s.got me m
          (send block c0 me) (ground arith) inv g.awake
          (λ r c' call t. ap (λ f. f t) (send-closed block c0 me r c' call) ∙ g.awake t)
          (g.order
            ∙ ap (λ w. s.got ++ (window s.chan ++ w))
                (sym (map-update s.chan.threads.elem me m s.sends a)))
          (send_lem block c0 me s.sends s.recvs inv a b) in
      (s', rw (e) run, g')
]
step-InOrder s (receiving block me) g = elim (Bool-cases (listed me s.sends || listed me s.recvs)) [
  | inl e ↦ (s, rw (e) refl, g)
  | inr e ↦
      let a = listed-Absent me s.sends (ground (arith, e)) in
      let b = listed-Absent me s.recvs (ground (arith, e)) in
      let (s', run, g') =
        Received-InOrder block s.chan s.sends s.recvs s.sent s.got (pending s.chan s.sends) me
          (recv block s.chan me) g.inv g.awake
          (λ r c' call t. ap (λ f. f t) (recv-closed block s.chan me r c' call) ∙ g.awake t) refl
          g.order (recv_lem block s.chan me s.sends s.recvs g.inv a b) in
      (s', rw (e) run, g')
]

run-InOrder :
    (s : System) (ks : List Call) → InOrder s → (s' : System) × (run s ks ≡ ret s') × InOrder s'
unfolding run
run-InOrder s [] g = (s, refl, g)
run-InOrder s (k ∷ ks) g =
    let (s1, one, g1) = step-InOrder s k g in
    let (s2, more, g2) = run-InOrder s1 ks g1 in (s2, rw (one) more, g2)

opened-InOrder :
    (elemsize bufcap : ℕ) (th : Threads)
    → bufcap < 2 ^ 32
    → ((t : ℕ) → th.next t ≡ none)
    → ((t : ℕ) → th.closed t ≡ false)
    → InOrder (opened elemsize bufcap th)
unfolding opened open_chan
opened-InOrder elemsize bufcap th small free quiet = record {
  awake = quiet;
  inv = record {
    opened = refl;
    indices = record { cap = small; len = omega arith; low = λ h. h; behind = λ h. ground arith };
    sending = record { chain = refl; last = tt; distinct = tt };
    receiving = record { chain = refl; last = tt; distinct = tt };
    send_offers = tt;
    recv_offers = tt;
    full = inl refl;
    hungry = inl refl;
    idle = λ t a b. free t;
  };
  order = refl;
}

-- On a channel that `ChanOpen` has made, with a capacity in `u32`, while no thread is linked to another
-- and none has been woken by a `ChanClose` before, which its field `closed` would still tell, any sequence of calls of `chan_send` and `chan_recv` by threads that are not parked returns: no
-- assertion fails. What was handed to receivers, in this order, and then the messages that the channel
-- holds are together exactly the messages that were sent, in their order: none is lost, doubled or
-- overtaken, also not by a receiver that goes on after it was parked. The invariant of the channel holds with the parked threads in the order in which they came.
pub run_lem :
    (elemsize bufcap : ℕ) (th : Threads) (ks : List Call)
    → bufcap < 2 ^ 32
    → ((t : ℕ) → th.next t ≡ none)
    → ((t : ℕ) → th.closed t ≡ false)
    → (s : System) × (run (opened elemsize bufcap th) ks ≡ ret s)
      × (s.sent ≡ s.got ++ pending s.chan s.sends)
      × Inv s.chan s.sends s.recvs
run_lem elemsize bufcap th ks small free quiet =
    let (s, ends, g) =
      run-InOrder (opened elemsize bufcap th) ks
        (opened-InOrder elemsize bufcap th small free quiet) in
    (s, ends, g.order, g.inv)
