-- ===== src/Chan/Recv.antt =====
-- pkg/rbase/chan.c: `chan_recv` takes the oldest message.
use ckit.Base.{
  ℕ, ◌<◌, ◌≡◌, refl, sym, subst, ap, ap₂, ◌∙◌, Bool, true, false, List, [], ◌∷◌, ◌++◌, map, Bytes,
  append_assoc, append-nil, Outcome, ret, inl, inr, arith,
}
use native.Mathlib.Decide.{ℕ_discrete}
use ckit.Base.Links.{Absent, Absent-init, update}
use ckit.Chan.{
  Channel, Reply, done, refused, parked, signal, wq_dequeue, recv_direct, recv, dequeue, park_recv,
}
use ckit.Chan.WaitQ.{wq_dequeue-Waiting, wq_enqueue-Waiting, wq_enqueue-other}
use ckit.Chan.Ring.{
  window, window-empty, rest, rotate, window-rest, dequeue-window, dequeue-Indices, rotate-window,
  rotate-Indices,
}
use ckit.Chan.RecvCalls.{
  unqueued, recv-locked, recv-refused, chan_empty-sender, recv_locked-sender, recv_locked-buffer,
  recv_locked-park, chan_empty-buffer, chan_empty-none, recv_direct-empty, recv_direct-full,
}
use ckit.Chan.Inv.{Offers-snoc, handed-Inv, Inv, pending, map-update, Woke, tail_of, idle-dequeue}

-- What `chan_recv` does on an open channel, by the messages that it holds. The oldest one is received,
-- the rest stays, and a sender is woken when its message moves. Without a message a blocking call
-- parks behind the other receivers, and another call changes nothing.
unfoldable pub Received :
    Bool → Channel → ℕ → List ℕ → List ℕ → List Bytes → Outcome (Reply × Channel) → Type 0
Received block c me sends recvs (m ∷ ms) o =
    (c' : Channel) × (o ≡ ret (done, c'))
    × (c'.threads.elem ≡ update c.threads.elem me m)
    × (pending c' (tail_of sends) ≡ ms)
    × Woke c.threads c'.threads sends
    × Inv c' (tail_of sends) recvs
Received true c me sends recvs [] o =
    (c' : Channel) × (o ≡ ret (parked, c'))
    × (c'.threads.elem ≡ c.threads.elem)
    × (pending c' sends ≡ [])
    × Inv c' sends (recvs ++ me ∷ [])
Received false c me sends recvs [] o = o ≡ ret (refused, c)

received :
    (block : Bool) (c : Channel) (me : ℕ) (sends recvs : List ℕ) (m : Bytes) (ms : List Bytes)
    (c' : Channel)
    → pending c sends ≡ m ∷ ms
    → recv block c me ≡ ret (done, c')
    → c'.threads.elem ≡ update c.threads.elem me m
    → pending c' (tail_of sends) ≡ ms
    → Woke c.threads c'.threads sends
    → Inv c' (tail_of sends) recvs
    → Received block c me sends recvs (pending c sends) (recv block c me)
unfolding Received
received block c me sends recvs m ms c' holds call elem left woke inv =
    subst (λ l. Received block c me sends recvs l (recv block c me)) (sym holds)
      (c', call, elem, left, woke, inv)

module _ (c : Channel) (t : ℕ) (ts : List ℕ) (v : Inv c (t ∷ ts) []) where
  sender-full : c.qlen ≡ c.qcap
  sender-full = ground (arith, v.full)

  -- The parts of the invariant that hold however the message moves.
  unqueued-Inv : Inv (unqueued c t) ts []
  unfolding wq_dequeue
  unqueued-Inv = record {
    opened = v.opened;
    indices = record {
      cap = v.indices.cap;
      len = v.indices.len;
      low = v.indices.low;
      behind = v.indices.behind;
    };
    sending = wq_dequeue-Waiting c.sendq c.threads.next t ts v.sending;
    receiving = record { chain = v.receiving.chain; last = tt; distinct = tt };
    send_offers = v.send_offers.1;
    recv_offers = tt;
    full = inr sender-full;
    hungry = inl refl;
    idle = λ u a o. idle-dequeue c.threads.next t ts [] v.idle u a o;
  }

  rotated-Inv : 0 < c.qlen → Inv (rotate (unqueued c t) (c.threads.elem t)) ts []
  rotated-Inv more =
      let v1 = unqueued-Inv in
      let turned = rotate-Indices c (c.threads.elem t) v.indices more sender-full in
      record {
        opened = v.opened;
        indices = record {
          cap = turned.cap;
          len = turned.len;
          low = turned.low;
          behind = turned.behind;
        };
        sending = v1.sending;
        receiving = v1.receiving;
        send_offers = v1.send_offers;
        recv_offers = tt;
        full = inr sender-full;
        hungry = inl refl;
        idle = v1.idle;
      }

  recv-sender : (block : Bool) (me : ℕ) → recv block c me ≡ recv_direct (unqueued c t) me t
  recv-sender block me =
      recv-locked block c me v.opened (inr (chan_empty-sender c v.sending.chain.0 sender-full))
      ∙ recv_locked-sender block c me v.sending.chain.0

  Received-unbuffered :
      (block : Bool) (me : ℕ)
      → Absent me (t ∷ ts)
      → c.qlen ≡ 0
      → Received block c me (t ∷ ts) [] (pending c (t ∷ ts)) (recv block c me)
  Received-unbuffered block me a none_left =
      let th = c.threads in
      let nothing = window-empty c none_left in
      received block c me (t ∷ ts) [] (th.elem t) (map th.elem ts)
        (record (unqueued c t) {
          threads =
              signal (record (unqueued c t).threads { elem = update th.elem me (th.elem t) }) t;
        })
        (ap (λ w. w ++ map th.elem (t ∷ ts)) nothing)
        (recv-sender block me ∙ recv_direct-empty (unqueued c t) me t v.send_offers.0 none_left)
        refl (ap₂ (λ w xs. w ++ xs) nothing (map-update th.elem me (th.elem t) ts a.1)) refl
        (handed-Inv (unqueued c t) (update th.elem me (th.elem t)) t ts [] unqueued-Inv)

  Received-buffered :
      (block : Bool) (me : ℕ)
      → Absent me (t ∷ ts)
      → 0 < c.qlen
      → Received block c me (t ∷ ts) [] (pending c (t ∷ ts)) (recv block c me)
  Received-buffered block me a more =
      let th = c.threads in
      received block c me (t ∷ ts) [] (c.buf c.recvx) (rest c ++ map th.elem (t ∷ ts))
        (record (rotate (unqueued c t) (th.elem t)) {
          threads =
              signal (record (unqueued c t).threads { elem = update th.elem me (c.buf c.recvx) }) t;
        })
        (ap (λ w. w ++ map th.elem (t ∷ ts)) (window-rest c v.indices more))
        (recv-sender block me ∙ recv_direct-full (unqueued c t) me t v.send_offers.0 more) refl
        (ap₂ (λ w xs. w ++ xs) (rotate-window c (th.elem t) v.indices more sender-full)
            (map-update th.elem me (c.buf c.recvx) ts a.1)
          ∙ append_assoc (rest c) (th.elem t ∷ []) (map th.elem ts))
        refl
        (handed-Inv (rotate (unqueued c t) (th.elem t)) (update th.elem me (c.buf c.recvx)) t ts []
          (rotated-Inv more))

Received-queued :
    (block : Bool) (c : Channel) (me : ℕ) (recvs : List ℕ)
    → Inv c [] recvs
    → 0 < c.qlen
    → Received block c me [] recvs (pending c []) (recv block c me)
unfolding dequeue
Received-queued block c me recvs v more =
    let taken = dequeue-Indices c me v.indices more in
    received block c me [] recvs (c.buf c.recvx) (rest c) (dequeue c me)
      (append-nil (window c) ∙ window-rest c v.indices more)
      (recv-locked block c me v.opened (inr (chan_empty-buffer c v.indices.len more))
        ∙ recv_locked-buffer block c me v.sending.chain more)
      refl (append-nil (window (dequeue c me)) ∙ dequeue-window c me v.indices more) refl
      (record {
        opened = v.opened;
        indices = taken;
        sending = v.sending;
        receiving = v.receiving;
        send_offers = tt;
        recv_offers = v.recv_offers;
        full = inl refl;
        hungry = inl (ground (arith, v.hungry, more));
        idle = v.idle;
      })

park_recv-Inv :
    (c : Channel) (me : ℕ) (recvs : List ℕ)
    → Inv c [] recvs
    → Absent me recvs
    → c.qlen ≡ 0
    → Inv (park_recv c me) [] (recvs ++ me ∷ [])
unfolding park_recv
park_recv-Inv c me recvs v a none_left =
    let next = c.threads.next in
    record {
      opened = v.opened;
      indices = record {
        cap = v.indices.cap;
        len = v.indices.len;
        low = v.indices.low;
        behind = v.indices.behind;
      };
      sending = record { chain = v.sending.chain; last = tt; distinct = tt };
      receiving = wq_enqueue-Waiting c.recvq next me recvs v.receiving a (v.idle me tt a);
      send_offers = tt;
      recv_offers = Offers-snoc c.threads.elemptr me recvs a v.recv_offers;
      full = inl refl;
      hungry = inr (none_left, refl);
      idle = λ u _ b.
          let out = Absent-init u me recvs b in
          wq_enqueue-other c.recvq next me u recvs v.receiving out ∙ v.idle u tt out;
    }

Received-waits :
    (block : Bool) (c : Channel) (me : ℕ) (recvs : List ℕ)
    → Inv c [] recvs
    → Absent me recvs
    → c.qlen ≡ 0
    → Received block c me [] recvs [] (recv block c me)
unfolding Received park_recv
Received-waits true c me recvs v a none_left = (
  park_recv c me,
  recv-locked true c me v.opened (inl refl)
      ∙ recv_locked-park c me v.sending.chain none_left v.opened,
  refl,
  append-nil (window c) ∙ window-empty c none_left,
  park_recv-Inv c me recvs v a none_left,
)
Received-waits false c me recvs v a none_left =
    recv-refused c me v.opened (chan_empty-none c v.sending.chain none_left)

-- `chan_recv`, by a thread that is not parked, on an open channel that keeps the invariant. If messages
-- are held, the call returns the oldest one; the others stay in their order, and if a sender is
-- parked, the one that waits longest is signalled, once, and leaves the queue. If none is held, a
-- blocking call parks the thread behind the other receivers, and another changes nothing. The
-- invariant holds again.
pub recv_lem :
    (block : Bool) (c : Channel) (me : ℕ) (sends recvs : List ℕ)
    → Inv c sends recvs
    → Absent me sends
    → Absent me recvs
    → Received block c me sends recvs (pending c sends) (recv block c me)
recv_lem block c me (t ∷ ts) (r ∷ rs) v a b = absurd (ground (arith, v.hungry))
recv_lem block c me (t ∷ ts) [] v a b = elim (ℕ_discrete c.qlen 0) [
  | yes e ↦ Received-unbuffered c t ts v block me a e
  | no more ↦ Received-buffered c t ts v block me a (omega arith)
]
recv_lem block c me [] recvs v a b = elim (ℕ_discrete c.qlen 0) [
  | yes e ↦
      subst (λ l. Received block c me [] recvs l (recv block c me))
        (sym (append-nil (window c) ∙ window-empty c e)) (Received-waits block c me recvs v b e)
  | no more ↦ Received-queued block c me recvs v (omega arith)
]
