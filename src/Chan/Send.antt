-- ===== src/Chan/Send.antt =====
-- pkg/rbase/chan.c: `chan_send` adds a message behind all others, or hands it to a receiver.
use native.Mathlib.Decide.{ℕ_discrete}
use ckit.Base.{
  ℕ, ◌+◌, ◌<◌, ◌≡◌, refl, sym, subst, ap, ◌∙◌, Bool, true, false, List, [], ◌∷◌, ◌++◌, map, Bytes,
  append_assoc, append-nil, ltb, Outcome, ret, inl, inr, arith,
}
use ckit.Base.Links.{Absent, Absent-init, update}
use ckit.Chan.{Channel, Reply, done, refused, parked, wq_dequeue, send, enqueue, park_send}
use ckit.Chan.WaitQ.{wq_dequeue-Waiting, wq_enqueue-Waiting, wq_enqueue-other}
use ckit.Chan.Ring.{window, window-empty, enqueue-window, enqueue-Indices}
use ckit.Chan.SendCalls.{
  unqueued, send-locked, send-refused, chan_full-receiver, chan_full-room, chan_full-none,
  send_locked-receiver, send_locked-buffer, send_locked-park, handed, send_direct-offered,
}
use ckit.Chan.Inv.{Inv, pending, Offers-update, Offers-snoc, idle-dequeue}

-- What `chan_send` does on an open channel, by whether the buffer has room and who waits to receive.
-- The first receiver gets the message and is woken. Otherwise the message goes behind all others,
-- in the buffer or with a parked sender, where a call that does not block changes nothing.
unfoldable pub Sent :
    Bool → Bool → Channel → ℕ → List ℕ → List ℕ → Outcome (Reply × Channel) → Type 0
Sent block room c me sends (t ∷ ts) o =
    (c' : Channel) × (o ≡ ret (done, c'))
    × (c'.threads.elem ≡ update c.threads.elem t (c.threads.elem me))
    × (c'.threads.sema ≡ update c.threads.sema t (c.threads.sema t + 1))
    × (pending c sends ≡ [])
    × (pending c' sends ≡ [])
    × Inv c' sends ts
Sent block true c me sends [] o =
    (c' : Channel) × (o ≡ ret (done, c'))
    × (c'.threads ≡ c.threads)
    × (pending c' sends ≡ pending c sends ++ c.threads.elem me ∷ [])
    × Inv c' sends []
Sent true false c me sends [] o =
    (c' : Channel) × (o ≡ ret (parked, c'))
    × (c'.threads.elem ≡ c.threads.elem)
    × (pending c' (sends ++ me ∷ []) ≡ pending c sends ++ c.threads.elem me ∷ [])
    × Inv c' (sends ++ me ∷ []) []
Sent false false c me sends [] o = o ≡ ret (refused, c)

Sent-handed :
    (block room : Bool) (c : Channel) (me t : ℕ) (ts : List ℕ)
    → Inv c [] (t ∷ ts)
    → Sent block room c me [] (t ∷ ts) (send block c me)
unfolding Sent wq_dequeue
Sent-handed block room c me t ts v =
    let empty : c.qlen ≡ 0 = ground (arith, v.hungry) in
    (
      handed (unqueued c t) me t,
      send-locked block c me v.opened (inr (chan_full-receiver c v.receiving.chain.0 empty))
          ∙ send_locked-receiver block c me v.receiving.chain.0
          ∙ send_direct-offered (unqueued c t) me t v.recv_offers.0,
      refl,
      refl,
      append-nil (window c) ∙ window-empty c empty,
      append-nil (window c) ∙ window-empty c empty,
      record {
        opened = v.opened;
        indices = record {
          cap = v.indices.cap;
          len = v.indices.len;
          low = v.indices.low;
          behind = v.indices.behind;
        };
        sending = record { chain = v.sending.chain; last = tt; distinct = tt };
        receiving = wq_dequeue-Waiting c.recvq c.threads.next t ts v.receiving;
        send_offers = tt;
        recv_offers =
            Offers-update c.threads.elemptr t false ts v.receiving.distinct.0 v.recv_offers.1;
        full = inl refl;
        hungry = inr (empty, refl);
        idle = λ u a b. idle-dequeue c.threads.next t ts [] (λ w p q. v.idle w q p) u b a;
      },
    )

Sent-buffered :
    (block : Bool) (c : Channel) (me : ℕ)
    → Inv c [] []
    → c.qlen < c.qcap
    → Sent block true c me [] [] (send block c me)
unfolding Sent enqueue
Sent-buffered block c me v room = (
  enqueue c me,
  send-locked block c me v.opened (inr (chan_full-room c room))
      ∙ send_locked-buffer block c me v.receiving.chain room,
  refl,
  append-nil (window (enqueue c me))
      ∙ enqueue-window c me v.indices room
      ∙ ap (λ w. w ++ c.threads.elem me ∷ []) (sym (append-nil (window c))),
  record {
    opened = v.opened;
    indices = enqueue-Indices c me v.indices room;
    sending = v.sending;
    receiving = v.receiving;
    send_offers = tt;
    recv_offers = tt;
    full = inl refl;
    hungry = inl refl;
    idle = v.idle;
  },
)

map-snoc : (f : ℕ → Bytes) (xs : List ℕ) (x : ℕ) → map f (xs ++ x ∷ []) ≡ map f xs ++ f x ∷ []
map-snoc f [] x = refl
map-snoc f (y ∷ ys) x = ap (λ r. f y ∷ r) (map-snoc f ys x)

park_send-Inv :
    (c : Channel) (me : ℕ) (sends : List ℕ)
    → Inv c sends []
    → Absent me sends
    → c.qlen ≡ c.qcap
    → Inv (park_send c me) (sends ++ me ∷ []) []
unfolding park_send
park_send-Inv c me sends v a full =
    let next = c.threads.next in
    record {
      opened = v.opened;
      indices = record {
        cap = v.indices.cap;
        len = v.indices.len;
        low = v.indices.low;
        behind = v.indices.behind;
      };
      sending = wq_enqueue-Waiting c.sendq next me sends v.sending a (v.idle me a tt);
      receiving = record { chain = v.receiving.chain; last = tt; distinct = tt };
      send_offers = Offers-snoc c.threads.elemptr me sends a v.send_offers;
      recv_offers = tt;
      full = inr full;
      hungry = inl refl;
      idle = λ u b _.
          let out = Absent-init u me sends b in
          wq_enqueue-other c.sendq next me u sends v.sending out ∙ v.idle u out tt;
    }

Sent-full :
    (block : Bool) (c : Channel) (me : ℕ) (sends : List ℕ)
    → Inv c sends []
    → Absent me sends
    → c.qlen ≡ c.qcap
    → Sent block false c me sends [] (send block c me)
unfolding Sent park_send
Sent-full true c me sends v a full = (
  park_send c me,
  send-locked true c me v.opened (inl refl) ∙ send_locked-park c me v.receiving.chain full,
  refl,
  ap (λ xs. window c ++ xs) (map-snoc c.threads.elem sends me)
      ∙ sym (append_assoc (window c) (map c.threads.elem sends) (c.threads.elem me ∷ [])),
  park_send-Inv c me sends v a full,
)
Sent-full false c me sends v a full =
    send-refused c me v.opened (chan_full-none c v.receiving.chain full)

-- `chan_send`, by a thread that is not parked, on an open channel that keeps the invariant. If
-- receivers are parked, none of the messages is left over, and the one that waits longest gets the message, is
-- signalled, once, and leaves the queue. Otherwise, if the buffer has room, the message goes into it, behind all that
-- are held. If not, a blocking call parks the thread behind the other senders, its message behind all that are held,
-- and another call changes nothing. The invariant holds again.
pub send_lem :
    (block : Bool) (c : Channel) (me : ℕ) (sends recvs : List ℕ)
    → Inv c sends recvs
    → Absent me sends
    → Absent me recvs
    → Sent block (ltb c.qlen c.qcap) c me sends recvs (send block c me)
send_lem block c me (s ∷ ss) (t ∷ ts) v a b = absurd (ground (arith, v.hungry))
send_lem block c me [] (t ∷ ts) v a b = Sent-handed block (ltb c.qlen c.qcap) c me t ts v
send_lem block c me (s ∷ ss) [] v a b =
    let full : c.qlen ≡ c.qcap = ground (arith, v.full) in
    subst (λ r. Sent block r c me (s ∷ ss) [] (send block c me)) (ground (arith, full))
      (Sent-full block c me (s ∷ ss) v a full)
send_lem block c me [] [] v a b = elim (ℕ_discrete c.qlen c.qcap) [
  | yes full ↦
      subst (λ r. Sent block r c me [] [] (send block c me)) (ground (arith, full))
        (Sent-full block c me [] v tt full)
  | no room ↦
      subst (λ r. Sent block r c me [] [] (send block c me)) (ground (arith, room, v.indices.len))
        (Sent-buffered block c me v (omega (arith, v.indices.len)))
]
