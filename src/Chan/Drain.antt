-- ===== src/Chan/Drain.antt =====
-- pkg/rbase/chan.c: what is received from a channel behind `ChanClose`.
use ckit.Base.{
  ℕ, zero, suc, ◌+◌, ◌≤◌, ◌<◌, ◌≡◌, refl, sym, ap, ap₂, subst, ◌∙◌, true, false, none, List, [],
  ◌∷◌, Bytes, length, Outcome, ret, panic, fault, ◌>>=◌, arith,
}
use ckit.Chan.{Channel, done, refused, was_closed, parked, send, recv, dequeue, clear, close}
use ckit.Chan.Ring.{Indices, window, window-empty, window-rest, dequeue-window, dequeue-Indices}
use ckit.Chan.RecvCalls.{recv_locked-buffer}
use ckit.Chan.Inv.{Inv}
use ckit.Chan.Close.{wake_all-Woken, none-wake_all}

-- A thread that calls `ChanRecv` until it answers false: the messages that it got, and the channel.
-- Fuel for its calls.
unfoldable pub drain : ℕ → Channel → ℕ → Outcome (List Bytes × Channel)
drain zero c me = fault
drain (suc fuel) c me = recv true c me >>= λ r. elim r.0 [
  | done ↦ (drain fuel r.1 me >>= λ more. ret (r.1.threads.elem me ∷ more.0, more.1))
  | was_closed ↦ ret ([], r.1)
  | refused ↦ fault
  | parked ↦ fault
]

-- A closed channel in which no sender is parked.
record Shut (c : Channel) : Type 0 where
  closed : c.closed ≡ true
  senders : c.sendq.first ≡ none
  indices : Indices c

recv-dequeue :
    (c : Channel) (me : ℕ) → Shut c → 0 < c.qlen → recv true c me ≡ ret (done, dequeue c me)
unfolding recv
recv-dequeue c me v more =
    ground (arith, v.closed, more, recv_locked-buffer true c me v.senders more)

recv-was_closed :
    (c : Channel) (me : ℕ)
    → Shut c
    → c.qlen ≡ 0
    → (c' : Channel) × (recv true c me ≡ ret (was_closed, c')) × (c'.closed ≡ true)
unfolding recv
recv-was_closed c me v e = (clear c me, ground (arith, v.closed, e), v.closed)

dequeue-Shut : (c : Channel) (me : ℕ) → Shut c → 0 < c.qlen → Shut (dequeue c me)
unfolding dequeue
dequeue-Shut c me v more = record {
  closed = v.closed;
  senders = v.senders;
  indices = dequeue-Indices c me v.indices more;
}

dequeue-elem : (c : Channel) (me : ℕ) → (dequeue c me).threads.elem me ≡ c.buf c.recvx
unfolding dequeue
dequeue-elem c me = ground arith

drain-done :
    (fuel : ℕ) (c d c' : Channel) (me : ℕ) (ms : List Bytes)
    → recv true c me ≡ ret (done, d)
    → drain fuel d me ≡ ret (ms, c')
    → drain (suc fuel) c me ≡ ret (d.threads.elem me ∷ ms, c')
unfolding drain
drain-done fuel c d c' me ms call more = rw (call, more) refl

drain-end :
    (fuel : ℕ) (c d : Channel) (me : ℕ)
    → recv true c me ≡ ret (was_closed, d)
    → drain (suc fuel) c me ≡ ret ([], d)
unfolding drain
drain-end fuel c d me call = rw (call) refl

drained :
    (n : ℕ) (c : Channel) (me : ℕ)
    → Shut c
    → c.qlen ≡ n
    → (c' : Channel) × (drain (suc n) c me ≡ ret (window c, c')) × (c'.closed ≡ true)
drained zero c me v e =
    let (c', call, shut) = recv-was_closed c me v e in
    (c', drain-end zero c c' me call ∙ ap (λ l. ret (l, c')) (sym (window-empty c e)), shut)
drained (suc n) c me v e =
    let more : 0 < c.qlen = omega arith in
    let d = dequeue c me in
    let len : d.qlen ≡ n = unfold dequeue in omega (arith, v.indices.cap, v.indices.len) in
    let (c', call, shut) = drained n d me (dequeue-Shut c me v more) len in
    let all : d.threads.elem me ∷ window d ≡ window c =
      ap₂ (λ x xs. x ∷ xs) (dequeue-elem c me) (dequeue-window c me v.indices more)
      ∙ sym (window-rest c v.indices more) in
    (
      c',
      drain-done (suc n) c d c' me (window d) (recv-dequeue c me v more) call
          ∙ ap (λ l. ret (l, c')) all,
      shut,
    )

-- `ChanClose` of an open channel that keeps the invariant and in which no sender is parked returns, and
-- then a thread that calls `ChanRecv` again and again gets exactly the messages that were in the buffer,
-- in their order, and then false. `ChanSend` panics behind `ChanClose`, and `ChanTrySend` answers that
-- the channel is closed, before and after.
pub close-drain :
    (fuel : ℕ) (c : Channel) (recvs : List ℕ) (me you : ℕ)
    → Inv c [] recvs
    → length recvs ≤ fuel
    → (c' : Channel) × (end : Channel) × (close fuel c ≡ ret c')
      × (drain (c.qlen + 1) c' me ≡ ret (window c, end))
      × (send true c' you ≡ panic)
      × (send false c' you ≡ ret (was_closed, c'))
      × (send true end you ≡ panic)
      × (send false end you ≡ ret (was_closed, end))
unfolding close send
close-drain fuel c recvs me you v enough =
    let (th', run, w) =
      wake_all-Woken fuel c.threads c.recvq.first recvs v.receiving.chain v.receiving.distinct
        enough in
    let c' = record c { closed = true; threads = th' } in
    let shut : Shut c' = record {
      closed = refl;
      senders = v.sending.chain;
      indices = record {
        cap = v.indices.cap;
        len = v.indices.len;
        low = v.indices.low;
        behind = v.indices.behind;
      };
    } in
    let one : suc c.qlen ≡ c.qlen + 1 = omega arith in
    let (end, got, still) = drained c.qlen c' me shut refl in
    (
      c',
      end,
      rw (v.opened, run, none-wake_all fuel th' v.sending.chain) refl,
      subst (λ k. drain k c' me ≡ ret (window c, end)) one got,
      refl,
      refl,
      ground (arith, still),
      ground (arith, still),
    )
