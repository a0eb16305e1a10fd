-- ===== src/Chan/Inv.antt =====
-- The invariant of an open channel of pkg/rbase/chan.c, with the threads that are parked in it, and
-- the messages that it holds.
use native.Mathlib.Decide.{ℕ_discrete}
use ckit.Base.{
  ℕ, sym, Option, ◌≡◌, ◌⊎◌, Bool, true, false, List, [], ◌∷◌, ◌++◌, map, Bytes, none, ◌+◌, refl,
  ap₂, arith,
}
use ckit.Base.Links.{Absent, update}
use ckit.Chan.{Channel, Threads, signal}
use ckit.Chan.WaitQ.{Waiting}
use ckit.Chan.Ring.{Indices, window}

-- Each of these threads has published a pointer to its element.
abbrev pub Offers : (ℕ → Bool) → List ℕ → Type 0
Offers elemptr [] = Unit
Offers elemptr (t ∷ ts) = (elemptr t ≡ true) × Offers elemptr ts

pub Offers-update :
    (elemptr : ℕ → Bool) (i : ℕ) (v : Bool) (ids : List ℕ)
    → Absent i ids
    → Offers elemptr ids
    → Offers (update elemptr i v) ids
Offers-update elemptr i v [] a o = o
Offers-update elemptr i v (t ∷ ts) (n, a) (e, o) =
    (ground (arith, n), Offers-update elemptr i v ts a o)

-- The channel is open, `sends` are the threads parked in `chan_send` and `recvs` those in `chan_recv`,
-- in the order in which they came. Senders wait only for a full buffer, receivers only for an empty
-- one, never both, and every other thread is free to be linked.
pub record Inv (c : Channel) (sends recvs : List ℕ) : Type 0 where
  pub opened : c.closed ≡ false
  pub indices : Indices c
  pub sending : Waiting c.sendq c.threads.next sends
  pub receiving : Waiting c.recvq c.threads.next recvs
  pub send_offers : Offers c.threads.elemptr sends
  pub recv_offers : Offers c.threads.elemptr recvs
  pub full : (sends ≡ []) ⊎ (c.qlen ≡ c.qcap)
  pub hungry : (recvs ≡ []) ⊎ ((c.qlen ≡ 0) × (sends ≡ []))
  pub idle : (t : ℕ) → Absent t sends → Absent t recvs → c.threads.next t ≡ none

-- The messages sent and not yet received: those in the buffer, then those of the parked senders.
abbrev pub pending : Channel → List ℕ → List Bytes
pending c sends = window c ++ map c.threads.elem sends

pub map-update :
    (elem : ℕ → Bytes) (i : ℕ) (v : Bytes) (ids : List ℕ)
    → Absent i ids
    → map (update elem i v) ids ≡ map elem ids
map-update elem i v [] a = refl
map-update elem i v (t ∷ ts) (n, a) =
    ap₂ (λ x xs. x ∷ xs) (ground (arith, n)) (map-update elem i v ts a)

abbrev pub tail_of : List ℕ → List ℕ
tail_of [] = []
tail_of (t ∷ ts) = ts

-- The first thread of the list was signalled, once, and no other was.
abbrev pub Woke : Threads → Threads → List ℕ → Type 0
Woke th th' [] = th'.sema ≡ th.sema
Woke th th' (t ∷ ts) = th'.sema ≡ update th.sema t (th.sema t + 1)

-- A thread that leaves a queue leaves no link behind.
pub idle-dequeue :
    (next : ℕ → Option ℕ) (t : ℕ) (ts others : List ℕ)
    → ((u : ℕ) → Absent u (t ∷ ts) → Absent u others → next u ≡ none)
    → (u : ℕ) → Absent u ts
    → Absent u others
    → update next t none u ≡ none
idle-dequeue next t ts others idle u a o = elim (ℕ_discrete t u) [
  | yes same ↦ ground (arith, same)
  | no other ↦ ground (arith, other, idle u ((λ e. other (sym e)), a) o)
]

pub Offers-snoc :
    (elemptr : ℕ → Bool) (t : ℕ) (ids : List ℕ)
    → Absent t ids
    → Offers elemptr ids
    → Offers (update elemptr t true) (ids ++ t ∷ [])
Offers-snoc elemptr t [] a o = (ground arith, tt)
Offers-snoc elemptr t (u ∷ us) (n, a) (e, o) = (ground (arith, n), Offers-snoc elemptr t us a o)

-- The invariant when a thread has been handed a message, and a thread has been signalled.
pub handed-Inv :
    (c : Channel) (elem : ℕ → Bytes) (t : ℕ) (sends recvs : List ℕ)
    → Inv c sends recvs
    → Inv (record c { threads = signal (record c.threads { elem = elem }) t }) sends recvs
handed-Inv c elem t sends recvs v = record {
  opened = v.opened;
  indices = record {
    cap = v.indices.cap;
    len = v.indices.len;
    low = v.indices.low;
    behind = v.indices.behind;
  };
  sending = v.sending;
  receiving = v.receiving;
  send_offers = v.send_offers;
  recv_offers = v.recv_offers;
  full = v.full;
  hungry = v.hungry;
  idle = v.idle;
}
