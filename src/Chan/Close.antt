-- ===== src/Chan/Close.antt =====
-- pkg/rbase/chan.c: `ChanClose` wakes every thread that is parked in the channel, once.
use ckit.Base.{
  ℕ, zero, suc, ◌+◌, ◌≤◌, ◌≡◌, ◌⊎◌, refl, sym, true, List, [], ◌∷◌, ◌++◌, append-nil, subst, Option,
  none, length, length-append, ret, panic, inl, inr, arith,
}
use ckit.Base.Links.{Absent, Distinct, Chain, update}
use ckit.Chan.{Channel, Threads, signal, wake_all, close}
use ckit.Chan.Ring.{window}
use ckit.Chan.Inv.{Inv}

-- The thread is on the list.
abbrev pub Among : ℕ → List ℕ → Type 0
Among t [] = ⊥
Among t (u ∷ us) = (t ≡ u) ⊎ Among t us

-- The threads of the list, and no others, have been told that their channel closed and signalled once.
pub record Woken (th : Threads) (ids : List ℕ) (th' : Threads) : Type 0 where
  pub told : (t : ℕ) → Among t ids → (th'.closed t ≡ true) × (th'.sema t ≡ th.sema t + 1)
  pub others : (t : ℕ) → Absent t ids → (th'.closed t ≡ th.closed t) × (th'.sema t ≡ th.sema t)
  pub next : th'.next ≡ th.next
  pub elem : th'.elem ≡ th.elem

wake : Threads → ℕ → Threads
wake th t = signal (record th { closed = update th.closed t true }) t

-- A thread on a list is none that is absent from it.
Among-differs : {t u : ℕ} → (ids : List ℕ) → Absent t ids → Among u ids → ¬ (t ≡ u)
Among-differs [] a i e = absurd i
Among-differs (v ∷ vs) (n, a) i e = elim i [
  | inl same ↦ n (cc (e, same))
  | inr j ↦ Among-differs vs a j e
]

wake-head :
    (th th' : Threads) (t : ℕ) (ts : List ℕ)
    → Absent t ts
    → Woken (wake th t) ts th'
    → Woken th (t ∷ ts) th'
unfolding wake
wake-head th th' t ts a w = record {
  told = λ u i. elim i [
    | inl e ↦
        subst (λ v. (th'.closed v ≡ true) × (th'.sema v ≡ th.sema v + 1)) (sym e)
          (ground (arith, w.others t a))
    | inr j ↦ ground (arith, w.told u j, Among-differs ts a j)
  ];
  others = λ u b. ground (arith, w.others u b.1, b.0);
  next = w.next;
  elem = w.elem;
}

pub wake_all-Woken :
    (fuel : ℕ) (th : Threads) (o : Option ℕ) (ids : List ℕ)
    → Chain th.next o ids
    → Distinct ids
    → length ids ≤ fuel
    → (th' : Threads) × (wake_all fuel th o ≡ ret th') × Woken th ids th'
unfolding wake_all wake
wake_all-Woken fuel th o [] c d enough = (
  th,
  rw (c) refl,
  record { told = λ t i. absurd i; others = λ t a. (refl, refl); next = refl; elem = refl },
)
wake_all-Woken zero th o (t ∷ ts) c d enough = absurd (omega arith)
wake_all-Woken (suc fuel) th o (t ∷ ts) (e, c) (a, d) enough =
    let (th', run, w) = wake_all-Woken fuel (wake th t) (th.next t) ts c d (omega arith) in
    (th', rw (e) run, wake-head th th' t ts a w)

pub none-wake_all :
    (fuel : ℕ) (th : Threads) {o : Option ℕ} → o ≡ none → wake_all fuel th o ≡ ret th
unfolding wake_all
none-wake_all fuel th e = rw (e) refl

-- `ChanClose` of an open channel that keeps the invariant returns when its loops may take as many
-- rounds as threads are parked. The channel is closed then and its messages are unchanged. Each of
-- the parked threads, and no other, has been told that the channel closed and has been signalled
-- once. Closing it again panics.
pub close_lem :
    (fuel : ℕ) (c : Channel) (sends recvs : List ℕ)
    → Inv c sends recvs
    → length (recvs ++ sends) ≤ fuel
    → (c' : Channel) × (close fuel c ≡ ret c')
      × (c'.closed ≡ true)
      × (window c' ≡ window c)
      × Woken c.threads (recvs ++ sends) c'.threads
      × (close fuel c' ≡ panic)
unfolding close
close_lem fuel c sends [] v enough =
    let (th', run, w) =
      wake_all-Woken fuel c.threads c.sendq.first sends v.sending.chain v.sending.distinct enough in
    (
      record c { closed = true; threads = th' },
      rw (v.opened, none-wake_all fuel c.threads v.receiving.chain, run) refl,
      refl,
      refl,
      w,
      refl,
    )
close_lem fuel c [] (t ∷ ts) v enough =
    let (th', run, w) =
      wake_all-Woken fuel c.threads c.recvq.first (t ∷ ts) v.receiving.chain v.receiving.distinct
        (omega (arith, length-append ts [])) in
    (
      record c { closed = true; threads = th' },
      rw (v.opened, run, none-wake_all fuel th' v.sending.chain) refl,
      refl,
      refl,
      subst (λ l. Woken c.threads l th') (sym (append-nil (t ∷ ts))) w,
      refl,
    )
close_lem fuel c (s ∷ ss) (t ∷ ts) v enough = absurd (ground (arith, v.hungry))
