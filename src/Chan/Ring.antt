-- ===== src/Chan/Ring.antt =====
-- pkg/rbase/chan.c: the indices `sendx` and `recvx` and the slots of `buf` as a queue of messages.
use ckit.Base.{
  ℕ, zero, suc, ◌+◌, ◌-◌, ◌^◌, ◌≤◌, ◌<◌, ◌≡◌, refl, ap, ap₂, List, [], ◌∷◌, ◌++◌, Bytes, ltb, ◌==◌,
  if◌then◌else◌, true, ◌∙◌, arith,
}
use ckit.Base.Words.{u32, sub_u32}
use ckit.Base.Links.{update}
use ckit.Chan.{Channel, bump, enqueue, dequeue}

-- The slot that is `k` behind slot `i` of `q`.
abbrev pub slot : ℕ → ℕ → ℕ → ℕ
slot q i k = if ltb (i + k) q then i + k else i + k - q

-- `f 0` up to `f (n - 1)`.
abbrev pub tabulate {ℓ} : {A : Type ℓ} → ℕ → (ℕ → A) → List A
tabulate zero f = []
tabulate (suc n) f = f 0 ∷ tabulate n (λ k. f (suc k))

module _ {ℓ} {A : Type ℓ} where
  pub tabulate-snoc : (n : ℕ) (f : ℕ → A) → tabulate (suc n) f ≡ tabulate n f ++ f n ∷ []
  tabulate-snoc zero f = refl
  tabulate-snoc (suc n) f = ap (λ r. f 0 ∷ r) (tabulate-snoc n (λ k. f (suc k)))

  pub tabulate_cong :
      (n : ℕ) (f g : ℕ → A) → ((k : ℕ) → k < n → f k ≡ g k) → tabulate n f ≡ tabulate n g
  tabulate_cong zero f g same = refl
  tabulate_cong (suc n) f g same =
      ap₂ (λ x r. x ∷ r) (same 0 (omega arith))
        (tabulate_cong n (λ k. f (suc k)) (λ k. g (suc k)) (λ k h. same (suc k) (omega arith)))

-- The messages in the buffer, in the order in which they will be received.
abbrev pub window : Channel → List Bytes
window c = tabulate c.qlen (λ k. c.buf (slot c.qcap c.recvx k))

-- The indices are slots of the buffer, and `sendx` is behind the last message.
pub record Indices (c : Channel) : Type 0 where
  pub cap : c.qcap < 2 ^ 32
  pub len : c.qlen ≤ c.qcap
  pub low : 0 < c.qcap → c.recvx < c.qcap
  pub behind : 0 < c.qcap → c.sendx ≡ slot c.qcap c.recvx c.qlen

pub enqueue-Indices : (c : Channel) (me : ℕ) → Indices c → c.qlen < c.qcap → Indices (enqueue c me)
unfolding enqueue
enqueue-Indices c me r room =
    let low = r.low (omega arith) in
    let behind = r.behind (omega arith) in
    record {
      cap = r.cap;
      len = omega (arith, r.cap);
      low = r.low;
      behind = λ h. ground (arith, r.cap, behind, low);
    }

-- Storing into the buffer adds the message of the sender behind all others.
pub enqueue-window :
    (c : Channel) (me : ℕ)
    → Indices c
    → c.qlen < c.qcap
    → window (enqueue c me) ≡ window c ++ c.threads.elem me ∷ []
unfolding enqueue
enqueue-window c me r room =
    let low = r.low (omega arith) in
    let behind = r.behind (omega arith) in
    let same : slot c.qcap c.recvx c.qlen == c.sendx ≡ true = ground (arith, behind) in
    let len : u32 (c.qlen + 1) ≡ suc c.qlen = omega (arith, r.cap) in
    rw (len) (
      tabulate-snoc c.qlen (λ k. update c.buf c.sendx (c.threads.elem me) (slot c.qcap c.recvx k))
      ∙ ap₂ (λ xs x. xs ++ x ∷ [])
          (tabulate_cong c.qlen
            (λ k. update c.buf c.sendx (c.threads.elem me) (slot c.qcap c.recvx k))
            (λ k. c.buf (slot c.qcap c.recvx k)) (λ k h. ground (arith, behind, low)))
          (ground (arith, behind)))

pub dequeue-Indices : (c : Channel) (me : ℕ) → Indices c → 0 < c.qlen → Indices (dequeue c me)
unfolding dequeue
dequeue-Indices c me r some_left =
    let low = r.low (omega (arith, r.len)) in
    let behind = r.behind (omega (arith, r.len)) in
    record {
      cap = r.cap;
      len = omega (arith, r.len);
      low = λ h. ground (arith, r.cap, low);
      behind = λ h. ground (arith, r.cap, behind, low, r.len);
    }

pub window-empty : (c : Channel) → c.qlen ≡ 0 → window c ≡ []
window-empty c e = ap (λ n. tabulate n (λ k. c.buf (slot c.qcap c.recvx k))) e

-- The messages behind the oldest one.
abbrev pub rest : Channel → List Bytes
rest c = tabulate (c.qlen - 1) (λ k. c.buf (slot c.qcap c.recvx (suc k)))

pub window-rest : (c : Channel) → Indices c → 0 < c.qlen → window c ≡ c.buf c.recvx ∷ rest c
window-rest c r more =
    let low = r.low (omega (arith, r.len)) in
    let one : slot c.qcap c.recvx 0 ≡ c.recvx = ground (arith, low) in
    let len : c.qlen ≡ suc (c.qlen - 1) = omega arith in
    ap (λ n. tabulate n (λ k. c.buf (slot c.qcap c.recvx k))) len ∙ ap (λ i. c.buf i ∷ rest c) one

-- The slots seen from the next index.
slot-bump :
    (c : Channel) (k : ℕ)
    → c.qcap < 2 ^ 32
    → c.recvx < c.qcap
    → k < c.qcap
    → slot c.qcap (bump c c.recvx) k ≡ slot c.qcap c.recvx (suc k)
slot-bump c k cap low h = ground (arith, cap, low, h)

-- Reading from the buffer takes the oldest message.
pub dequeue-window :
    (c : Channel) (me : ℕ) → Indices c → 0 < c.qlen → window (dequeue c me) ≡ rest c
unfolding dequeue
dequeue-window c me r more =
    let low = r.low (omega (arith, r.len)) in
    let len : sub_u32 c.qlen 1 ≡ c.qlen - 1 = omega (arith, r.cap, r.len) in
    rw (len) (
      tabulate_cong (c.qlen - 1) (λ k. c.buf (slot c.qcap (bump c c.recvx) k))
        (λ k. c.buf (slot c.qcap c.recvx (suc k)))
        (λ k h. ap c.buf (slot-bump c k r.cap low (omega (arith, r.len)))))

-- A full buffer of which the oldest message is read, and the message of `t` put in its place.
abbrev pub rotate : Channel → Bytes → Channel
rotate c m = record c {
  buf = update c.buf c.recvx m;
  recvx = bump c c.recvx;
  sendx = bump c c.recvx;
}

pub rotate-Indices :
    (c : Channel) (m : Bytes) → Indices c → 0 < c.qlen → c.qlen ≡ c.qcap → Indices (rotate c m)
rotate-Indices c m r more full =
    let low = r.low (omega (arith, r.len)) in
    record {
      cap = r.cap;
      len = r.len;
      low = λ h. ground (arith, r.cap, low);
      behind = λ h. ground (arith, r.cap, low, full);
    }

pub rotate-window :
    (c : Channel) (m : Bytes)
    → Indices c
    → 0 < c.qlen
    → c.qlen ≡ c.qcap
    → window (rotate c m) ≡ rest c ++ m ∷ []
rotate-window c m r more full =
    let low = r.low (omega (arith, r.len)) in
    let f : ℕ → Bytes = λ k. update c.buf c.recvx m (slot c.qcap (bump c c.recvx) k) in
    let len : c.qlen ≡ suc (c.qlen - 1) = omega arith in
    ap (λ n. tabulate n f) len
    ∙ tabulate-snoc (c.qlen - 1) f
    ∙ ap₂ (λ xs x. xs ++ x ∷ [])
        (tabulate_cong (c.qlen - 1) f (λ k. c.buf (slot c.qcap c.recvx (suc k)))
          (λ k h. ground (arith, slot-bump c k r.cap low (omega (arith, full)), low, full)))
        (ground (arith, slot-bump c (c.qlen - 1) r.cap low (omega (arith, full)), low, full))
