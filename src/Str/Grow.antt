-- ===== src/Str/Grow.antt =====
-- `str_makeroom`: the string keeps its bytes and gets the room that is asked for.
use ckit.Base.{
  ℕ, ◌+◌, ◌-◌, ◌^◌, ◌≤◌, ◌<◌, ◌≡◌, ap, ◌∙◌, ◌∷◌, ◌++◌, Bytes, length, leb, if◌then◌else◌, arith,
  ret, Bool-cases, false, inl, inr, length-append, take_all, append_assoc,
}
use ckit.Str.{Str, Malloc, grown_cap, resize, makeroom, str_hdr_size, avail}
use ckit.Str.Holds.{Holds, len-le-cap}

-- `s` has the bytes `xs` in front, and then room for `n` more and a zero.
pub record HasRoom (s : Str) (xs : Bytes) (n : ℕ) : Type 0 where
  pub free : Bytes
  pub split : s.p ≡ xs ++ free
  pub count : s.len ≡ length xs
  pub storage : length s.p ≡ s.cap + 1
  pub small : s.cap < 2 ^ 32
  pub room : s.len + n ≤ s.cap

pub Holds-HasRoom : {s : Str} (xs : Bytes) → Holds s xs → HasRoom s xs 0
Holds-HasRoom xs h = record {
  free = 0 ∷ h.rest;
  split = h.split;
  count = h.count;
  storage = h.storage;
  small = h.small;
  room = omega (arith, len-le-cap xs h);
}

-- The new capacity covers what is asked for, and its block has a size below 2 ^ 32.
pub grown_cap_bounds :
    (len n : ℕ)
    → len + n + 9 < 2 ^ 32
    → (len + n ≤ grown_cap len n) × (grown_cap len n + 9 < 2 ^ 32)
unfolding grown_cap
grown_cap_bounds len n h = ground arith

module _ (m : Malloc) where
  resize_lem :
      (p : Bytes) (size : ℕ)
      → length p + 8 ≤ size
      → resize m p size ≡ ret (p ++ m.bytes (size - 8 - length p))
  unfolding resize
  resize_lem p size h = ground (arith, take_all (size - 8) p (omega arith))

  -- The string that `str_makeroom` returns.
  abbrev pub roomy : Str → ℕ → Str
  roomy s n =
      let cap = grown_cap s.len n in
      if leb n (avail s)
      then s
      else record s { cap = cap; p = s.p ++ m.bytes (cap + 1 - length s.p) }

  makeroom-roomy :
      (s : Str) (xs : Bytes) (n : ℕ)
      → HasRoom s xs 0
      → s.len + n + 9 < 2 ^ 32
      → makeroom m s n ≡ ret (roomy s n)
  unfolding makeroom
  makeroom-roomy s xs n h fits = ground (
    arith,
    h.room,
    grown_cap_bounds s.len n fits,
    resize_lem s.p (str_hdr_size (grown_cap s.len n)),
  )

  roomy-HasRoom :
      (s : Str) (xs : Bytes) (n : ℕ)
      → HasRoom s xs 0
      → s.len + n + 9 < 2 ^ 32
      → HasRoom (roomy s n) xs n
  roomy-HasRoom s xs n h fits = elim (Bool-cases (leb n (avail s))) [
    | inl e ↦ rw e (record {
      free = h.free;
      split = h.split;
      count = h.count;
      storage = h.storage;
      small = h.small;
      room = ground (arith, h.room);
    })
    | inr e ↦ rw e (record {
      free = h.free ++ more;
      split = ap (λ k. k ++ more) h.split ∙ append_assoc xs h.free more;
      count = h.count;
      storage =
          omega
            (arith, length-append s.p more, m.length-bytes (cap + 1 - length s.p), bounds, grown e);
      small = omega (arith, bounds);
      room = omega (arith, bounds);
    })
  ]
    where
      cap : ℕ
      cap = grown_cap s.len n

      more : Bytes
      more = m.bytes (cap + 1 - length s.p)

      bounds : (s.len + n ≤ cap) × (cap + 9 < 2 ^ 32)
      bounds = grown_cap_bounds s.len n fits

      grown : leb n (avail s) ≡ false → s.cap < cap
      grown e = ground (arith, bounds, h.room)

  -- With room to spare below 2 ^ 32, `str_makeroom` returns, whatever stands behind the bytes.
  pub makeroom_again :
      (s : Str) (xs : Bytes) (n : ℕ)
      → HasRoom s xs 0
      → s.len + n + 9 < 2 ^ 32
      → (s' : Str) × (makeroom m s n ≡ ret s') × HasRoom s' xs n × (s'.len ≡ s.len)
  makeroom_again s xs n h fits =
      (roomy s n, makeroom-roomy s xs n h fits, roomy-HasRoom s xs n h fits, ground arith)

  pub makeroom_lem :
      (s : Str) (xs : Bytes) (n : ℕ)
      → Holds s xs
      → s.len + n + 9 < 2 ^ 32
      → (s' : Str) × (makeroom m s n ≡ ret s') × HasRoom s' xs n × (s'.len ≡ s.len)
  makeroom_lem s xs n h fits = makeroom_again s xs n (Holds-HasRoom xs h) fits
