-- ===== src/Str/Holds.antt =====
-- What a `Str` stands for: the bytes in front of its terminating zero.
use ckit.Base.{
  ◌+◌, ◌^◌, ◌≤◌, ◌<◌, ◌≡◌, ◌∷◌, ◌++◌, Bytes, length, take, arith, take-append, length-append, ap,
}
use ckit.Str.{Str}

-- `s` is well formed and holds the bytes `xs`: they are followed by a zero, and the allocated bytes
-- are `cap` and one for that zero. `rest` is what stands behind.
pub record Holds (s : Str) (xs : Bytes) : Type 0 where
  pub rest : Bytes
  pub split : s.p ≡ xs ++ 0 ∷ rest
  pub count : s.len ≡ length xs
  pub storage : length s.p ≡ s.cap + 1
  pub small : s.cap < 2 ^ 32

-- What a reader of `str_len` bytes sees.
abbrev pub contents : Str → Bytes
contents s = take s.len s.p

pub contents-eq : {s : Str} (xs : Bytes) → Holds s xs → contents s ≡ xs
contents-eq {s} xs h = ground (arith, take-append xs (0 ∷ h.rest) s.len)

pub len-le-cap : {s : Str} (xs : Bytes) → Holds s xs → s.len ≤ s.cap
len-le-cap xs h = omega (arith, length-append xs (0 ∷ h.rest), ap length h.split)
