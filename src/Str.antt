-- ===== src/Str.antt =====
-- pkg/rbase/str.c and str.h: growable byte strings behind a header.
-- A `Str` is its header and the bytes allocated from `p` on. The allocator (`R_STR_MEMALLOC`,
-- `R_STR_MEMREALLOC`) is not part of the sources: it is the parameter `Malloc`, which gives the
-- unset bytes of a block. A failing allocation is outside of the model, as the code does not test
-- for it. A string is passed and returned by value, so a call whose `data` points into the string
-- itself is outside of the model too.
pub mod Holds
pub mod Grow
pub mod Append
pub mod Scrap
mod Digits
pub mod Number
pub mod Hex
pub mod Split
pub mod Compare
pub mod Order
pub mod Repr
pub mod Format
pub mod Examples
mod Tests
use ckit.Base.{
  ℕ, zero, suc, ◌+◌, ◌-◌, ◌*◌, ◌/◌, ◌%◌, ◌^◌, ◌≤◌, ◌≡◌, min, max, Bool, true, false, ◌&&◌, List, [],
  ◌∷◌, ◌++◌, Bytes, codes, length, get_or, take, replicate, ltb, leb, ◌==◌, if◌then◌else◌, Outcome,
  ret, fault, ◌>>=◌, ◌>>◌, assert, defined,
}
use mathlib.Core.List.{reverse}
use ckit.Base.Words.{u32, sub_u32, align2}
use ckit.Base.Buffer.{poke}

-- What a block of `n` fresh bytes holds.
pub record Malloc : Type 0 where
  pub bytes : ℕ → Bytes
  pub length-bytes : (n : ℕ) → length (bytes n) ≡ n

-- `struct StrHeader`, with the bytes that are allocated behind `len` and `cap`.
pub record Str : Type 0 where
  pub len : ℕ
  pub cap : ℕ
  pub p : Bytes

-- `sizeof(struct StrHeader)` without `p`: the struct is packed.
abbrev pub hdr_size : ℕ
hdr_size = 8

-- `STR_HDR_SIZE`, which is cut off at 32 bits.
abbrev pub str_hdr_size : ℕ → ℕ
str_hdr_size cap = u32 (hdr_size + cap + 1)

-- `str_avail`
abbrev pub avail : Str → ℕ
avail s = sub_u32 s.cap s.len

-- `str_setlen`
pub setlen : Str → ℕ → Outcome Str
setlen s len = do
  assert (leb len s.cap)
  p ← poke s.p len (0 ∷ [])
  ret (record s { len = len; p = p })

-- `str_trunc`
pub trunc : Str → Outcome Str
unfolding setlen
trunc s = setlen s 0

-- The capacity that `str_makeroom` asks for.
pub grown_cap : ℕ → ℕ → ℕ
grown_cap len addlen =
    let cap = u32 (len + addlen) in if ltb cap 4096 then u32 (align2 (u32 (cap * 2)) 8) else cap

module _ (m : Malloc) where
  -- `realloc` to `size` bytes, header included: the bytes that fit are kept. A block with no room
  -- for the header is not usable.
  pub resize : Bytes → ℕ → Outcome Bytes
  resize p size = do
    defined (leb hdr_size size)
    let n = size - hdr_size
    ret (take n p ++ m.bytes (n - length p))

  -- `str_new`; `cap + 1` is computed on 32 bits, the maximum on 64.
  pub new : ℕ → Outcome Str
  new cap = do
    let size = max (u32 (cap + 1)) 8
    p ← poke (m.bytes size) 0 (0 ∷ [])
    ret (record { len = 0; cap = size - 1; p = p })

  -- `str_cpy`
  pub cpy : Bytes → Outcome Str
  unfolding setlen
  cpy src = do s ← new (length src); p ← poke s.p 0 src; setlen (record s { p = p }) (length src)

  -- `str_makeroom`
  pub makeroom : Str → ℕ → Outcome Str
  unfolding grown_cap resize
  makeroom s addlen = if leb addlen (avail s) then ret s else do
    let cap = grown_cap s.len addlen
    p ← resize s.p (str_hdr_size cap)
    ret (record s { cap = cap; p = p })

  -- `str_reserve`: the string, and the offset of the reserved bytes.
  pub reserve : Str → ℕ → Outcome (Str × ℕ)
  reserve s len = do
    s2 ← makeroom s len
    let end = u32 (s2.len + len)
    p ← poke s2.p end (0 ∷ [])
    ret (record s2 { len = end; p = p }, s2.len)

  -- `str_append`
  pub append : Str → Bytes → Outcome Str
  unfolding setlen
  append s src = do
    s2 ← makeroom s (length src)
    p ← poke s2.p s.len src
    setlen (record s2 { p = p }) (u32 (s.len + length src))

  -- `str_appendc`
  pub appendc : Str → ℕ → Outcome Str
  appendc s c = do
    s2 ← (if avail s == 0 then makeroom s 1 else ret s)
    p1 ← poke s2.p s2.len (c ∷ [])
    let end = u32 (s2.len + 1)
    p2 ← poke p1 end (0 ∷ [])
    ret (record s2 { len = end; p = p2 })

  -- `str_appendfill`
  pub appendfill : Str → ℕ → ℕ → Outcome Str
  appendfill s n c = do
    s2 ← makeroom s n
    p1 ← poke s2.p s2.len (replicate n c)
    let end = u32 (s2.len + n)
    p2 ← poke p1 end (0 ∷ [])
    ret (record s2 { len = end; p = p2 })

-- The array `chars` of `str_appendu64`.
abbrev pub chars : Bytes
chars = codes "0123456789ABCDEFGHIJKLMNOPQRSTUVWXYZabcdefghijklmnopqrstuvwxyz"

-- The loop of `str_appendu64`, with `room` bytes left of the array `buf`: a store past its end is
-- not defined.
pub put_digits : ℕ → ℕ → ℕ → Bytes → Outcome Bytes
put_digits zero base v buf = fault
put_digits (suc room) base v buf =
    let out = buf ++ get_or chars (v % base) 0 ∷ [] in
    let rest = put_digits room base (v / base) out in if v / base == 0 then ret out else rest

module _ (m : Malloc) where
  -- `str_appendu64`. A division by zero is not defined. The second loop copies `buf` backwards.
  pub appendu64 : Str → ℕ → ℕ → Outcome Str
  unfolding setlen
  appendu64 s v base = do
    let b = min base 62
    defined (ltb 0 b)
    buf ← put_digits 20 b v []
    s2 ← makeroom m s (length buf)
    p ← poke s2.p s2.len (reverse buf)
    setlen (record s2 { p = p }) (u32 (s2.len + length buf))
