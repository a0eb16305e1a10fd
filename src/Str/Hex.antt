-- ===== src/Str/Hex.antt =====
-- `str_appendhex` of pkg/rbase/str.c: the digits that it appends are read back.
use ckit.Base.{
  ◌+◌, ◌*◌, ◌^◌, ◌<◌, ◌≡◌, refl, ◌∙◌, some, Bytes, codes, ◌++◌, length, arith, Outcome, ret, ◌>>=◌,
}
use ckit.Base.Words.{u32}
use ckit.Base.Buffer.{poke}
use ckit.Hex.{spell}
use ckit.Hex.Read.{read_hex, AllBytes, IsAlphabet, length-spell, read_hex-spell}
use ckit.ParseInt.{digit}
use ckit.Base.Tables.{every}
use ckit.Str.{Str, Malloc, makeroom, setlen}
use ckit.Str.Holds.{Holds}
use ckit.Str.Grow.{makeroom_lem}
use ckit.Str.Append.{stored, stored-Holds, poke_both}

-- The array `alphabet`.
abbrev pub alphabet : Bytes
alphabet = codes "0123456789ABCDEF"

alphabet-IsAlphabet : IsAlphabet alphabet
unfolding every digit
alphabet-IsAlphabet = refl

-- `str_appendhex`
pub appendhex : Malloc → Str → Bytes → Outcome Str
unfolding setlen
appendhex m s input = do
  let len = length input
  s2 ← makeroom m s (u32 (len * 2))
  p ← poke s2.p s2.len (spell alphabet input)
  setlen (record s2 { p = p }) (u32 (s2.len + u32 (len * 2)))

-- `str_appendhex` returns a well-formed string that holds the old bytes and then a text which, as
-- hexadecimal digits, stands for the input, as long as the new size stays below 2 ^ 32.
pub appendhex_lem :
    (m : Malloc) (s : Str) (xs input : Bytes)
    → Holds s xs
    → AllBytes input
    → s.len + length input * 2 + 9 < 2 ^ 32
    → (s' : Str) × (text : Bytes) × (appendhex m s input ≡ ret s')
      × Holds s' (xs ++ text)
      × (read_hex text ≡ some input)
unfolding appendhex
appendhex_lem m s xs input h p fits =
    let d = spell alphabet input in
    let size = length-spell alphabet input in
    let whole : length input * 2 ≡ u32 (length input * 2) = omega arith in
    let (s2, e, r, keeps) = makeroom_lem m s xs (u32 (length input * 2)) h (omega arith) in
    let both = poke_both r d (size ∙ whole) s2.len (u32 (s2.len + u32 (length input * 2))) in
    (
      stored s2 xs d r,
      d,
      ground (arith, e, r.room, r.small, keeps, size, both),
      stored-Holds r d (size ∙ whole),
      read_hex-spell alphabet input alphabet-IsAlphabet p,
    )
