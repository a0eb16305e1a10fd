-- ===== src/Str/Repr.antt =====
-- `str_appendrepr` of pkg/rbase/str.c, where `char` is signed.
-- `isprint` and `isspace` are those of the "C" locale. They are not defined for a negative `char`, which
-- is a byte of 128 or more. The zero that `sprintf` puts behind its digits is written over.
pub mod Read
pub mod Char
pub mod Loop
pub mod Retry
mod Tests
use ckit.Base.{
  ℕ, zero, suc, ◌+◌, ◌-◌, ◌*◌, ◌/◌, ◌%◌, ◌≤◌, ◌<◌, Bool, true, false, not, ◌&&◌, ◌||◌, [], ◌∷◌,
  ◌++◌, Bytes, length, get_or, ltb, leb, ◌==◌, if◌then◌else◌, Outcome, ret, fault, ◌>>=◌, ◌>>◌,
  assert, defined,
}
use ckit.Base.Words.{u32, max_u32}
use ckit.Base.Buffer.{poke}
use ckit.Str.{Str, Malloc, makeroom, setlen, avail}
use ckit.Str.Hex.{alphabet}

-- `ishexdigit`
abbrev pub ishexdigit : ℕ → Bool
ishexdigit c =
    (leb b'0' c && leb c b'9') || ((leb b'A' c && leb c b'F') || (leb b'a' c && leb c b'f'))

abbrev pub isspace : ℕ → Bool
isspace c = c == 32 || (leb 9 c && leb c 13)

abbrev pub isprint : ℕ → Bool
isprint c = leb 32 c && leb c 126

-- `c == ' ' || (c != '"' && !isspace(c) && isprint(c))`
abbrev pub is_plain : ℕ → Bool
is_plain c = c == 32 || (not (c == 34) && (not (isspace c) && isprint c))

-- The end of a turn of the inner loop: an escape sequence. The answers are whether it fits, `prevesc`,
-- and the bytes that were written up to `dst`.
pub put_escape : ℕ → ℕ → Bool → Bytes → Bool × Bool × Bytes
put_escape room c prevesc out =
    let start = out ++ 92 ∷ [] in
    if c == 9
    then (true, prevesc, start ++ b't' ∷ [])
    else if c == 10
    then (true, prevesc, start ++ b'n' ∷ [])
    else if c == 13
    then (true, prevesc, start ++ b'r' ∷ [])
    else if c == 34
    then (true, prevesc, start ++ c ∷ [])
    else if ltb room (length start + 3)
    then (false, prevesc, start)
    else (true, true, start ++ b'x' ∷ get_or alphabet (c / 16) 0 ∷ get_or alphabet (c % 16) 0 ∷ [])

-- A turn of the inner loop, behind the line break.
pub put_char : ℕ → ℕ → Bool → Bytes → Bool × Bool × Bytes
put_char room c prevesc out =
    if is_plain c && (not prevesc || not (ishexdigit c))
    then (true, false, out ++ c ∷ [])
    else if ltb room (length out + 2)
    then (false, prevesc, out)
    else put_escape room c prevesc out

-- The line break in front of a byte, at the end of a line of 80, and where the line begins then.
pub break_line : ℕ → Bytes → Bytes
break_line line out = if leb 80 (length out - line) then out ++ 10 ∷ [] else out

pub next_line : ℕ → Bytes → ℕ
next_line line out = if leb 80 (length out - line) then length out + 1 else line

-- The inner loop, with `dstlinestart` as an index. `room` is how many bytes there are up to `dstend`.
pub repr_loop : ℕ → Bytes → ℕ → Bool → Bytes → Outcome (Bool × Bool × Bytes)
repr_loop room [] line prevesc out = ret (true, prevesc, out)
repr_loop room (c ∷ input) line prevesc out =
    let broken = break_line line out in
    let r = put_char room c prevesc broken in
    let more = repr_loop room input (next_line line out) r.1 r.2 in
    if length out == room
    then ret (false, prevesc, out)
    else if length broken == room
    then ret (false, prevesc, broken)
    else if ltb c 128
    then (if r.0 then more else ret r)
    else fault

module _ (m : Malloc) where
  -- The outer loop, which begins again with twice the room. Fuel for its turns.
  pub repr_retry : ℕ → Str → Bytes → ℕ → Bool → Outcome Str
  repr_retry zero s input morelen prevesc = fault
  repr_retry (suc fuel) s input morelen prevesc = makeroom m s morelen >>= λ s1.
      repr_loop (avail s1) input 0 prevesc [] >>= λ r. poke s1.p s1.len r.2 >>= λ p.
      let s2 = record s1 { p = p } in
      let more = repr_retry fuel s2 input (u32 (morelen * 2)) r.1 in
      if r.0 then setlen s2 (u32 (s1.len + length r.2)) else more

  -- `str_appendrepr`. Behind 32 turns `morelen` is 0, and nothing changes any more.
  pub appendrepr : Str → Bytes → Outcome Str
  appendrepr s input = do
    assert (leb (length input) (max_u32 * 8))
    repr_retry 34 s input (u32 (length input * 4)) false
