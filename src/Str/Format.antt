-- ===== src/Str/Format.antt =====
-- `str_appendfmtv`, `str_appendfmt` and `str_fmt` of pkg/rbase/str.c.
-- `vsnprintf` is not part of the sources: it is a parameter, for the format and the arguments of a call.
-- Given the size of its buffer, it answers with a count, or with -1 (`none`), and with the bytes that it
-- stores.
use native.Mathlib.Decide.{dec_lt}
use ckit.Base.{
  ℕ, zero, suc, ◌+◌, ◌-◌, ◌*◌, ◌^◌, ◌≤◌, ◌<◌, ◌≡◌, refl, ap, Option, none, some, [], ◌∷◌, ◌++◌,
  Bytes, length, take, take_all, length-take, length-append, leb, ltb, if◌then◌else◌, Outcome, ret,
  fault, ◌>>=◌, ◌>>◌, assert, arith, ◌∙◌,
}
use ckit.Base.Words.{u32, u64, max_u32}
use ckit.Base.Buffer.{poke}
use ckit.Str.{Str, Malloc, new, makeroom, avail}
use ckit.Str.Holds.{Holds}
use ckit.Str.Grow.{HasRoom, Holds-HasRoom, makeroom_again}
use ckit.Str.Scrap.{scrap, scrap-HasRoom, poke-scrap, poke-Holds}

-- `INT_MAX`
abbrev pub int_max : ℕ
int_max = 2 ^ 31 - 1

module _ (m : Malloc) (vsnprintf : ℕ → Option ℕ × Bytes) where
  -- The loop of `str_appendfmtv`. Fuel for its turns.
  unfoldable pub format_loop : ℕ → Str → ℕ → ℕ → Outcome Str
  format_loop zero s offs size = fault
  format_loop (suc fuel) s offs size =
      assert (leb size int_max)
      >> (makeroom m s (u32 size) >>= λ s1. poke s1.p offs (vsnprintf size).1 >>= λ p.
          let s2 = record s1 { p = p } in
          elim (vsnprintf size).0 [
            | none ↦ ret (record s2 { len = u32 (s2.len + max_u32) })
            | some n ↦
                let again = format_loop fuel s2 offs (u32 (n + 1)) in
                if ltb n size then ret (record s2 { len = u32 (s2.len + n) }) else again
          ])

  -- `str_appendfmtv` and `str_appendfmt`, of a format of `fmtlen` bytes.
  unfoldable pub appendfmtv : Str → ℕ → Outcome Str
  appendfmtv s fmtlen = format_loop 3 s s.len (u64 (fmtlen * 2 + 1))

  -- `str_fmt`
  pub fmt : ℕ → Outcome Str
  fmt fmtlen = do s ← new m (u32 (fmtlen * 4)); appendfmtv s fmtlen

-- What the C standard says of a call of `vsnprintf` that formats `text`.
abbrev pub Formats : (ℕ → Option ℕ × Bytes) → Bytes → Type 0
Formats vsnprintf text =
    (size : ℕ)
    → 0 < size
    → size < 2 ^ 31
    → vsnprintf size ≡ (some (length text), take (size - 1) text ++ 0 ∷ [])

module _ (m : Malloc) (vsnprintf : ℕ → Option ℕ × Bytes) (xs text : Bytes)
    (formats : Formats vsnprintf text) (short : length text + 1 < 2 ^ 31) where
  -- A turn with enough room is the last one.
  last_turn :
      (fuel : ℕ) (s : Str) (size : ℕ)
      → HasRoom s xs 0
      → length text < size
      → size < 2 ^ 31
      → s.len + size + 9 < 2 ^ 32
      → (s' : Str) × (format_loop m vsnprintf (suc fuel) s s.len size ≡ ret s')
        × Holds s' (xs ++ text)
  unfolding format_loop
  last_turn fuel s size h long below fits =
      let (s1, made, room, keeps) = makeroom_again m s xs size h fits in
      let whole = take_all (size - 1) text (omega arith) in
      let out = text ++ 0 ∷ [] in
      let n = length-append text (0 ∷ []) in
      let inside : length out ≤ avail s1 = omega (arith, n, room.room, room.small) in
      let said : vsnprintf size ≡ (some (length text), out) =
        formats size (omega arith) below ∙ ap (λ k. (some (length text), k ++ 0 ∷ [])) whole in
      (
        record (scrap room out inside) { len = s1.len + length text },
        ground (arith, made, said, poke-scrap room out inside, keeps, room.room, room.small),
        poke-Holds room out inside text refl,
      )

  -- A turn without it leaves the string as it is, and the next one has exactly what is needed.
  first_turn :
      (fuel : ℕ) (s : Str) (size : ℕ)
      → HasRoom s xs 0
      → size ≤ length text
      → 0 < size
      → s.len + size + 9 < 2 ^ 32
      → (s' : Str) × (format_loop m vsnprintf (suc fuel) s s.len size
          ≡ format_loop m vsnprintf fuel s' s'.len (length text + 1))
        × HasRoom s' xs 0
        × (s'.len ≡ s.len)
  unfolding format_loop
  first_turn fuel s size h long some_room fits =
      let (s1, made, room, keeps) = makeroom_again m s xs size h fits in
      let out = take (size - 1) text ++ 0 ∷ [] in
      let n = length-append (take (size - 1) text) (0 ∷ []) in
      let front = length-take (size - 1) text in
      let inside : length out ≤ avail s1 = omega (arith, n, front, room.room, room.small) in
      let said = formats size some_room (omega arith) in
      (
        scrap room out inside,
        ground (arith, made, said, poke-scrap room out inside, keeps),
        scrap-HasRoom room out inside,
        keeps,
      )

  format_loop_lem :
      (fuel : ℕ) (s : Str) (size : ℕ)
      → HasRoom s xs 0
      → 0 < size
      → size < 2 ^ 31
      → s.len + size + 9 < 2 ^ 32
      → s.len + length text + 10 < 2 ^ 32
      → (s' : Str) × (format_loop m vsnprintf (suc (suc fuel)) s s.len size ≡ ret s')
        × Holds s' (xs ++ text)
  format_loop_lem fuel s size h some_room below fits fits' = elim (dec_lt (length text) size) [
    | yes long ↦ last_turn (suc fuel) s size h long below fits
    | no le ↦
        let (s1, again, room, keeps) =
          first_turn (suc fuel) s size h (omega (arith, le)) some_room fits in
        let (s', done, holds) =
          last_turn fuel s1 (length text + 1) room (omega arith) short (omega (arith, keeps)) in
        (s', again ∙ done, holds)
  ]

-- `str_appendfmtv` returns a well-formed string that holds the old bytes and then the text that
-- `vsnprintf` formats, if that answers as the C standard says, the text has fewer than 2 ^ 31 - 1 bytes and
-- the format fewer than 2 ^ 30 - 1, and the new sizes stay below 2 ^ 32.
pub appendfmtv_lem :
    (m : Malloc) (vsnprintf : ℕ → Option ℕ × Bytes) (s : Str) (xs text : Bytes) (fmtlen : ℕ)
    → Holds s xs
    → Formats vsnprintf text
    → length text + 1 < 2 ^ 31
    → fmtlen * 2 + 1 < 2 ^ 31
    → s.len + fmtlen * 2 + 10 < 2 ^ 32
    → s.len + length text + 10 < 2 ^ 32
    → (s' : Str) × (appendfmtv m vsnprintf s fmtlen ≡ ret s') × Holds s' (xs ++ text)
unfolding appendfmtv
appendfmtv_lem m vsnprintf s xs text fmtlen h formats short format fits fits' =
    let size : u64 (fmtlen * 2 + 1) ≡ fmtlen * 2 + 1 = omega arith in
    rw size (
      format_loop_lem m vsnprintf xs text formats short 1 s (fmtlen * 2 + 1) (Holds-HasRoom xs h)
        (omega arith) format (omega arith) fits')
