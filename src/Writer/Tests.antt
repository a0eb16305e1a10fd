-- ===== src/Writer/Tests.antt =====
-- A writer in front of a file that takes few bytes at a time, up to some.
use native.Mathlib.Decide.{dec_lt}
use ckit.Base.{
  ℕ, ◌≡◌, ◌<◌, refl, Bool, true, Option, none, some, inl, inr, [], ◌++◌, Bytes, length, take, min,
  replicate, arith, ret, if◌then◌else◌, ltb,
}
use ckit.Base.Buffer.{poke}
use ckit.Writer.{Writer, writer_write, writer_flush, writer_close, shift, turn, write_loop}
use ckit.Writer.Flush.{Answer, Accepts}
use ckit.Writer.Write.{Ended, writer_write_lem}

-- A file of at most 600 bytes which takes 100 bytes at a time: what it holds.
abbrev write_some : Option ℕ → Bytes → Bytes → Option ℕ × Bytes
write_some fd input out =
    if ltb (length out) 600
    then (some (min 100 (length input)), out ++ take (min 100 (length input)) input)
    else (none, out)

some_answers :
    (fd : Option ℕ) (input out : Bytes)
    → 0 < length input
    → Answer (λ k. k) input out (write_some fd input out)
some_answers fd input out h = elim (dec_lt (length out) 600) [
  | yes few ↦
      inr
        (min 100 (length input), ground (arith, few), omega arith, omega arith, ground (arith, few))
  | no full ↦ inl (ground (arith, full), ground (arith, full))
]

abbrev new_writer : Writer
new_writer = record { fd = some 1; buf = replicate 512 0; len = 0 }

new_writer-Accepts : Accepts (λ k. k) new_writer [] []
new_writer-Accepts = record {
  waiting = [];
  rest = replicate 512 0;
  split = refl;
  count = refl;
  size = refl;
  whole = refl;
}

-- The text of 448 bytes is more than the buffer keeps: 100 of them are written.
first_part :
    writer_write write_some new_writer (replicate 448 7) []
    ≡ ret (
      true,
      record { fd = some 1; buf = replicate 448 7 ++ replicate 64 0; len = 348 },
      replicate 100 7,
    )
unfolding writer_write write_loop turn writer_flush shift poke
first_part = refl

-- Closed then, it writes 100 bytes more and answers 0, though 248 bytes are left.
abbrev close : Option ℕ → Bytes → Option ℕ × Bytes
close fd out = (some 0, out)

lost :
    writer_close write_some close
      (record { fd = some 1; buf = replicate 448 7 ++ replicate 64 0; len = 348 })
      (replicate 100 7)
    ≡ ret (
      some 0,
      record { fd = none; buf = replicate 448 7 ++ replicate 64 0; len = 248 },
      replicate 200 7,
    )
unfolding writer_close writer_flush shift poke
lost = refl

writer_write_lem_example :
    (done : Bool) × (w' : Writer) × (out' : Bytes) × (writer_write write_some new_writer
        (replicate 448 7)
        []
      ≡ ret (done, w', out'))
    × Ended write_some (λ k. k) some_answers done [] (replicate 448 7) w' out'
writer_write_lem_example =
    writer_write_lem write_some (λ k. k) some_answers new_writer [] [] (replicate 448 7)
      new_writer-Accepts
