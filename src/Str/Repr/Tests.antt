-- ===== src/Str/Repr/Tests.antt =====
-- `str_appendrepr` by evaluation, and the theorem at an input that meets its hypotheses.
use ckit.Base.{
  ◌≡◌, refl, [], ◌∷◌, ◌++◌, Bytes, codes, some, none, Option, Outcome, panic, replicate, ret, fault,
  arith, ◌>>=◌,
}
use ckit.Base.Buffer.{poke}
use ckit.Str.{Str, makeroom, grown_cap, resize, setlen}
use ckit.Str.Holds.{Holds, contents}
use ckit.Str.Examples.{zeros, abc, abc-Holds}
use ckit.Str.Repr.{put_escape, put_char, break_line, next_line, repr_loop, repr_retry, appendrepr}
use ckit.Str.Repr.Read.{
  read_literal, feed_all, feed, feed_plain, feed_escaped, hex_value, hex_byte, finish,
  without_breaks,
}
use ckit.Str.Repr.Retry.{appendrepr_lem}

-- A quotation mark, a line break, a byte that is not printed and then a hexadecimal digit.
abbrev mixed : Bytes
mixed = 34 ∷ 10 ∷ 1 ∷ b'f' ∷ b'g' ∷ []

-- The digit is escaped, too.
mixed_test :
    (do s ← appendrepr zeros abc mixed; ret (contents s))
    ≡ ret
        (codes "abc" ++ 92 ∷ 34 ∷ 92 ∷ b'n' ∷ (92 ∷ codes "x01") ++ (92 ∷ codes "x66") ++ b'g' ∷ [])
unfolding appendrepr repr_retry repr_loop put_char put_escape break_line next_line makeroom
    grown_cap resize setlen poke
mixed_test = refl

-- A backslash and an `n` give the text that a line break gives.
backslash_test :
    (do s ← appendrepr zeros abc (92 ∷ b'n' ∷ []); ret (contents s))
    ≡ (do s ← appendrepr zeros abc (10 ∷ []); ret (contents s))
unfolding appendrepr repr_retry repr_loop put_char put_escape break_line next_line makeroom
    grown_cap resize setlen poke
backslash_test = refl

-- A byte of 128 or more is a negative `char`.
negative_test : appendrepr zeros abc (200 ∷ []) ≡ fault
unfolding appendrepr repr_retry repr_loop makeroom grown_cap resize poke break_line
negative_test = refl

-- A line break ends a string literal.
read_test :
    (read_literal (92 ∷ codes "x0A" ++ 10 ∷ codes "g") ≡ none)
    × (read_literal (without_breaks (92 ∷ codes "x0A" ++ 10 ∷ codes "g")) ≡ some (10 ∷ b'g' ∷ []))
unfolding read_literal feed_all feed feed_plain feed_escaped hex_value hex_byte finish
    ckit.ParseInt.digit
read_test = (refl, refl)

-- From 81 bytes on there is a break, and the text as it is written is no string literal.
abbrev long_text : Outcome Str → Option Bytes
long_text (ret s) = read_literal (contents s)
long_text panic = none
long_text fault = none

broken_test :
    (long_text (appendrepr zeros abc (replicate 80 b'g')) ≡ some (codes "abc" ++ replicate 80 b'g'))
    × (long_text (appendrepr zeros abc (replicate 81 b'g')) ≡ none)
unfolding appendrepr repr_retry repr_loop put_char put_escape break_line next_line makeroom
    grown_cap resize setlen poke read_literal feed_all feed feed_plain finish
broken_test = (refl, refl)

appendrepr_lem_example :
    (s : Str) × (text : Bytes) × (appendrepr zeros abc mixed ≡ ret s)
    × Holds s (codes "abc" ++ text)
    × (read_literal (without_breaks text) ≡ some mixed)
appendrepr_lem_example =
    appendrepr_lem zeros abc (codes "abc") mixed abc-Holds (ground arith) (omega arith)
