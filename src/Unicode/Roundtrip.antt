-- ===== src/Unicode/Roundtrip.antt =====
-- `utf8decode` of pkg/rbase/unicode.c reads back what UTF-8 writes.
use ckit.Base.{
  ℕ, ◌+◌, ◌/◌, ◌%◌, ◌^◌, ◌<◌, ◌≡◌, Bytes, [], ◌∷◌, ◌++◌, length, ltb, if◌then◌else◌, ret, arith,
}
use ckit.Unicode.{utf8decode}

-- UTF-8, as RFC 3629 describes it, for all numbers of up to 21 bits.
unfoldable pub utf8 : ℕ → Bytes
utf8 r =
    if ltb r 0x80
    then r ∷ []
    else if ltb r 0x800
    then (0xC0 + r / 64) ∷ (0x80 + r % 64) ∷ []
    else if ltb r 0x10000
    then (0xE0 + r / 2 ^ 12) ∷ (0x80 + r / 64 % 64) ∷ (0x80 + r % 64) ∷ []
    else (0xF0 + r / 2 ^ 18)
      ∷ (0x80 + r / 2 ^ 12 % 64)
      ∷ (0x80 + r / 64 % 64)
      ∷ (0x80 + r % 64)
      ∷ []

-- `utf8decode` of a character of up to 21 bits in UTF-8, whatever stands behind it, answers with the
-- character and with how many bytes it has.
pub utf8decode-utf8 :
    (r : ℕ) (rest : Bytes)
    → r < 2 ^ 21
    → utf8decode (utf8 r ++ rest) (length (utf8 r ++ rest)) ≡ ret (r, length (utf8 r))
unfolding utf8decode utf8
utf8decode-utf8 r rest h = ground (arith, h)
