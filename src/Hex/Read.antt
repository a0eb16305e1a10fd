-- ===== src/Hex/Read.antt =====
-- Hexadecimal digits are read back, by the digits of `_parseu64`.
use ckit.Base.{
  ℕ, ◌+◌, ◌*◌, ◌/◌, ◌%◌, ◌≤◌, ◌<◌, ◌≡◌, refl, ap, ◌∙◌, inl, inr, Bool, true, false, ◌==◌, Option,
  none, some, Bytes, ◌++◌, [], ◌∷◌, length, get_or, drop, arith, ret, Option-cases,
}
use ckit.Base.Tables.{every, test-of-every}
use ckit.Base.Buffer.{poke_lem}
use ckit.ParseInt.{digit}
use ckit.Hex.{spell, lower, fmthex}

-- Each two digits as a byte.
unfoldable pub read_hex : Bytes → Option Bytes
read_hex [] = some []
read_hex (hi ∷ []) = none
read_hex (hi ∷ lo ∷ text) =
    let rest = read_hex text in
    elim (digit hi) [
      | none ↦ none
      | some a ↦ elim (digit lo) [
        | none ↦ none
        | some b ↦ elim rest [ none ↦ none | some bytes ↦ some ((a * 16 + b) ∷ bytes) ]
      ]
    ]

abbrev pub AllBytes : Bytes → Type 0
AllBytes [] = Unit
AllBytes (b ∷ bytes) = (b < 256) × AllBytes bytes

abbrev same_digit : Bytes → ℕ → Bool
same_digit hex d = elim (digit (get_or hex d 0)) [ none ↦ false | some c ↦ c == d ]

-- An array of the sixteen digits.
abbrev pub IsAlphabet : Bytes → Type 0
IsAlphabet hex = every (same_digit hex) 16 ≡ true

pub lower-IsAlphabet : IsAlphabet lower
unfolding every digit
lower-IsAlphabet = refl

digit-get : (hex : Bytes) (d : ℕ) → IsAlphabet hex → d < 16 → digit (get_or hex d 0) ≡ some d
digit-get hex d a h =
    let same = test-of-every (same_digit hex) 16 d h a in
    elim (Option-cases (digit (get_or hex d 0))) [
      | inl e ↦ ground (arith, e, same)
      | inr (c, e) ↦ ground (arith, e, same)
    ]

pub length-spell : (hex bytes : Bytes) → length (spell hex bytes) ≡ length bytes * 2
unfolding spell
length-spell hex [] = refl
length-spell hex (b ∷ bytes) = omega (arith, length-spell hex bytes)

pub read_hex-spell :
    (hex bytes : Bytes) → IsAlphabet hex → AllBytes bytes → read_hex (spell hex bytes) ≡ some bytes
unfolding read_hex spell
read_hex-spell hex [] a p = refl
read_hex-spell hex (b ∷ bytes) a (small, p) =
    let high = digit-get hex (b / 16 % 16) a (omega arith) in
    let low = digit-get hex (b % 16) a (omega arith) in
    ground (arith, high, low, read_hex-spell hex bytes a p)

-- `fmthex` fills the first bytes with digits that stand for the input, and leaves the rest.
pub fmthex_lem :
    (out indata : Bytes)
    → AllBytes indata
    → length indata * 2 ≤ length out
    → (fmthex out indata ≡ ret (spell lower indata ++ drop (length indata * 2) out))
      × (read_hex (spell lower indata) ≡ some indata)
unfolding fmthex
fmthex_lem out indata p room =
    let size = length-spell lower indata in
    (
      poke_lem [] out (spell lower indata) 0 refl (omega (arith, size))
          ∙ ap (λ k. ret (spell lower indata ++ drop k out)) size,
      read_hex-spell lower indata lower-IsAlphabet p,
    )
