-- ===== src/ParseInt.antt =====
-- pkg/rbase/parseint.c and parseint.h: integers read from text in a base from 2 to 36.
-- A text is `z` bytes of memory: the list of the bytes from the pointer on, to the last one that may be
-- read. To read past them faults. A pointer argument for the result is an option beside the
-- answer: `none` is `return false`, which leaves the result alone.
pub mod Spec
pub mod Exact
pub mod Sign
mod Tests
use ckit.Base.{
  ℕ, zero, suc, ◌+◌, ◌-◌, ◌*◌, ◌/◌, ◌%◌, ◌^◌, Bool, true, false, ◌&&◌, ◌||◌, Option, none, some,
  List, [], ◌∷◌, Bytes, ltb, leb, ◌==◌, if◌then◌else◌, Outcome, ret, fault, ◌>>=◌, ◌>>◌, assert,
}
use ckit.Base.Words.{u32, u64, sub_u64, max_u64, max_u32}

-- The variable `any`: 0 before the first digit, 1 behind a digit that fits, -1 past the range.
pub data Any : Type 0 where
  no_digits : Any
  fits : Any
  too_big : Any

-- The value of a digit, by the first branches of the loop.
unfoldable pub digit : ℕ → Option ℕ
digit c =
    if leb b'0' c && leb c b'9'
    then some (c - b'0')
    else if leb b'A' c && leb c b'Z'
    then some (c - (b'A' - 10))
    else if leb b'a' c && leb c b'z'
    then some (c - (b'a' - 10))
    else none

module _ (base cutoff cutlim : ℕ) where
  -- Whether the digit `c` behind `acc` leaves the range, or an earlier one did.
  pub overflows : Any → ℕ → ℕ → Bool
  overflows too_big acc c = true
  overflows _ acc c = ltb cutoff acc || (acc == cutoff && ltb cutlim c)

  -- The loop of `_parseu64`, with the variables `any` and `acc`, `z` bytes before `end`. Each turn,
  -- also the last, begins with a read of `*s`.
  pub parse_loop : ℕ → Bytes → Any → ℕ → Outcome (Option (record { any : Any; acc : ℕ }))
  unfolding digit overflows
  parse_loop z [] any acc = fault
  parse_loop zero (p ∷ s) any acc = ret (some (record { any = any; acc = acc }))
  parse_loop (suc z) (p ∷ s) any acc = elim (digit p) [
    | none ↦ ret none
    | some c ↦
        let on = parse_loop z s too_big acc in
        let go = parse_loop z s fits (u64 (u64 (acc * base) + c)) in
        if leb base c then ret none else if overflows any acc c then on else go
  ]

pub finish : Option (record { any : Any; acc : ℕ }) → Option ℕ
finish none = none
finish (some r) = elim r.any [ fits ↦ some r.acc | _ ↦ none ]

-- `_parseu64`
pub parse_to : Bytes → ℕ → ℕ → ℕ → Outcome (Option ℕ)
unfolding parse_loop finish
parse_to s z base cutoff = do
  assert (leb 2 base && leb base 36)
  r ← parse_loop base (cutoff / base) (cutoff % base) z s no_digits 0
  ret (finish r)

-- `parseu64`
unfoldable pub parse_u64 : Bytes → ℕ → ℕ → Outcome (Option ℕ)
unfolding parse_to
parse_u64 s z base = parse_to s z base max_u64

-- `parseu32`; a failed parse leaves `r` unset, and what is stored then has no meaning.
pub parse_u32 : Bytes → ℕ → ℕ → Outcome (Option ℕ)
unfolding parse_to
parse_u32 s z base = do
  r ← parse_to s z base max_u32
  ret (elim r [ none ↦ none | some v ↦ some (u32 v) ])

-- The first loop of `parsei64`: where `ptr` and `z` end.
unfoldable pub skip_dashes : Bytes → ℕ → Outcome (Bytes × ℕ)
skip_dashes s zero = ret (s, zero)
skip_dashes [] (suc z) = fault
skip_dashes (c ∷ s) (suc z) =
    let rest = skip_dashes s z in if c == b'-' then rest else ret (c ∷ s, suc z)

-- The test of `*ptr`
pub starts_with_dash : Bytes → Outcome Bool
starts_with_dash [] = fault
starts_with_dash (c ∷ s) = ret (c == b'-')

-- The end of `parsei64`: the result, as the bit pattern of an `i64`, or no result.
pub with_sign : Bytes → Option ℕ → Outcome (Option ℕ)
unfolding starts_with_dash
with_sign ptr none = ret none
with_sign ptr (some v) = do
  dash ← starts_with_dash ptr
  ret (some (if dash then sub_u64 0 v else v))

-- `parsei64`
pub parse_i64 : Bytes → ℕ → ℕ → Outcome (Option ℕ)
unfolding parse_to skip_dashes with_sign
parse_i64 s z base = do
  (ptr, rest) ← skip_dashes s z
  r ← parse_to ptr rest base max_u64
  with_sign ptr r
