-- ===== src/Str/Digits.antt =====
-- The digits that the loop of `str_appendu64` makes, and what the loop of `_parseu64` makes of them.
use native.Mathlib.Nat.{
  pow-suc, pow-zero, div-lt_iff_lt-mul, le-div_iff_mul-le, div-add-mod', one-le-pow, mod-lt,
}
use native.Mathlib.Decide.{ℕ_discrete}
use mathlib.Core.List.{reverse, reverse-append}
use ckit.Base.{
  Bool, ℕ, zero, suc, ◌+◌, ◌*◌, ◌/◌, ◌%◌, ◌^◌, ◌≤◌, ◌<◌, ◌≡◌, ◌≢◌, refl, ap, ◌∙◌, List, [], ◌∷◌,
  ◌++◌, Bytes, length, get_or, map, ◌==◌, if◌then◌else◌, arith, ret, fault, true, some, none, false,
  Option-cases, inl, inr, length-append,
}
use ckit.Base.Tables.{every, test-of-every}
use ckit.ParseInt.{digit}
use ckit.ParseInt.Spec.{digits, value, bounded}
use ckit.Str.{put_digits, chars}

-- The digits of `v`, the most significant first, in front of `acc`.
pub numeral : ℕ → ℕ → ℕ → List ℕ → List ℕ
numeral zero base v acc = acc
numeral (suc room) base v acc =
    let more = numeral room base (v / base) ((v % base) ∷ acc) in
    if v / base == 0 then (v % base) ∷ acc else more

abbrev pub chr : ℕ → ℕ
chr d = get_or chars d 0

smaller : (base v k : ℕ) → 1 ≤ base → v < base ^ suc k → v / base < base ^ k
smaller base v k h lt = (div-lt_iff_lt-mul h).1 (rw (pow-suc base k) at lt)

larger : (base v k : ℕ) → 1 ≤ base → base ^ suc k ≤ v → base ^ k ≤ v / base
larger base v k h le = (le-div_iff_mul-le h).1 (rw (pow-suc base k) at le)

last_digit :
    (base v : ℕ) (buf : Bytes) (acc : List ℕ)
    → reverse buf ≡ map chr acc
    → reverse (buf ++ chr (v % base) ∷ []) ≡ map chr ((v % base) ∷ acc)
last_digit base v buf acc e =
    reverse-append buf (chr (v % base) ∷ []) ∙ ap (λ k. chr (v % base) ∷ k) e

-- The loop stores the digits in reverse.
pub put_digits_lem :
    (room base v : ℕ) (buf : Bytes) (acc : List ℕ)
    → 1 ≤ base
    → v < base ^ suc room
    → reverse buf ≡ map chr acc
    → (out : Bytes) × (put_digits (suc room) base v buf ≡ ret out)
      × (reverse out ≡ map chr (numeral (suc room) base v acc))
unfolding put_digits numeral
put_digits_lem zero base v buf acc h lt e =
    let z : v / base < 1 = omega (arith, smaller base v zero h lt, pow-zero base) in
    (buf ++ chr (v % base) ∷ [], ground arith, ground (arith, last_digit base v buf acc e))
put_digits_lem (suc room) base v buf acc h lt e = elim (ℕ_discrete (v / base) 0) [
  | yes z ↦ (buf ++ chr (v % base) ∷ [], ground arith, ground (arith, last_digit base v buf acc e))
  | no nz ↦
      let (out, runs, spells) =
        put_digits_lem room base (v / base) (buf ++ chr (v % base) ∷ []) ((v % base) ∷ acc) h
          (smaller base v (suc room) h lt) (last_digit base v buf acc e) in
      (out, ground (arith, runs), ground (arith, spells))
]

pub put_digits-fault :
    (room base v : ℕ) (buf : Bytes)
    → 1 ≤ base
    → base ^ room ≤ v
    → put_digits room base v buf ≡ fault
unfolding put_digits
put_digits-fault zero base v buf h le = refl
put_digits-fault (suc room) base v buf h le = ground (
  arith,
  larger base v room h le,
  one-le-pow room base h,
  put_digits-fault room base (v / base) (buf ++ chr (v % base) ∷ []) h,
)

pub length-put_digits :
    (room base v : ℕ) (buf : Bytes) {out : Bytes}
    → put_digits room base v buf ≡ ret out
    → length out ≤ length buf + room
unfolding put_digits
length-put_digits zero base v buf e = cc
length-put_digits (suc room) base v buf {out} e =
    let next = buf ++ chr (v % base) ∷ [] in
    ground (
      arith,
      length-append buf (chr (v % base) ∷ []),
      length-put_digits room base (v / base) next {out = out},
    )

-- The digits stand for the number.
pub value-numeral :
    (room base v : ℕ) (acc : List ℕ)
    → 1 ≤ base
    → v < base ^ room
    → value base 0 (numeral room base v acc) ≡ value base v acc
unfolding numeral
value-numeral zero base v acc h lt = ap (λ k. value base k acc) (omega (arith, pow-zero base))
value-numeral (suc room) base v acc h lt =
    let whole = ap (λ k. value base k acc) (div-add-mod' v base) in
    elim (ℕ_discrete (v / base) 0) [
      | yes z ↦ ground (arith, z, whole, ap (λ k. value base (k * base + v % base) acc) z)
      | no nz ↦ ground (
        arith,
        whole,
        value-numeral room base (v / base) ((v % base) ∷ acc) h (smaller base v room h lt),
      )
    ]

-- Every digit is below the base.
abbrev pub Below : ℕ → List ℕ → Type 0
Below base [] = Unit
Below base (d ∷ ds) = (d < base) × Below base ds

pub numeral-Below :
    (room base v : ℕ) (acc : List ℕ)
    → 1 ≤ base
    → Below base acc
    → Below base (numeral room base v acc)
unfolding numeral
numeral-Below zero base v acc h b = b
numeral-Below (suc room) base v acc h b =
    let last = mod-lt v h in
    ground (arith, last, numeral-Below room base (v / base) ((v % base) ∷ acc) h (last, b))

abbrev same_digit : ℕ → Bool
same_digit d = elim (digit (chr d)) [ none ↦ false | some c ↦ c == d ]

digit_table : every same_digit 36 ≡ true
unfolding every digit
digit_table = refl

digit-chr : (d : ℕ) → d < 36 → digit (chr d) ≡ some d
digit-chr d h =
    let same = test-of-every same_digit 36 d h digit_table in
    elim (Option-cases (digit (chr d))) [
      | inl e ↦ ground (arith, e, same)
      | inr (c, e) ↦ ground (arith, e, same)
    ]

-- The text of digits is read back as the digits.
pub digits-map :
    (base : ℕ) (ds : List ℕ) → base ≤ 36 → Below base ds → digits base (map chr ds) ≡ some ds
unfolding digits
digits-map base [] h b = refl
digits-map base (d ∷ ds) h b =
    let spelt = digit-chr d (omega (arith, b.0)) in
    ground (arith, spelt, b.0, digits-map base ds h b.1)

pub numeral-ne-nil : (room base v d : ℕ) (acc : List ℕ) → numeral room base v (d ∷ acc) ≢ []
unfolding numeral
numeral-ne-nil zero base v d acc = cc
numeral-ne-nil (suc room) base v d acc =
    ground (arith, numeral-ne-nil room base (v / base) (v % base) (d ∷ acc))

-- A number that fits is read back from its digits.
pub bounded-numeral :
    (room base v cutoff : ℕ)
    → 1 ≤ base
    → v < base ^ suc room
    → v ≤ cutoff
    → bounded base cutoff (some (numeral (suc room) base v [])) ≡ some v
bounded-numeral room base v cutoff h lt le =
    whole (numeral (suc room) base v []) (value-numeral (suc room) base v [] h lt) some_digit
  where
    some_digit : numeral (suc room) base v [] ≢ []
    some_digit = unfold numeral in ground (arith, numeral-ne-nil room base (v / base) (v % base) [])

    whole : (ds : List ℕ) → value base 0 ds ≡ v → ds ≢ [] → bounded base cutoff (some ds) ≡ some v
    whole [] e ne = absurd (ne refl)
    whole (d ∷ ds) e ne = unfold bounded in ground (arith, e)
