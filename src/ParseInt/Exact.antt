-- ===== src/ParseInt/Exact.antt =====
-- `_parseu64` and its callers against the value of the text.
use native.Mathlib.Nat.{mul-le-mul_right, div-add-mod'}
use native.Mathlib.Decide.{dec_lt}
use ckit.Base.{
  ℕ, suc, ◌+◌, ◌*◌, ◌/◌, ◌%◌, ◌≤◌, ◌<◌, ◌≡◌, refl, ap, ◌∙◌, true, false, ◌&&◌, ◌||◌, Option, none,
  some, List, [], ◌∷◌, Bytes, ltb, leb, ◌==◌, if◌then◌else◌, arith, ret, panic, ◌≢◌, ◌⊎◌, inl, inr,
  Option-cases, length, ◌++◌, Outcome, fault, ◌>>=◌,
}
use ckit.Base.Words.{max_u64, max_u32}
use ckit.ParseInt.{
  Any, no_digits, fits, too_big, digit, overflows, parse_loop, finish, parse_to, parse_u32,
}
use ckit.ParseInt.Spec.{digits, value, bounded, behind}

-- Every further digit leaves the number at least as large.
le-value : (base n : ℕ) (ds : List ℕ) → 1 ≤ base → n ≤ value base n ds
le-value base n [] h = omega arith
le-value base n (d ∷ ds) h =
    let more : n ≤ n * base = grind arith in omega (arith, more, le-value base (n * base + d) ds h)

-- The value behind `n`, if it is at most `cutoff`, with the bytes `more` behind the text.
abbrev bounded_from : ℕ → ℕ → ℕ → Bytes → Option (List ℕ) → Outcome (Option ℕ)
bounded_from base cutoff n more none = ret none
bounded_from base cutoff n [] (some ds) = fault
bounded_from base cutoff n (m ∷ more) (some ds) =
    ret (if leb (value base n ds) cutoff then some (value base n ds) else none)

-- The same, where the range is left.
abbrev past_range : Bytes → Option (List ℕ) → Outcome (Option ℕ)
past_range [] (some ds) = fault
past_range more ds = ret none

mul_step : (a b base : ℕ) → a < b → a * base + base ≤ b * base
mul_step a b base h = omega (arith, mul-le-mul_right {m = suc a} {n = b} base h)

-- A number below `base` times `q` and one more digit, against `q * base + r`.
overflows_digits :
    (base q r acc c cutoff : ℕ)
    → r < base
    → c < base
    → q * base + r ≡ cutoff
    → let test = ltb q acc || (acc == q && ltb r c) in
      ((test ≡ true) × (cutoff < acc * base + c)) ⊎ ((test ≡ false) × (acc * base + c ≤ cutoff))
overflows_digits base q r acc c cutoff hr hc e = elim (dec_lt q acc) [
  | yes a ↦ ground (arith, mul_step q acc base a)
  | no a ↦ elim (dec_lt acc q) [
    | yes b ↦ ground (arith, mul_step acc q base b)
    | no b ↦ let same : acc ≡ q = omega arith in ground (arith, ap (λ k. k * base) same)
  ]
]

module _ (base cutoff : ℕ) (base_pos : 1 ≤ base) (more : Bytes) where
  -- The loop and what comes of its answer.
  abbrev loop : Bytes → Any → ℕ → Outcome (Option ℕ)
  loop s any acc = do
    r ← parse_loop base (cutoff / base) (cutoff % base) (length s) (s ++ more) any acc
    ret (finish r)

  finish-too_big : (s : Bytes) (acc : ℕ) → loop s too_big acc ≡ past_range more (digits base s)
  unfolding parse_loop finish overflows digits
  finish-too_big [] acc = past_end more
    where
      past_end :
          (bs : Bytes)
          → (parse_loop base (cutoff / base) (cutoff % base) 0 bs too_big acc >>= λ r.
              ret (finish r))
            ≡ past_range bs (some [])
      past_end [] = refl
      past_end (b ∷ bs) = refl
  finish-too_big (p ∷ s) acc = ground (arith, finish-too_big s acc)

  -- The test of the loop asks whether one more digit leaves the range.
  overflows_cases :
      (acc c : ℕ)
      → c < base
      → ((overflows base (cutoff / base) (cutoff % base) fits acc c ≡ true)
          × (cutoff < acc * base + c))
        ⊎ ((overflows base (cutoff / base) (cutoff % base) fits acc c ≡ false)
            × (acc * base + c ≤ cutoff))
  unfolding overflows
  overflows_cases acc c h =
      overflows_digits base (cutoff / base) (cutoff % base) acc c cutoff (omega arith) h
        (div-add-mod' cutoff base)

  bounded_from-past :
      {n : ℕ} (o : Option (List ℕ))
      → cutoff < n
      → bounded_from base cutoff n more o ≡ past_range more o
  bounded_from-past none h = ground arith
  bounded_from-past {n} (some ds) h = ground (arith, le-value base n ds base_pos)

  finish-fits :
      (s : Bytes) (acc : ℕ)
      → cutoff ≤ max_u64
      → acc ≤ cutoff
      → loop s fits acc ≡ bounded_from base cutoff acc more (digits base s)
  unfolding parse_loop digits finish
  finish-fits [] acc hc ha = ground arith
  finish-fits (p ∷ s) acc hc ha = elim (Option-cases (digit p)) [
    | inl e ↦ ground arith
    | inr (c, e) ↦ elim (dec_lt c base) [
      | yes h ↦ elim (overflows_cases acc c h) [
        | inl (over, past) ↦
            ground (arith, finish-too_big s acc, bounded_from-past (digits base s) past)
        | inr (keeps, within) ↦ ground (arith, finish-fits s (acc * base + c) hc within)
      ]
      | no h ↦ ground arith
    ]
  ]

  finish-start :
      (s : Bytes) → cutoff ≤ max_u64 → loop s no_digits 0 ≡ behind base cutoff more (digits base s)
  unfolding parse_loop finish digits bounded overflows behind
  finish-start [] hc = empty more
    where
      empty :
          (bs : Bytes)
          → (parse_loop base (cutoff / base) (cutoff % base) 0 bs no_digits 0 >>= λ r.
              ret (finish r))
            ≡ behind base cutoff bs (some [])
      empty [] = refl
      empty (b ∷ bs) = refl
  finish-start (p ∷ s) hc =
      finish-fits (p ∷ s) 0 hc (omega arith) ∙ start more (digits base (p ∷ s)) nonempty
    where
      nonempty : digits base (p ∷ s) ≢ some []
      nonempty = ground arith

      start :
          (bs : Bytes) (o : Option (List ℕ))
          → o ≢ some []
          → bounded_from base cutoff 0 bs o ≡ behind base cutoff bs o
      start bs none ne = ground arith
      start bs (some []) ne = absurd (ne refl)
      start [] (some (d ∷ ds)) ne = refl
      start (b ∷ bs) (some (d ∷ ds)) ne = refl

pub parse_to_lem :
    (s more : Bytes) (base cutoff : ℕ)
    → cutoff ≤ max_u64
    → parse_to (s ++ more) (length s) base cutoff
      ≡ (if leb 2 base && leb base 36 then behind base cutoff more (digits base s) else panic)
unfolding parse_to
parse_to_lem s more base cutoff hc = elim (dec_lt base 2) [
  | yes small ↦ ground arith
  | no large ↦ ground (arith, finish-start base cutoff (omega arith) more s hc)
]

bounded_fits :
    (base cutoff : ℕ) (o : Option (List ℕ)) {v : ℕ} → bounded base cutoff o ≡ some v → v ≤ cutoff
unfolding bounded
bounded_fits base cutoff none h = cc
bounded_fits base cutoff (some []) h = cc
bounded_fits base cutoff (some (d ∷ ds)) h = ground arith

behind-byte :
    (base cutoff b : ℕ) (more : Bytes) (o : Option (List ℕ))
    → behind base cutoff (b ∷ more) o ≡ ret (bounded base cutoff o)
unfolding behind
behind-byte base cutoff b more none = refl
behind-byte base cutoff b more (some ds) = refl

-- With a byte behind the text, in a base from 2 to 36.
pub parse_to-byte :
    (s more : Bytes) (b base cutoff : ℕ)
    → 2 ≤ base
    → base ≤ 36
    → cutoff ≤ max_u64
    → parse_to (s ++ b ∷ more) (length s) base cutoff ≡ ret (bounded base cutoff (digits base s))
parse_to-byte s more b base cutoff lo hi hc = ground (
  arith,
  parse_to_lem s (b ∷ more) base cutoff hc,
  behind-byte base cutoff b more (digits base s),
)

-- `parseu32`, in a base from 2 to 36 and of a text with a byte behind it, answers with the number that
-- the text spells if the text is one or more digits below the base and the number fits a u32, and
-- fails on every other text: the conversion to u32 cuts nothing off.
pub parse_u32_lem :
    (s more : Bytes) (b base : ℕ)
    → 2 ≤ base
    → base ≤ 36
    → parse_u32 (s ++ b ∷ more) (length s) base ≡ ret (bounded base max_u32 (digits base s))
unfolding parse_u32
parse_u32_lem s more b base lo hi =
    let run = parse_to-byte s more b base max_u32 lo hi (omega arith) in
    elim (Option-cases (bounded base max_u32 (digits base s))) [
      | inl e ↦ ground (arith, run)
      | inr (v, e) ↦ ground (arith, run, bounded_fits base max_u32 (digits base s) e)
    ]
