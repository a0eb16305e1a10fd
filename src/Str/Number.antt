-- ===== src/Str/Number.antt =====
-- `str_appendu64`: which numbers fit its buffer, and that `parseu64` reads back what it appends.
use native.Mathlib.Decide.{ℕ_discrete}
use mathlib.Core.List.{reverse}
use ckit.Base.{
  ℕ, ◌+◌, ◌^◌, ◌≤◌, ◌<◌, ◌≡◌, refl, [], ◌∷◌, ◌++◌, Bytes, length, map, arith, ret, fault, some,
  length-reverse,
}
use ckit.Base.Words.{u32, max_u64}
use ckit.ParseInt.{parse_u64}
use ckit.ParseInt.Exact.{parse_to-byte}
use ckit.Str.{Str, Malloc, appendu64}
use ckit.Str.Holds.{Holds}
use ckit.Str.Grow.{makeroom_lem}
use ckit.Str.Append.{stored, stored-Holds, poke_both}
use ckit.Str.Digits.{
  length-put_digits, numeral, chr, put_digits_lem, put_digits-fault, numeral-Below, digits-map,
  bounded-numeral,
}

-- The text of `v`, as `str_appendu64` writes it.
abbrev pub text : ℕ → ℕ → Bytes
text base v = map chr (numeral 20 base v [])

pub parse_u64-text :
    (base v c : ℕ) (more : Bytes)
    → 2 ≤ base
    → base ≤ 36
    → v < base ^ 20
    → v ≤ max_u64
    → parse_u64 (text base v ++ c ∷ more) (length (text base v)) base ≡ ret (some v)
unfolding parse_u64
parse_u64-text base v c more lo hi fits small = ground (
  arith,
  parse_to-byte (text base v) more c base max_u64 lo hi,
  digits-map base (numeral 20 base v []) hi (numeral-Below 20 base v [] (omega arith) tt),
  bounded-numeral 19 base v max_u64 (omega arith) fits small,
)

module _ (m : Malloc) (s : Str) (xs : Bytes) where
  -- `str_appendu64` of a number below `base ^ 20`, in a base from 2 to 36, returns, as long as the size
  -- stays below 2 ^ 32: the number fits the buffer. The string then holds the old bytes and a text from
  -- which `parseu64` reads the number back, whatever bytes stand behind it, if one does.
  pub parse_u64-appendu64 :
      (v base : ℕ)
      → Holds s xs
      → 2 ≤ base
      → base ≤ 36
      → v < base ^ 20
      → v ≤ max_u64
      → s.len + 29 < 2 ^ 32
      → (s' : Str) × (d : Bytes) × (appendu64 m s v base ≡ ret s')
        × Holds s' (xs ++ d)
        × ((c : ℕ) (more : Bytes) → parse_u64 (d ++ c ∷ more) (length d) base ≡ ret (some v))
  unfolding appendu64
  parse_u64-appendu64 v base h lo hi fits small room =
      let (buf, runs, spells) = put_digits_lem 19 base v [] [] (omega arith) fits refl in
      let short = length-put_digits 20 base v [] runs in
      let (s2, e, r, keeps) = makeroom_lem m s xs (length buf) h (omega (arith, short)) in
      let size = length-reverse buf in
      let both = poke_both r (reverse buf) size s2.len (u32 (s2.len + length buf)) in
      (
        stored s2 xs (reverse buf) r,
        reverse buf,
        ground (arith, runs, short, e, r.room, r.small, keeps, size, both),
        stored-Holds r (reverse buf) size,
        λ c more. rw spells (parse_u64-text base v c more lo hi fits small),
      )

-- In a base up to 62, `str_appendu64` stores a number from `base ^ 20` on past the end of its buffer
-- `buf`; so it does with every number but 0 in base 1, and in base 0 it divides by zero.
pub appendu64-fault :
    (m : Malloc) (s : Str) (v base : ℕ) → base ≤ 62 → base ^ 20 ≤ v → appendu64 m s v base ≡ fault
unfolding appendu64
appendu64-fault m s v base hi le = elim (ℕ_discrete base 0) [
  | yes z ↦ ground arith
  | no nz ↦ ground (arith, put_digits-fault 20 base v [] (omega arith) le)
]
