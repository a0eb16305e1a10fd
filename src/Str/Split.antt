-- ===== src/Str/Split.antt =====
-- `str_splitn` of pkg/rbase/str.c, and its callers of str.h: the parts of a text between delimiters.
use ckit.Base.{
  ℕ, zero, suc, ◌+◌, ◌≤◌, ◌<◌, ◌≡◌, refl, sym, ap, ◌∙◌, Option, none, some, List, [], ◌∷◌, ◌++◌,
  Bytes, length, take, drop, ltb, ◌==◌, if◌then◌else◌, Outcome, ret, fault, ◌>>=◌, arith,
  length-drop, take_all,
}
use native.Mathlib.Decide.{ℕ_discrete, dec_lt}
use ckit.Base.Slices.{drop-drop}

-- `StrSlice`: `p` as an offset, `none` for NULL.
pub record StrSlice : Type 0 where
  pub p : Option ℕ
  pub len : ℕ

-- The loop of `str_splitn`: how many bytes stand in front of a delimiter, or of the end.
unfoldable pub scan : ℕ → Bytes → ℕ
scan delim [] = 0
scan delim (c ∷ s) = let more = scan delim s in if c == delim then 0 else suc more

-- Where `str_splitn` starts.
abbrev pub next : StrSlice → ℕ
next st = elim st.p [ none ↦ 0 | some p ↦ p + st.len + 1 ]

-- `str_splitn`: the offset of the part, and the slice.
unfoldable pub splitn : StrSlice → ℕ → Bytes → Option ℕ × StrSlice
splitn st delim s =
    let p = next st in
    if ltb (length s) p
    then (none, record { p = some p; len = st.len })
    else (some p, record { p = some p; len = scan delim (drop p s) })

-- The loop of a caller, as the comment of str.h has it: the parts until NULL. Fuel for the calls.
unfoldable pub split_all : ℕ → ℕ → Bytes → StrSlice → Outcome (List Bytes)
split_all zero delim s st = fault
split_all (suc fuel) delim s st =
    let (r, st') = splitn st delim s in
    let rest = split_all fuel delim s st' in
    elim r [ none ↦ ret [] | some p ↦ (rest >>= λ parts. ret (take st'.len (drop p s) ∷ parts)) ]

-- The parts with a delimiter between each two.
unfoldable pub join : ℕ → Bytes → List Bytes → Bytes
join delim part [] = part
join delim part (more ∷ parts) = part ++ delim ∷ join delim more parts

abbrev pub Without : ℕ → Bytes → Type 0
Without delim [] = Unit
Without delim (c ∷ s) = (¬ (c ≡ delim)) × Without delim s

abbrev pub AllWithout : ℕ → List Bytes → Type 0
AllWithout delim [] = Unit
AllWithout delim (part ∷ parts) = Without delim part × AllWithout delim parts

scan-Without : (delim : ℕ) (s : Bytes) → Without delim (take (scan delim s) s)
unfolding scan
scan-Without delim [] = tt
scan-Without delim (c ∷ s) = elim (ℕ_discrete c delim) [
  | yes e ↦ ground (arith, e)
  | no ne ↦ ground (arith, ne, scan-Without delim s)
]

scan-le : (delim : ℕ) (s : Bytes) → scan delim s ≤ length s
unfolding scan
scan-le delim [] = omega arith
scan-le delim (c ∷ s) = ground (arith, scan-le delim s)

-- What stands behind the part.
scan-split :
    (delim : ℕ) (s : Bytes)
    → scan delim s < length s
    → take (scan delim s) s ++ delim ∷ drop (suc (scan delim s)) s ≡ s
unfolding scan
scan-split delim [] h = absurd (omega arith)
scan-split delim (c ∷ s) h = elim (ℕ_discrete c delim) [
  | yes e ↦ ground (arith, e)
  | no ne ↦ ground (arith, ne, scan-split delim s)
]

split_all-end :
    (fuel delim : ℕ) (s : Bytes) (st : StrSlice)
    → length s < next st
    → 1 ≤ fuel
    → split_all fuel delim s st ≡ ret []
unfolding split_all splitn
split_all-end zero delim s st past some_fuel = absurd (omega arith)
split_all-end (suc fuel) delim s st past some_fuel = ground (arith, past)

split_all_lem :
    (fuel delim : ℕ) (s : Bytes) (st : StrSlice) (i : ℕ)
    → next st ≡ i
    → i ≤ length s
    → length s + 2 ≤ fuel + i
    → (part : Bytes) × (parts : List Bytes) × (split_all fuel delim s st ≡ ret (part ∷ parts))
      × (join delim part parts ≡ drop i s)
      × AllWithout delim (part ∷ parts)
unfolding split_all splitn join
split_all_lem zero delim s st i at here enough = absurd (omega arith)
split_all_lem (suc fuel) delim s st i at here enough =
    let rest = drop i s in
    let n = scan delim rest in
    let part = take n rest in
    let long = length-drop i s in
    let le = scan-le delim rest in
    let st' : StrSlice = record { p = some i; len = n } in
    elim (dec_lt n (length rest)) [
      | yes more ↦
          let (p, ps, runs, joined, good) =
            split_all_lem fuel delim s st' (i + n + 1) refl (omega (arith, long)) (omega arith) in
          let behind : drop (suc n) rest ≡ drop (i + n + 1) s =
            drop-drop (suc n) i s ∙ ap (λ k. drop k s) (omega arith) in
          (
            part,
            p ∷ ps,
            ground (arith, at, runs),
            ap (λ k. part ++ delim ∷ k) (joined ∙ sym behind) ∙ scan-split delim rest more,
            (scan-Without delim rest, good),
          )
      | no full ↦ (
        part,
        [],
        ground (arith, at, split_all-end fuel delim s st' (omega (arith, long)) (omega arith)),
        take_all n rest (omega arith),
        (scan-Without delim rest, tt),
      )
    ]

-- A caller that starts with an empty slice and calls `str_splitn` until NULL gets parts without a
-- delimiter in them, one at least, after at most one call for each byte and two more. With a delimiter
-- between each two the parts are the text.
pub splitn_lem :
    (delim : ℕ) (s : Bytes)
    → (part : Bytes) × (parts : List Bytes) × (split_all
          (length s + 2)
          delim
          s
          (record { p = none; len = 0 })
        ≡ ret (part ∷ parts))
      × (join delim part parts ≡ s)
      × AllWithout delim (part ∷ parts)
splitn_lem delim s =
    split_all_lem (length s + 2) delim s (record { p = none; len = 0 }) 0 refl (omega arith)
      (omega arith)
