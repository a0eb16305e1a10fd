-- ===== src/ParseInt/Spec.antt =====
-- What a text in a base stands for, with no bound and no machine word.
use ckit.Base.{
  ℕ, ◌+◌, ◌*◌, Outcome, ret, fault, Option, none, some, List, [], ◌∷◌, Bytes, ltb, leb,
  if◌then◌else◌,
}
use ckit.ParseInt.{digit}

-- The digits of a text, if every byte is a digit below the base.
unfoldable pub digits : ℕ → Bytes → Option (List ℕ)
digits base [] = some []
digits base (p ∷ s) = elim (digit p) [
  | none ↦ none
  | some c ↦
      if ltb c base then elim (digits base s) [ none ↦ none | some ds ↦ some (c ∷ ds) ] else none
]

-- The number that digits spell behind `n`.
abbrev pub value : ℕ → ℕ → List ℕ → ℕ
value base n [] = n
value base n (d ∷ ds) = value base (n * base + d) ds

-- The number if there is a digit and it is at most `cutoff`.
unfoldable pub bounded : ℕ → ℕ → Option (List ℕ) → Option ℕ
bounded base cutoff none = none
bounded base cutoff (some []) = none
bounded base cutoff (some (d ∷ ds)) =
    let v = value base 0 (d ∷ ds) in if leb v cutoff then some v else none

-- What is to come of a text with these digits before the bytes `more`: a text of digits is read to its
-- end, and the byte behind it as well.
unfoldable pub behind : ℕ → ℕ → Bytes → Option (List ℕ) → Outcome (Option ℕ)
unfolding bounded
behind base cutoff [] (some ds) = fault
behind base cutoff more ds = ret (bounded base cutoff ds)
