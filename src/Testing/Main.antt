-- ===== src/Testing/Main.antt =====
-- `testing_main` runs the tests whose names begin with the prefix, in the order in which they were added.
use ckit.Base.{
  ℕ, ◌+◌, ◌≡◌, List, [], ◌∷◌, Option, none, some, Bytes, length, take, Bool, false, ◌==◌,
  if◌then◌else◌, Outcome, ret, fault,
}
use ckit.Testing.{TestList}

-- A name that is chosen: without a prefix every one.
abbrev pub Begins : Option Bytes → Bytes → Type 0
Begins none name = Unit
Begins (some prefix) name = take (length prefix) name ≡ prefix

-- The elements that satisfy `P`, in their order.
pub data Picked (P : ℕ → Type 0) : List ℕ → List ℕ → Type 0 where
  nothing : Picked P [] []
  keep : {t : ℕ} {ts us : List ℕ} → P t → Picked P ts us → Picked P (t ∷ ts) (t ∷ us)
  skip : {t : ℕ} {ts us : List ℕ} → ¬ P t → Picked P ts us → Picked P (t ∷ ts) us

-- None of the tests has failed yet.
abbrev pub Fresh : (ℕ → Bool) → List ℕ → Type 0
Fresh failed [] = Unit
Fresh failed (t ∷ ts) = (failed t ≡ false) × Fresh failed ts

-- How many of the tests have failed.
unfoldable pub fails : List Bool → ℕ
fails [] = 0
fails (b ∷ bs) = (if b then 1 else 0) + fails bs

module _ {W : Type 0} (fn : ℕ → Bool → W → Bool × W) where
  -- The tests of a list, one after the other: which of them fail, and what is outside then.
  unfoldable pub perform : List ℕ → W → List Bool × W
  perform [] w = ([], w)
  perform (t ∷ ts) w = let (b, w1) = fn t false w in let (bs, w2) = perform ts w1 in (b ∷ bs, w2)

  -- What the loop does from a link on.
  record Ran (s : TestList) (prefix : Option Bytes) (ts : List ℕ) (w : W) (runs fs : ℕ)
      (r : Outcome (TestList × W × ℕ × ℕ)) : Type 0 where
    chosen : List ℕ
    picked : Picked (λ t. Begins prefix (s.name t)) ts chosen
    failed : ℕ → Bool
    ends :
        r
        ≡ ret (
          record s { failed = failed },
          (perform chosen w).1,
          runs + length chosen,
          fs + fails (perform chosen w).0,
        )

  -- Where tests were run and `argv` is empty, `testing_main` reads through the null pointer.
  abbrev pub ending : List Bytes → List ℕ → ℕ × TestList × W → Outcome (ℕ × TestList × W)
  ending [] (t ∷ ts) answer = fault
  ending [] [] answer = ret answer
  ending (progname ∷ args) chosen answer = ret answer

  -- How `testing_main` ends.
  abbrev pub Main :
      Option Bytes → List Bytes → (ℕ → Bytes) → List ℕ → W → Outcome (ℕ × TestList × W) → Type 0
  Main prefix argv name ts w r =
      (chosen : List ℕ) × (status : ℕ) × (s' : TestList) × Picked (λ t. Begins prefix (name t)) ts
        chosen
      × (r ≡ ending argv chosen (status, s', (perform chosen w).1))
      × (status ≡ (if fails (perform chosen w).0 == 0 then 0 else 1))
