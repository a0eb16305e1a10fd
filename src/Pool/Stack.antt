-- ===== src/Pool/Stack.antt =====
-- `Pool` of pkg/rbase/pool/pool.c as a stack.
use ckit.Base.{
  ℕ, ◌≡◌, sym, ap, ◌∙◌, subst, ◌==◌, if◌then◌else◌, Option, none, some, List, [], ◌∷◌, arith,
}
use ckit.Base.Family.{at}
use ckit.Pool.{Owner, inside, Event, quiet, push, pop}

-- What is on the stack, the top first, if every entry that was popped was on top.
unfoldable pub contents : List Event → Option (List ℕ)
contents [] = some []
contents (quiet ∷ trace) = contents trace
contents (push e ∷ trace) =
    let before = contents trace in elim before [ none ↦ none | some xs ↦ some (e ∷ xs) ]
contents (pop e ∷ trace) =
    let before = contents trace in
    elim before [
      | none ↦ none
      | some xs ↦ elim xs [ [] ↦ none | x ∷ rest ↦ if x == e then some rest else none ]
    ]

-- The entries from an address on, along `PoolNext`.
abbrev pub Chain : (ℕ → ℕ) → ℕ → List ℕ → Type 0
Chain next p [] = p ≡ 0
Chain next p (x ∷ xs) = (p ≡ x) × (¬ (x ≡ 0)) × Chain next (next x) xs

abbrev pub NotIn : ℕ → List ℕ → Type 0
NotIn e [] = Unit
NotIn e (x ∷ xs) = (¬ (e ≡ x)) × NotIn e xs

abbrev pub Distinct : List ℕ → Type 0
Distinct [] = Unit
Distinct (x ∷ xs) = NotIn x xs × Distinct xs

abbrev pub AllInside : (ℕ → Owner) → List ℕ → Type 0
AllInside owner [] = Unit
AllInside owner (x ∷ xs) = (owner x ≡ inside) × AllInside owner xs

pub at-other {ℓ} : {A : Type ℓ} (e : ℕ) (v : A) (f : ℕ → A) (x : ℕ) → ¬ (e ≡ x) → at e v f x ≡ f x
at-other e v f x ne = ground (arith, ne)

-- Entries that are not inside are not on the stack.
pub apart :
    (owner : ℕ → Owner) (e : ℕ) (xs : List ℕ)
    → ¬ (owner e ≡ inside)
    → AllInside owner xs
    → NotIn e xs
apart owner e [] ne a = tt
apart owner e (x ∷ xs) ne (i, a) = (λ same. ne (ap owner same ∙ i), apart owner e xs ne a)

pub stay_inside :
    (owner : ℕ → Owner) (e : ℕ) (v : Owner) (xs : List ℕ)
    → NotIn e xs
    → AllInside owner xs
    → AllInside (at e v owner) xs
stay_inside owner e v [] n a = tt
stay_inside owner e v (x ∷ xs) (ne, n) (i, a) =
    (at-other e v owner x ne ∙ i, stay_inside owner e v xs n a)

pub stay_linked :
    (next : ℕ → ℕ) (e v p : ℕ) (xs : List ℕ)
    → NotIn e xs
    → Chain next p xs
    → Chain (at e v next) p xs
stay_linked next e v p [] n c = c
stay_linked next e v p (x ∷ xs) (ne, n) (here, some_x, c) = (
  here,
  some_x,
  subst (λ k. Chain (at e v next) k xs) (sym (at-other e v next x ne))
      (stay_linked next e v (next x) xs n c),
)
