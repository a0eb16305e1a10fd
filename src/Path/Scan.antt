-- ===== src/Path/Scan.antt =====
-- The loops of pkg/rbase/path.c that look for a byte from the end.
use ckit.Base.{
  ℕ, zero, suc, ◌+◌, ◌≤◌, ◌<◌, ◌≡◌, refl, ap, sym, ◌∙◌, replicate, ◌⊎◌, inl, inr, none, some, Bytes,
  [], ◌∷◌, ◌++◌, length, get_or, ◌-◌, arith,
}
use native.Mathlib.Decide.{ℕ_discrete}
use ckit.Path.{separator, last_slash, strip}

-- The byte is none of the list.
abbrev pub Lacks : ℕ → Bytes → Type 0
Lacks c [] = Unit
Lacks c (x ∷ xs) = ¬ (x ≡ c) × Lacks c xs

pub get_or-behind : (xs ys : Bytes) (k : ℕ) → get_or (xs ++ ys) (length xs + k) 0 ≡ get_or ys k 0
get_or-behind [] ys k = ap (λ i. get_or ys i 0) (omega arith)
get_or-behind (x ∷ xs) ys k =
    let one : suc (length xs) + k ≡ suc (length xs + k) = omega arith in
    ap (λ i. get_or (x ∷ xs ++ ys) i 0) one ∙ get_or-behind xs ys k

pub get_or-Lacks :
    (c : ℕ) (xs ys : Bytes) (k : ℕ) → Lacks c xs → k < length xs → ¬ (get_or (xs ++ ys) k 0 ≡ c)
get_or-Lacks c [] ys k l h = absurd (omega arith)
get_or-Lacks c (x ∷ xs) ys zero (n, l) h = n
get_or-Lacks c (x ∷ xs) ys (suc k) (n, l) h = get_or-Lacks c xs ys k l (omega arith)

pub last_slash-found :
    (s : Bytes) (i n : ℕ)
    → i < n
    → get_or s i 0 ≡ separator
    → ((j : ℕ) → i < j → j < n → ¬ (get_or s j 0 ≡ separator))
    → last_slash s n ≡ some i
unfolding last_slash
last_slash-found s i zero h at none_behind = absurd (omega arith)
last_slash-found s i (suc n) h at none_behind = elim (ℕ_discrete i n) [
  | yes e ↦ ground (arith, e, at)
  | no other ↦
      rw (last_slash-found s i n (omega arith) at (λ j a b. none_behind j a (omega arith)))
        (ground (arith, none_behind n (omega arith) (omega arith)))
]

pub last_slash-none :
    (s : Bytes) (n : ℕ) → ((j : ℕ) → j < n → ¬ (get_or s j 0 ≡ separator)) → last_slash s n ≡ none
unfolding last_slash
last_slash-none s zero h = refl
last_slash-none s (suc n) h =
    rw (last_slash-none s n (λ j a. h j (omega arith))) (ground (arith, h n (omega arith)))

-- The slashes from `n` on are stripped.
pub strip-to :
    (s : Bytes) (n m : ℕ)
    → n ≤ m
    → (n ≡ 0) ⊎ ¬ (get_or s (n - 1) 0 ≡ separator)
    → ((j : ℕ) → n ≤ j → j < m → get_or s j 0 ≡ separator)
    → strip s m ≡ n
unfolding strip
strip-to s n zero h stop all = omega arith
strip-to s n (suc m) h stop all = elim (ℕ_discrete n (suc m)) [
  | yes e ↦
      let keep : ¬ (get_or s m 0 ≡ separator) = elim stop [
        | inl z ↦ absurd (omega arith)
        | inr q ↦ λ at. q (ap (λ i. get_or s i 0) (omega arith) ∙ at)
      ] in
      ground (arith, e, keep)
  | no less ↦
      rw (strip-to s n m (omega arith) stop (λ j a b. all j a (omega arith)))
        (ground (arith, all m (omega arith) (omega arith)))
]

-- The slash in front of a last element.
pub last_slash-split :
    (dir base rest : Bytes)
    → Lacks separator base
    → last_slash (dir ++ (separator ∷ (base ++ rest))) (length dir + 1 + length base)
      ≡ some (length dir)
last_slash-split dir base rest plain =
    let path = dir ++ (separator ∷ (base ++ rest)) in
    let here : length dir ≡ length dir + 0 = omega arith in
    last_slash-found path (length dir) (length dir + 1 + length base) (omega arith)
      (ap (λ i. get_or path i 0) here ∙ get_or-behind dir (separator ∷ (base ++ rest)) 0)
      (λ j a b at.
        let k = j - (length dir + 1) in
        let index : length dir + suc k ≡ j = omega arith in
        get_or-Lacks separator base rest k plain (omega arith) (
          sym (get_or-behind dir (separator ∷ (base ++ rest)) (suc k))
          ∙ ap (λ i. get_or path i 0) index
          ∙ at))

pub get_or-replicate : (c n j : ℕ) → j < n → get_or (replicate n c) j 0 ≡ c
get_or-replicate c zero j h = absurd (omega arith)
get_or-replicate c (suc n) zero h = refl
get_or-replicate c (suc n) (suc j) h = get_or-replicate c n j (omega arith)

pub get_or-front : (xs ys : Bytes) (k : ℕ) → k < length xs → get_or (xs ++ ys) k 0 ≡ get_or xs k 0
get_or-front [] ys k h = absurd (omega arith)
get_or-front (x ∷ xs) ys zero h = refl
get_or-front (x ∷ xs) ys (suc k) h = get_or-front xs ys k (omega arith)
