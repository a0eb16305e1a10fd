-- ===== src/Base/Slices.antt =====
-- Parts of an appended list, and a part of a part.
use ckit.Base.{
  ℕ, zero, suc, ◌+◌, ◌-◌, ◌≤◌, ◌≡◌, refl, ap, ◌∙◌, List, [], ◌∷◌, ◌++◌, length, take, drop, arith,
}

module _ {ℓ} {A : Type ℓ} where
  pub take_behind :
      (n : ℕ) (xs ys : List A) → length xs ≤ n → take n (xs ++ ys) ≡ xs ++ take (n - length xs) ys
  take_behind n [] ys h = ap (λ k. take k ys) (omega arith)
  take_behind zero (x ∷ xs) ys h = absurd (omega arith)
  take_behind (suc n) (x ∷ xs) ys h =
      ap (λ r. x ∷ r) (take_behind n xs ys (omega arith) ∙ ap (λ k. xs ++ take k ys) (omega arith))

  pub drop_behind :
      (n : ℕ) (xs ys : List A) → length xs ≤ n → drop n (xs ++ ys) ≡ drop (n - length xs) ys
  drop_behind n [] ys h = ap (λ k. drop k ys) (omega arith)
  drop_behind zero (x ∷ xs) ys h = absurd (omega arith)
  drop_behind (suc n) (x ∷ xs) ys h =
      drop_behind n xs ys (omega arith) ∙ ap (λ k. drop k ys) (omega arith)

  pub take_within : (n : ℕ) (xs ys : List A) → n ≤ length xs → take n (xs ++ ys) ≡ take n xs
  take_within zero xs ys h = refl
  take_within (suc n) [] ys h = absurd (omega arith)
  take_within (suc n) (x ∷ xs) ys h = ap (λ r. x ∷ r) (take_within n xs ys (omega arith))

  pub drop_within : (n : ℕ) (xs ys : List A) → n ≤ length xs → drop n (xs ++ ys) ≡ drop n xs ++ ys
  drop_within zero xs ys h = refl
  drop_within (suc n) [] ys h = absurd (omega arith)
  drop_within (suc n) (x ∷ xs) ys h = drop_within n xs ys (omega arith)

  pub drop-drop : (m n : ℕ) (xs : List A) → drop m (drop n xs) ≡ drop (n + m) xs
  drop-drop m zero xs = let e : m ≡ 0 + m = omega arith in ap (λ k. drop k xs) e
  drop-drop zero (suc n) [] = let e : suc n ≡ suc n + 0 = omega arith in ap (λ k. drop k []) e
  drop-drop (suc m) (suc n) [] =
      let e : suc (n + suc m) ≡ suc n + suc m = omega arith in ap (λ k. drop k []) e
  drop-drop m (suc n) (x ∷ xs) =
      let one : suc (n + m) ≡ suc n + m = omega arith in
      drop-drop m n xs ∙ ap (λ k. drop k (x ∷ xs)) one

  pub drop_all : (n : ℕ) (xs : List A) → length xs ≤ n → drop n xs ≡ []
  drop_all zero [] h = refl
  drop_all (suc n) [] h = refl
  drop_all zero (x ∷ xs) h = absurd (omega arith)
  drop_all (suc n) (x ∷ xs) h = drop_all n xs (omega arith)

  pub take-take-drop : (n k : ℕ) (xs : List A) → take n xs ++ take k (drop n xs) ≡ take (n + k) xs
  take-take-drop zero k xs = ap (λ i. take i xs) (omega arith)
  take-take-drop (suc n) zero [] = let e : suc n ≡ suc n + 0 = omega arith in ap (λ i. take i []) e
  take-take-drop (suc n) (suc k) [] =
      let e : suc (n + suc k) ≡ suc n + suc k = omega arith in ap (λ i. take i []) e
  take-take-drop (suc n) k (x ∷ xs) =
      let e : suc (n + k) ≡ suc n + k = omega arith in
      ap (λ r. x ∷ r) (take-take-drop n k xs) ∙ ap (λ i. take i (x ∷ xs)) e
