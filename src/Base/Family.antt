-- ===== src/Base/Family.antt =====
-- Values for each of `n` threads: a change of one of them, and how many satisfy a test.
use native.Mathlib.Decide.{ℕ_discrete}
use ckit.Base.{
  ℕ, zero, suc, ◌+◌, ◌≤◌, ◌<◌, ◌≡◌, refl, ap, sym, ◌∙◌, Bool, true, false, ◌==◌, if◌then◌else◌,
  Bool-cases, inl, inr, arith,
}

abbrev pub at {ℓ} : {A : Type ℓ} → ℕ → A → (ℕ → A) → ℕ → A
at i v f j = if i == j then v else f j

abbrev pub one_if : Bool → ℕ
one_if true = 1
one_if false = 0

module _ {ℓ} {A : Type ℓ} (test : A → Bool) where
  -- How many of the first `n` satisfy the test.
  pub count : ℕ → (ℕ → A) → ℕ
  count zero f = 0
  count (suc n) f = one_if (test (f n)) + count n f

  count-at_behind : (n i : ℕ) (v : A) (f : ℕ → A) → n ≤ i → count n (at i v f) ≡ count n f
  unfolding count
  count-at_behind zero i v f h = refl
  count-at_behind (suc n) i v f h = ground (arith, count-at_behind n i v f)

  pub count-at :
      (n i : ℕ) (v : A) (f : ℕ → A)
      → i < n
      → count n (at i v f) + one_if (test (f i)) ≡ count n f + one_if (test v)
  unfolding count
  count-at zero i v f h = absurd (omega arith)
  count-at (suc n) i v f h = elim (ℕ_discrete i n) [
    | yes last ↦
        let same : test (f i) ≡ test (f n) = ap (λ k. test (f k)) last in
        rw (same) (ground (arith, last, count-at_behind n i v f (omega arith)))
    | no other ↦ ground (arith, other, count-at n i v f (omega arith))
  ]

  pub count-le : (n : ℕ) (f : ℕ → A) → count n f ≤ n
  unfolding count
  count-le zero f = omega arith
  count-le (suc n) f = ground (arith, count-le n f)

  pub count-none : (n : ℕ) (f : ℕ → A) → ((i : ℕ) → test (f i) ≡ false) → count n f ≡ 0
  unfolding count
  count-none zero f h = refl
  count-none (suc n) f h = ground (arith, h n, count-none n f h)

  -- One of them is among those that are counted.
  pub count-some : (n i : ℕ) (f : ℕ → A) → i < n → test (f i) ≡ true → 0 < count n f
  unfolding count
  count-some zero i f h t = absurd (omega arith)
  count-some (suc n) i f h t = elim (ℕ_discrete i n) [
    | yes last ↦
        let same : test (f n) ≡ true = ap (λ k. test (f k)) (sym last) ∙ t in ground (arith, same)
    | no other ↦ omega (arith, count-some n i f (omega arith) t)
  ]

  pub count-here : (n i : ℕ) (f : ℕ → A) → i < n → one_if (test (f i)) ≤ count n f
  count-here n i f h = elim (Bool-cases (test (f i))) [
    | inl t ↦ ground (arith, t, count-some n i f h t)
    | inr t ↦ ground (arith, t)
  ]

  pub some-count : (n : ℕ) (f : ℕ → A) → 0 < count n f → (i : ℕ) × (i < n) × (test (f i) ≡ true)
  unfolding count
  some-count zero f h = absurd (omega arith)
  some-count (suc n) f h = elim (Bool-cases (test (f n))) [
    | inl t ↦ (n, omega arith, t)
    | inr t ↦ let (i, below, e) = some-count n f (ground (arith, t)) in (i, omega arith, e)
  ]

  -- Two different ones are counted twice.
  pub count-two :
      (n i j : ℕ) (f : ℕ → A)
      → i < j
      → j < n
      → test (f i) ≡ true
      → test (f j) ≡ true
      → 1 < count n f
  unfolding count
  count-two zero i j f h k s t = absurd (omega arith)
  count-two (suc n) i j f h k s t = elim (ℕ_discrete j n) [
    | yes last ↦
        let same : test (f n) ≡ true = ap (λ i. test (f i)) (sym last) ∙ t in
        ground (arith, same, count-some n i f (omega arith) s)
    | no other ↦ omega (arith, count-two n i j f h (omega arith) s t)
  ]

-- No one is counted by two tests that exclude each other.
pub count-apart {ℓ} :
    {A : Type ℓ} (s t : A → Bool) (n : ℕ) (f : ℕ → A)
    → ((x : A) → one_if (s x) + one_if (t x) ≤ 1)
    → count s n f + count t n f ≤ n
unfolding count
count-apart s t zero f h = omega arith
count-apart s t (suc n) f h = omega (arith, h (f n), count-apart s t n f h)

-- Those that satisfy one of two tests.
pub count-sum {ℓ} :
    {A : Type ℓ} (s t u : A → Bool) (n : ℕ) (f : ℕ → A)
    → ((x : A) → one_if (u x) ≡ one_if (s x) + one_if (t x))
    → count u n f ≡ count s n f + count t n f
unfolding count
count-sum s t u zero f h = omega arith
count-sum s t u (suc n) f h = omega (arith, h (f n), count-sum s t u n f h)

-- What all of them add up to.
module _ {ℓ} {A : Type ℓ} (part : A → ℕ) where
  pub total : ℕ → (ℕ → A) → ℕ
  total zero f = 0
  total (suc n) f = part (f n) + total n f

  total-at_behind : (n i : ℕ) (v : A) (f : ℕ → A) → n ≤ i → total n (at i v f) ≡ total n f
  unfolding total
  total-at_behind zero i v f h = refl
  total-at_behind (suc n) i v f h = ground (arith, total-at_behind n i v f)

  pub total-at :
      (n i : ℕ) (v : A) (f : ℕ → A) → i < n → total n (at i v f) + part (f i) ≡ total n f + part v
  unfolding total
  total-at zero i v f h = absurd (omega arith)
  total-at (suc n) i v f h = elim (ℕ_discrete i n) [
    | yes last ↦
        let same : part (f i) ≡ part (f n) = ap (λ k. part (f k)) last in
        rw (same) (ground (arith, last, total-at_behind n i v f (omega arith)))
    | no other ↦ ground (arith, other, total-at n i v f (omega arith))
  ]

  pub total-none : (n : ℕ) (f : ℕ → A) → ((i : ℕ) → part (f i) ≡ 0) → total n f ≡ 0
  unfolding total
  total-none zero f h = refl
  total-none (suc n) f h = omega (arith, h n, total-none n f h)
