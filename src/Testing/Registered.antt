-- ===== src/Testing/Registered.antt =====
-- `testing_add_test` keeps a list of tests in the order in which they were added.
use ckit.Base.{
  ℕ, ◌≡◌, refl, sym, ◌∙◌, subst, List, [], ◌∷◌, ◌++◌, Option, none, Bytes, arith, append_assoc,
  append-nil,
}
use ckit.Base.Links.{
  Absent, Distinct, Distinct-snoc, Chain, Chain-snoc, LastIs, LastIs-snoc, last-differs,
}
use ckit.Testing.{TestList, testing_add_test}

-- The tests in the list.
pub record Listed (s : TestList) (ts : List ℕ) : Type 0 where
  pub chain : Chain s.next s.head ts
  pub last : LastIs s.tail ts
  pub distinct : Distinct ts

-- Tests that are added one after the other.
unfoldable pub add_all : Bytes → TestList → List ℕ → TestList
add_all cwd s [] = s
add_all cwd s (t ∷ ts) = add_all cwd (testing_add_test cwd s t) ts

-- None of the tests has a successor yet.
abbrev pub Unlinked : (ℕ → Option ℕ) → List ℕ → Type 0
Unlinked next [] = Unit
Unlinked next (t ∷ ts) = (next t ≡ none) × Unlinked next ts

add-Listed :
    (cwd : Bytes) (s : TestList) (ts : List ℕ) (t : ℕ)
    → Listed s ts
    → Absent t ts
    → s.next t ≡ none
    → Listed (testing_add_test cwd s t) (ts ++ t ∷ [])
unfolding testing_add_test
add-Listed cwd s [] t l new free =
    rw (l.chain) (record { chain = (refl, free); last = refl; distinct = (tt, tt) })
add-Listed cwd s (u ∷ us) t l new free = rw (l.chain.0) (record {
  chain = (refl, (Chain-snoc s.next s.head s.tail t u us l.chain l.last l.distinct new free).1);
  last = LastIs-snoc t (u ∷ us);
  distinct = Distinct-snoc t (u ∷ us) l.distinct new;
})

-- The links of the tests that are still to be added.
add-next :
    (cwd : Bytes) (s : TestList) (ts : List ℕ) (t u : ℕ)
    → Listed s ts
    → Absent u ts
    → (testing_add_test cwd s t).next u ≡ s.next u
unfolding testing_add_test
add-next cwd s [] t u l new = rw (l.chain) refl
add-next cwd s (v ∷ vs) t u l new = rw (l.chain.0) (ground (arith, last-differs v vs l.last new))

-- Each test of the second list is none of the first.
abbrev pub Apart : List ℕ → List ℕ → Type 0
Apart ts [] = Unit
Apart ts (u ∷ us) = Absent u ts × Apart ts us

pub Apart-none : (ts : List ℕ) → Apart [] ts
Apart-none [] = tt
Apart-none (t ∷ ts) = (tt, Apart-none ts)

Absent-append : (u t : ℕ) (ts : List ℕ) → Absent u ts → ¬ (u ≡ t) → Absent u (ts ++ t ∷ [])
Absent-append u t [] a n = (n, tt)
Absent-append u t (v ∷ vs) (h, a) n = (h, Absent-append u t vs a n)

Apart-append : (ts us : List ℕ) (t : ℕ) → Apart ts us → Absent t us → Apart (ts ++ t ∷ []) us
Apart-append ts [] t a n = tt
Apart-append ts (u ∷ us) t (h, a) (d, n) =
    (Absent-append u t ts h (λ e. d (sym e)), Apart-append ts us t a n)

add-Unlinked :
    (cwd : Bytes) (s : TestList) (ts us : List ℕ) (t : ℕ)
    → Listed s ts
    → Apart ts us
    → Unlinked s.next us
    → Unlinked (testing_add_test cwd s t).next us
add-Unlinked cwd s ts [] t l a free = tt
add-Unlinked cwd s ts (u ∷ us) t l (h, a) (e, free) =
    (add-next cwd s ts t u l h ∙ e, add-Unlinked cwd s ts us t l a free)

pub add_all-Listed :
    (cwd : Bytes) (s : TestList) (ts us : List ℕ)
    → Listed s ts
    → Distinct us
    → Apart ts us
    → Unlinked s.next us
    → Listed (add_all cwd s us) (ts ++ us)
unfolding add_all
add_all-Listed cwd s ts [] l d a free = subst (Listed s) (sym (append-nil ts)) l
add_all-Listed cwd s ts (u ∷ us) l (new, d) (h, a) (e, free) =
    subst (Listed (add_all cwd (testing_add_test cwd s u) us)) (append_assoc ts (u ∷ []) us) (
      add_all-Listed cwd (testing_add_test cwd s u) (ts ++ u ∷ []) us (add-Listed cwd s ts u l h e)
        d (Apart-append ts us u a new) (add-Unlinked cwd s ts us u l a free))

-- Adding tests changes neither their names nor whether they have failed.
pub add_all-name :
    (cwd : Bytes) (s : TestList) (ts : List ℕ)
    → ((add_all cwd s ts).name ≡ s.name) × ((add_all cwd s ts).failed ≡ s.failed)
unfolding add_all testing_add_test
add_all-name cwd s [] = (refl, refl)
add_all-name cwd s (t ∷ ts) = add_all-name cwd (testing_add_test cwd s t) ts
