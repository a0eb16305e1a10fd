-- ===== src/Pool/Sound.antt =====
-- `Pool` of pkg/rbase/pool/pool.c: what the threads know of the pool while others change it.
use native.Mathlib.Decide.{ℕ_discrete}
use ckit.Base.{ℕ, ◌≤◌, ◌<◌, ◌≡◌, ◌⊎◌, inl, inr, sym, ap, ◌∙◌, subst, List, [], ◌∷◌, arith}
use ckit.Base.Family.{at}
use ckit.Pool.{Owner, inside, adding, Pool, Pc, away, add_store, add_swap, take_next, take_swap}
use ckit.Pool.Stack.{Chain, AllInside, at-other}

-- What holds of a thread: the entry that it adds is its own, and what it read of the head is not newer
-- than the head, and is right if the tag is the same.
abbrev pub Sound : Pool → ℕ → Pc → Type 0
Sound s j away = Unit
Sound s j (add_store e p t) = (¬ (e ≡ 0)) × (s.owner e ≡ adding j)
Sound s j (add_swap e p t) = (¬ (e ≡ 0)) × (s.owner e ≡ adding j) × (s.next e ≡ p)
Sound s j (take_next p t) = (t ≤ s.tag) × (t ≡ s.tag → p ≡ s.ptr)
Sound s j (take_swap p t n) =
    (t ≤ s.tag) × (t ≡ s.tag → p ≡ s.ptr) × (¬ (p ≡ 0)) × (t ≡ s.tag → n ≡ s.next p)

kept :
    (owner : ℕ → Owner) (e : ℕ) (v : Owner) (j e' : ℕ)
    → ¬ (owner e ≡ adding j)
    → owner e' ≡ adding j
    → at e v owner e' ≡ adding j
kept owner e v j e' ne mine = at-other e v owner e' (λ same. ne (ap owner same ∙ mine)) ∙ mine

-- The other threads, when an entry that is not theirs changes hands.
pub Sound-owner :
    (s : Pool) (ptr tag j e : ℕ) (v : Owner) (p : Pc)
    → ¬ (s.owner e ≡ adding j)
    → ((tag ≡ s.tag) × (ptr ≡ s.ptr)) ⊎ (s.tag < tag)
    → Sound s j p
    → Sound (record s { ptr = ptr; tag = tag; owner = at e v s.owner }) j p
Sound-owner s ptr tag j e v away ne h w = tt
Sound-owner s ptr tag j e v (add_store e' p t) ne h (some_e, mine) =
    (some_e, kept s.owner e v j e' ne mine)
Sound-owner s ptr tag j e v (add_swap e' p t) ne h (some_e, mine, linked) =
    (some_e, kept s.owner e v j e' ne mine, linked)
Sound-owner s ptr tag j e v (take_next p t) ne (inl (same, here)) (le, right) =
    (omega arith, λ now. right (now ∙ same) ∙ sym here)
Sound-owner s ptr tag j e v (take_next p t) ne (inr newer) (le, right) =
    (omega arith, λ now. absurd (omega (arith, now)))
Sound-owner s ptr tag j e v (take_swap p t n) ne (inl (same, here)) (le, right, some_p, linked) =
    (omega arith, λ now. right (now ∙ same) ∙ sym here, some_p, λ now. linked (now ∙ same))
Sound-owner s ptr tag j e v (take_swap p t n) ne (inr newer) (le, right, some_p, linked) =
    (omega arith, λ now. absurd (omega (arith, now)), some_p, λ now. absurd (omega (arith, now)))

-- The entry on top is inside.
top-inside :
    (s : Pool) (xs : List ℕ)
    → Chain s.next s.ptr xs
    → AllInside s.owner xs
    → ¬ (s.ptr ≡ 0)
    → s.owner (s.ptr) ≡ inside
top-inside s [] c a some_ptr = absurd (some_ptr c)
top-inside s (x ∷ xs) (here, some_x, c) (i, a) some_ptr = ap s.owner here ∙ i

-- The other threads, when a thread links an entry that is neither theirs nor inside.
pub Sound-next :
    (s : Pool) (xs : List ℕ) (j e v : ℕ) (p : Pc)
    → Chain s.next s.ptr xs
    → AllInside s.owner xs
    → ¬ (s.owner e ≡ adding j)
    → ¬ (s.owner e ≡ inside)
    → Sound s j p
    → Sound (record s { next = at e v s.next }) j p
Sound-next s xs j e v away c a ne out w = tt
Sound-next s xs j e v (add_store e' p t) c a ne out w = w
Sound-next s xs j e v (add_swap e' p t) c a ne out (some_e, mine, linked) =
    (some_e, mine, at-other e v s.next e' (λ same. ne (ap s.owner same ∙ mine)) ∙ linked)
Sound-next s xs j e v (take_next p t) c a ne out w = w
Sound-next s xs j e v (take_swap p t n) c a ne out (le, right, some_p, linked) = (
  le,
  right,
  some_p,
  λ now.
      let top = top-inside s xs c a (λ z. some_p (right now ∙ z)) in
      linked now ∙ sym (at-other e v s.next p (λ same. out (ap s.owner (same ∙ right now) ∙ top))),
)

-- The thread that moves, and the others.
pub Sound-at :
    (s : Pool) (i : ℕ) (q : Pc) (pc : ℕ → Pc)
    → Sound s i q
    → ((j : ℕ) → ¬ (i ≡ j) → Sound s j (pc j))
    → (j : ℕ) → Sound s j (at i q pc j)
Sound-at s i q pc w others j = elim (ℕ_discrete i j) [
  | yes e ↦ subst (Sound s j) (ground (arith, e)) (subst (λ k. Sound s k q) e w)
  | no ne ↦ subst (Sound s j) (sym (at-other i q pc j ne)) (others j ne)
]
