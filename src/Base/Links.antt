-- ===== src/Base/Links.antt =====
-- Lists of nodes that are linked by a field of the nodes: a store to the field of one of them.
use ckit.Base.{
  ℕ, ◌≡◌, refl, sym, subst, List, [], ◌∷◌, ◌++◌, Option, none, some, arith, ◌==◌, if◌then◌else◌,
}

-- A store into one cell of a map.
abbrev pub update {ℓ} : {A : Type ℓ} → (ℕ → A) → ℕ → A → ℕ → A
update f i v j = if i == j then v else f j

-- The address is not one of the list, and no address is twice on the list.
abbrev pub Absent : ℕ → List ℕ → Type 0
Absent t [] = Unit
Absent t (u ∷ us) = ¬ (t ≡ u) × Absent t us

abbrev pub Distinct : List ℕ → Type 0
Distinct [] = Unit
Distinct (t ∷ ts) = Absent t ts × Distinct ts

-- The list of nodes from the given link.
abbrev pub Chain : (ℕ → Option ℕ) → Option ℕ → List ℕ → Type 0
Chain next o [] = o ≡ none
Chain next o (t ∷ ts) = (o ≡ some t) × Chain next (next t) ts

-- The last node of the list, where it has one.
abbrev pub LastIs : ℕ → List ℕ → Type 0
LastIs l [] = Unit
LastIs l (t ∷ []) = l ≡ t
LastIs l (t ∷ u ∷ us) = LastIs l (u ∷ us)

Absent-snoc : {t u : ℕ} → (ids : List ℕ) → Absent t ids → ¬ (t ≡ u) → Absent t (ids ++ u ∷ [])
Absent-snoc [] a n = (n, tt)
Absent-snoc (v ∷ vs) (h, a) n = (h, Absent-snoc vs a n)

pub Distinct-snoc : (t : ℕ) (ids : List ℕ) → Distinct ids → Absent t ids → Distinct (ids ++ t ∷ [])
Distinct-snoc t [] d a = (tt, tt)
Distinct-snoc t (v ∷ vs) (h, d) (n, a) = (Absent-snoc vs h (λ e. n (sym e)), Distinct-snoc t vs d a)

pub LastIs-snoc : (t : ℕ) (ids : List ℕ) → LastIs t (ids ++ t ∷ [])
LastIs-snoc t [] = refl
LastIs-snoc t (v ∷ []) = refl
LastIs-snoc t (v ∷ w ∷ ws) = LastIs-snoc t (w ∷ ws)

pub LastIs-tail : (l t : ℕ) (ts : List ℕ) → LastIs l (t ∷ ts) → LastIs l ts
LastIs-tail l t [] last = tt
LastIs-tail l t (u ∷ us) last = last

pub last-differs :
    {l u : ℕ} → (v : ℕ) (vs : List ℕ) → LastIs l (v ∷ vs) → Absent u (v ∷ vs) → ¬ (l ≡ u)
last-differs v [] last (n, a) e = n (cc (last, e))
last-differs v (w ∷ ws) last (n, a) e = last-differs w ws last a e

-- A store to the link of another node.
pub Chain-update :
    (next : ℕ → Option ℕ) (i : ℕ) (v : Option ℕ) (o : Option ℕ) (ids : List ℕ)
    → Absent i ids
    → Chain next o ids
    → Chain (update next i v) o ids
Chain-update next i v o [] a c = c
Chain-update next i v o (t ∷ ts) (n, a) (e, c) = (
  e,
  subst (λ p. Chain (update next i v) p ts) (ground arith) (Chain-update next i v (next t) ts a c),
)

pub Chain-snoc :
    (next : ℕ → Option ℕ) (o : Option ℕ) (l t u : ℕ) (us : List ℕ)
    → Chain next o (u ∷ us)
    → LastIs l (u ∷ us)
    → Distinct (u ∷ us)
    → Absent t (u ∷ us)
    → next t ≡ none
    → Chain (update next l (some t)) o (u ∷ us ++ t ∷ [])
Chain-snoc next o l t u [] (e, c) last d (n, a) free = (e, (ground arith, ground arith))
Chain-snoc next o l t u (v ∷ vs) (e, c) last (du, d) (n, a) free =
    let other = last-differs v vs last du in
    (
      e,
      subst (λ p. Chain (update next l (some t)) p (v ∷ vs ++ t ∷ [])) (ground arith)
          (Chain-snoc next (next u) l t v vs c last d a free),
    )

pub Absent-init : (u t : ℕ) (ids : List ℕ) → Absent u (ids ++ t ∷ []) → Absent u ids
Absent-init u t [] a = tt
Absent-init u t (v ∷ vs) (n, a) = (n, Absent-init u t vs a)
