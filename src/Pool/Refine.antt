-- ===== src/Pool/Refine.antt =====
-- `Pool` of pkg/rbase/pool/pool.c: each step keeps the stack.
use ckit.Base.{
  ℕ, ◌+◌, ◌^◌, ◌≤◌, ◌<◌, ◌≡◌, inl, inr, refl, sym, ap, ◌∙◌, subst, some, List, [], ◌∷◌, length,
  arith,
}
use ckit.Base.Words.{u64}
use ckit.Base.Family.{at}
use ckit.Pool.{
  outside, inside, adding, Pool, Pc, away, add_store, add_swap, take_swap, Event, quiet, push, pop,
  Move, add_load, add_link, add_won, add_lost, take_load, take_none, take_link, take_won, take_lost,
  Reach, start, step,
}
use ckit.Pool.Stack.{contents, Chain, NotIn, Distinct, AllInside, apart, stay_inside, stay_linked}
use ckit.Pool.Sound.{Sound, Sound-owner, Sound-next, Sound-at}

pub record Inv (s : Pool) (pc : ℕ → Pc) (trace : List Event) : Type 0 where
  stack : List ℕ
  replays : contents trace ≡ some stack
  tags : s.tag ≤ length trace
  chain : Chain s.next s.ptr stack
  owned : AllInside s.owner stack
  distinct : Distinct stack
  sound : (j : ℕ) → Sound s j (pc j)

-- A step that changes nothing but where its thread stands.
still :
    {s : Pool} {trace : List Event} (i : ℕ) (pc : ℕ → Pc) (q : Pc)
    → Sound s i q
    → Inv s pc trace
    → Inv s (at i q pc) (quiet ∷ trace)
unfolding contents
still {s = s} i pc q w v = record {
  stack = v.stack;
  replays = v.replays;
  tags = omega (arith, v.tags);
  chain = v.chain;
  owned = v.owned;
  distinct = v.distinct;
  sound = Sound-at s i q pc w (λ j ne. v.sound j);
}

add_load-Inv :
    {s : Pool} {trace : List Event} (i : ℕ) (pc : ℕ → Pc) (e : ℕ)
    → ¬ (e ≡ 0)
    → s.owner e ≡ outside
    → Inv s pc trace
    → Inv
        (record s { owner = at e (adding i) s.owner })
        (at i (add_store e s.ptr s.tag) pc)
        (quiet ∷ trace)
unfolding contents
add_load-Inv {s = s} i pc e some_e out v =
    let not_in = apart s.owner e v.stack (λ x. ground (arith, out, x)) v.owned in
    record {
      stack = v.stack;
      replays = v.replays;
      tags = omega (arith, v.tags);
      chain = v.chain;
      owned = stay_inside s.owner e (adding i) v.stack not_in v.owned;
      distinct = v.distinct;
      sound =
          Sound-at (record s { owner = at e (adding i) s.owner }) i (add_store e s.ptr s.tag) pc
            (some_e, ground arith)
            (λ j ne.
              Sound-owner s s.ptr s.tag j e (adding i) (pc j) (λ x. ground (arith, out, x))
                (inl (refl, refl)) (v.sound j));
    }

add_link-Inv :
    {s : Pool} {trace : List Event} (i : ℕ) (pc : ℕ → Pc) (e p t : ℕ)
    → Sound s i (add_store e p t)
    → Inv s pc trace
    → Inv (record s { next = at e p s.next }) (at i (add_swap e p t) pc) (quiet ∷ trace)
unfolding contents
add_link-Inv {s = s} i pc e p t (some_e, mine) v =
    let not_in = apart s.owner e v.stack (λ x. ground (arith, mine, x)) v.owned in
    record {
      stack = v.stack;
      replays = v.replays;
      tags = omega (arith, v.tags);
      chain = stay_linked s.next e p s.ptr v.stack not_in v.chain;
      owned = v.owned;
      distinct = v.distinct;
      sound =
          Sound-at (record s { next = at e p s.next }) i (add_swap e p t) pc
            (some_e, mine, ground arith)
            (λ j ne.
              Sound-next s v.stack j e p (pc j) v.chain v.owned (λ x. ground (arith, mine, x, ne))
                (λ x. ground (arith, mine, x)) (v.sound j));
    }

add_won-Inv :
    {s : Pool} {trace : List Event} (i : ℕ) (pc : ℕ → Pc) (e p t : ℕ)
    → s.ptr ≡ p
    → s.tag ≡ t
    → length trace + 1 < 2 ^ 64
    → Sound s i (add_swap e p t)
    → Inv s pc trace
    → Inv
        (record s { ptr = e; tag = u64 (t + 1); owner = at e inside s.owner })
        (at i away pc)
        (push e ∷ trace)
unfolding contents
add_won-Inv {s = s} i pc e p t hp ht few (some_e, mine, linked) v =
    let not_in = apart s.owner e v.stack (λ x. ground (arith, mine, x)) v.owned in
    let tag : u64 (t + 1) ≡ s.tag + 1 = omega (arith, v.tags) in
    record {
      stack = e ∷ v.stack;
      replays = ground (arith, v.replays);
      tags = omega (arith, v.tags, tag);
      chain = (refl, some_e, subst (λ k. Chain s.next k v.stack) (hp ∙ sym linked) v.chain);
      owned = (ground arith, stay_inside s.owner e inside v.stack not_in v.owned);
      distinct = (not_in, v.distinct);
      sound =
          Sound-at (record s { ptr = e; tag = u64 (t + 1); owner = at e inside s.owner }) i away pc
            tt
            (λ j ne.
              Sound-owner s e (u64 (t + 1)) j e inside (pc j) (λ x. ground (arith, mine, x, ne))
                (inr (omega (arith, tag))) (v.sound j));
    }

take_won-Inv :
    {s : Pool} {trace : List Event} (i : ℕ) (pc : ℕ → Pc) (p t n : ℕ)
    → s.ptr ≡ p
    → s.tag ≡ t
    → length trace + 1 < 2 ^ 64
    → Sound s i (take_swap p t n)
    → Inv s pc trace
    → Inv
        (record s { ptr = n; tag = u64 (t + 1); owner = at p outside s.owner })
        (at i away pc)
        (pop p ∷ trace)
unfolding contents
take_won-Inv {s = s} {trace = trace} i pc p t n hp ht few (le, right, some_p, linked) v =
    let tag : u64 (t + 1) ≡ s.tag + 1 = omega (arith, v.tags) in
    taken v.stack v.replays v.chain v.owned v.distinct tag
  where
    taken :
        (xs : List ℕ)
        → contents trace ≡ some xs
        → Chain s.next s.ptr xs
        → AllInside s.owner xs
        → Distinct xs
        → u64 (t + 1) ≡ s.tag + 1
        → Inv
            (record s { ptr = n; tag = u64 (t + 1); owner = at p outside s.owner })
            (at i away pc)
            (pop p ∷ trace)
    taken [] r c a d tag = absurd (some_p (sym hp ∙ c))
    taken (x ∷ xs) r (here, some_x, c) (first, a) (only, d) tag =
        let same : x ≡ p = sym here ∙ hp in
        record {
          stack = xs;
          replays = unfold contents in ground (arith, r, same);
          tags = omega (arith, v.tags, tag);
          chain = subst (λ k. Chain s.next k xs) (sym (linked (sym ht) ∙ ap s.next (sym same))) c;
          owned = stay_inside s.owner p outside xs (subst (λ k. NotIn k xs) same only) a;
          distinct = d;
          sound =
              Sound-at (record s { ptr = n; tag = u64 (t + 1); owner = at p outside s.owner }) i
                away pc tt
                (λ j ne.
                  Sound-owner s n (u64 (t + 1)) j p outside (pc j)
                    (λ y. ground (arith, y, ap s.owner same, first)) (inr (omega (arith, tag)))
                    (v.sound j));
        }

Move-Inv :
    (i : ℕ) {s s' : Pool} {p q : Pc} {trace : List Event} {event : Event} (pc : ℕ → Pc)
    → Move i s p s' q event
    → length trace + 1 < 2 ^ 64
    → Sound s i p
    → Inv s pc trace
    → Inv s' (at i q pc) (event ∷ trace)
Move-Inv i pc (add_load {e = e} some_e out) few w v = add_load-Inv i pc e some_e out v
Move-Inv i pc (add_link {e = e} {p = p} {t = t}) few w v = add_link-Inv i pc e p t w v
Move-Inv i pc (add_won {e = e} {p = p} {t = t} hp ht) few w v = add_won-Inv i pc e p t hp ht few w v
Move-Inv i pc add_lost few (some_e, mine, linked) v = still i pc _ (some_e, mine) v
Move-Inv i pc take_load few w v = still i pc _ (omega arith, λ now. refl) v
Move-Inv i pc take_none few w v = still i pc _ tt v
Move-Inv i pc (take_link some_p) few (le, right) v = still i pc _ (le, right, some_p, λ now. refl) v
Move-Inv i pc (take_won {p = p} {t = t} {n = n} hp ht) few w v =
    take_won-Inv i pc p t n hp ht few w v
Move-Inv i pc take_lost few w v = still i pc _ (omega arith, λ now. refl) v

Reach-Inv :
    {s : Pool} {pc : ℕ → Pc} {trace : List Event}
    → Reach s pc trace
    → length trace < 2 ^ 64
    → Inv s pc trace
unfolding contents
Reach-Inv start few = record {
  stack = [];
  replays = refl;
  tags = omega arith;
  chain = refl;
  owned = tt;
  distinct = tt;
  sound = λ j. tt;
}
Reach-Inv (step {pc = pc} r i move) few =
    let v = Reach-Inv r (omega arith) in Move-Inv i pc move (omega arith) (v.sound i) v

-- Whatever threads do from an empty pool on, in fewer than 2 ^ 64 steps: replayed in the order of their
-- exchanges, the calls of `PoolAdd` and `PoolTake` are those of a stack, each taken entry having been on
-- top of it. What is linked from the head on is that stack, and no entry is on it twice.
pub pool_lem :
    {s : Pool} {pc : ℕ → Pc} {trace : List Event}
    → Reach s pc trace
    → length trace < 2 ^ 64
    → (stack : List ℕ) × (contents trace ≡ some stack) × Chain s.next s.ptr stack × Distinct stack
pool_lem r few = let v = Reach-Inv r few in (v.stack, v.replays, v.chain, v.distinct)
