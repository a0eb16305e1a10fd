-- ===== src/Pool/Tests.antt =====
-- A run of `Pool` with two threads, and the theorem at it.
use ckit.Base.{ℕ, ◌≡◌, refl, some, List, [], ◌∷◌, arith}
use ckit.Pool.{
  Pool, Pc, Event, quiet, push, pop, add_load, add_link, add_won, take_load, take_link, take_won,
  Reach, start, step, pool_head,
}
use ckit.Pool.Stack.{contents, Chain, Distinct}
use ckit.Pool.Refine.{pool_lem}

-- Thread 0 adds the entry 64 and then the entry 128, and thread 1 takes one.
abbrev trace : List Event
trace = pop 128 ∷ quiet ∷ quiet ∷ push 128 ∷ quiet ∷ quiet ∷ push 64 ∷ quiet ∷ quiet ∷ []

two_adds : (s : Pool) × (pc : ℕ → Pc) × Reach s pc trace × (pool_head s ≡ 64)
two_adds =
    let r1 = step (step start 0 (add_load {e = 64} (λ z. omega (arith, z)) refl)) 0 add_link in
    let r2 = step r1 0 (add_won refl refl) in
    let r3 = step (step r2 0 (add_load {e = 128} (λ z. omega (arith, z)) refl)) 0 add_link in
    let r4 = step r3 0 (add_won refl refl) in
    let r5 = step (step r4 1 take_load) 1 (take_link (λ z. omega (arith, z))) in
    (_, _, step r5 1 (take_won refl refl), refl)

pool_lem_example :
    (stack : List ℕ) × (contents trace ≡ some stack)
    × Chain ((two_adds.0).next) ((two_adds.0).ptr) stack
    × Distinct stack
pool_lem_example = pool_lem (two_adds.2) (omega arith)

replayed : contents trace ≡ some (64 ∷ [])
unfolding contents
replayed = refl
