-- ===== src/Pool.antt =====
-- pkg/rbase/pool/pool.c and pool.h: `Pool`, a stack of free entries without a lock.
-- Any number of threads add and take entries, each at its own pace: a step is one access of one thread
-- to what they share. The memory is sequentially consistent, and an exchange may fail at any time.
-- Entries are addresses, and NULL is 0. Who has an entry is written down beside the memory: a caller
-- adds an entry that it got back from the pool, or one that was never in it.
pub mod Stack
mod Sound
pub mod Refine
mod Tests
use ckit.Base.{ℕ, zero, suc, ◌+◌, ◌<◌, ◌≡◌, List, [], ◌∷◌}
use ckit.Base.Words.{u64}
use ckit.Base.Family.{at}

-- Who has an entry: the callers, the pool, or the call of `PoolAdd` of a thread.
pub data Owner : Type 0 where
  outside : Owner
  inside : Owner
  adding : (thread : ℕ) → Owner

-- `Pool` with its `_PoolHead`, and the field `PoolNext` of each entry.
pub record Pool : Type 0 where
  pub ptr : ℕ
  pub tag : ℕ
  pub next : ℕ → ℕ
  pub owner : ℕ → Owner

-- Where a thread stands.
pub data Pc : Type 0 where
  away : Pc  -- in no call
  add_store : (e ptr tag : ℕ) → Pc  -- `PoolAdd`, before the store of `PoolNext`, with `currhead`
  add_swap : (e ptr tag : ℕ) → Pc  -- before the exchange there
  take_next : (ptr tag : ℕ) → Pc  -- `PoolTake`, before the test of its loop, with `currhead`
  take_swap : (ptr tag next : ℕ) → Pc  -- before the exchange there

-- What a step does to the pool as a stack.
pub data Event : Type 0 where
  quiet : Event
  push : (e : ℕ) → Event
  pop : (e : ℕ) → Event

-- One access of the thread `i`.
pub data Move (i : ℕ) (s : Pool) : Pc → Pool → Pc → Event → Type 0 where
  add_load :
      {e : ℕ}
      → ¬ (e ≡ 0)
      → s.owner e ≡ outside
      → Move i s away (record s { owner = at e (adding i) s.owner }) (add_store e s.ptr s.tag) quiet
  add_link :
      {e p t : ℕ}
      → Move i s (add_store e p t) (record s { next = at e p s.next }) (add_swap e p t) quiet
  add_won :
      {e p t : ℕ}
      → s.ptr ≡ p
      → s.tag ≡ t
      → Move i s
          (add_swap e p t)
          (record s { ptr = e; tag = u64 (t + 1); owner = at e inside s.owner })
          away
          (push e)
  add_lost : {e p t : ℕ} → Move i s (add_swap e p t) s (add_store e s.ptr s.tag) quiet
  take_load : Move i s away s (take_next s.ptr s.tag) quiet
  take_none : {t : ℕ} → Move i s (take_next 0 t) s away quiet
  take_link : {p t : ℕ} → ¬ (p ≡ 0) → Move i s (take_next p t) s (take_swap p t (s.next p)) quiet
  take_won :
      {p t n : ℕ}
      → s.ptr ≡ p
      → s.tag ≡ t
      → Move i s
          (take_swap p t n)
          (record s { ptr = n; tag = u64 (t + 1); owner = at p outside s.owner })
          away
          (pop p)
  take_lost : {p t n : ℕ} → Move i s (take_swap p t n) s (take_next s.ptr s.tag) quiet

-- `Pool` should be zero-initialized
abbrev pub zero_pool : Pool
zero_pool = record { ptr = 0; tag = 0; next = λ _. 0; owner = λ _. outside }

-- What threads reach from an empty pool on, with what was done to it, the last first.
pub data Reach : Pool → (ℕ → Pc) → List Event → Type 0 where
  start : Reach zero_pool (λ _. away) []
  step :
      {s s' : Pool} {pc : ℕ → Pc} {q : Pc} {trace : List Event} {event : Event}
      → Reach s pc trace
      → (i : ℕ) → Move i s (pc i) s' q event
      → Reach s' (at i q pc) (event ∷ trace)

-- `PoolHead`
abbrev pub pool_head : Pool → ℕ
pool_head s = s.ptr
