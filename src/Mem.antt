-- ===== src/Mem.antt =====
-- pkg/rbase/mem.c: `memdup2` and `memstrdup`.
-- The allocator is a parameter, which answers with the bytes of a block or, for NULL, with none. A C
-- string is its bytes without the zero. A copy to NULL is not defined.
pub mod Page
pub mod Wrapper
mod Tests
use ckit.Base.{
  ℕ, ◌+◌, ◌^◌, ◌<◌, ◌≡◌, refl, ap, ◌∙◌, Option, none, some, [], ◌∷◌, ◌++◌, Bytes, length, take,
  drop, Outcome, ret, fault, ◌>>=◌, arith, take_all, length-drop,
}
use ckit.Base.Words.{u64}
use ckit.Base.Slices.{drop_all}
use ckit.Base.Buffer.{poke, poke_lem, poke_terminated}

-- `memdup2`, of the first `len` bytes behind `src`.
pub memdup2 : (ℕ → Option Bytes) → Bytes → ℕ → ℕ → Outcome Bytes
memdup2 alloc src len extraspace = elim (alloc (u64 (len + extraspace))) [
  | none ↦ fault
  | some dst ↦ poke dst 0 (take len src)
]

-- `memstrdup`
pub memstrdup : (ℕ → Option Bytes) → Bytes → Outcome Bytes
memstrdup alloc pch = do let z = length pch; s ← memdup2 alloc pch z 1; poke s z (0 ∷ [])

-- `memstrdup` fills the block that it is given with the string and a zero.
pub memstrdup_lem :
    (alloc : ℕ → Option Bytes) (pch block : Bytes)
    → length pch + 1 < 2 ^ 64
    → alloc (length pch + 1) ≡ some block
    → length block ≡ length pch + 1
    → memstrdup alloc pch ≡ ret (pch ++ 0 ∷ [])
unfolding memstrdup memdup2
memstrdup_lem alloc pch block small e size =
    let asked : u64 (length pch + 1) ≡ length pch + 1 = omega arith in
    let given : alloc (u64 (length pch + 1)) ≡ some block = ap alloc asked ∙ e in
    let all = take_all (length pch) pch (omega arith) in
    let both =
      poke_terminated [] block pch 0 (length pch) refl (omega arith) (omega (arith, size)) in
    let rest =
      drop_all 1 (drop (length pch) block) (omega (arith, length-drop (length pch) block, size)) in
    ground (arith, given, all, both, rest)

-- Where the allocator has no block, `memstrdup` copies to NULL.
pub memstrdup-fault :
    (alloc : ℕ → Option Bytes) (pch : Bytes)
    → length pch + 1 < 2 ^ 64
    → alloc (length pch + 1) ≡ none
    → memstrdup alloc pch ≡ fault
unfolding memstrdup memdup2
memstrdup-fault alloc pch small e =
    let asked : u64 (length pch + 1) ≡ length pch + 1 = omega arith in
    let given : alloc (u64 (length pch + 1)) ≡ none = ap alloc asked ∙ e in ground (arith, given)
