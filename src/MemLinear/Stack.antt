-- ===== src/MemLinear/Stack.antt =====
-- `mla_free` of the latest allocation gives its space back, like a pop from a stack.
use native.Mathlib.Decide.{dec_lt}
use ckit.Base.{
  ℕ, ◌+◌, ◌*◌, ◌^◌, ◌≤◌, ◌<◌, ◌≡◌, ◌↔◌, ◌⊎◌, inl, inr, refl, sym, ◌∙◌, subst, List, [], ◌∷◌, Option,
  none, some, arith, Option-cases, ret,
}
use ckit.Base.Words.{u64, sub_u64}
use ckit.MemLinear.{
  Block, LinearAllocator, start, take_space, alloc, find_block, free, block_size, header_size,
  align_alloc, with_len,
}
use ckit.MemLinear.Region.{InUse, AnyInUse, Used}
use ckit.MemLinear.Valid.{Valid, MapsFresh}
use ckit.MemLinear.Alloc.{
  grown, grown-Valid, grown_room, npages, alloc-room, alloc-refused, alloc-grown,
}

-- A pointer into the current block is found there.
pub find_block-head :
    (b : Block) (cs : List Block) (ptr : ℕ)
    → start b + header_size ≤ ptr
    → ptr < start b + b.size + header_size
    → ptr < 2 ^ 64
    → find_block b cs ptr ≡ ret 0
unfolding find_block
find_block-head b [] ptr lo hi small = ground arith
find_block-head b (c ∷ cs) ptr lo hi small = ground arith

-- Freeing what was just taken restores the current block.
free-take_space :
    (a : LinearAllocator) (need : ℕ)
    → Valid a
    → header_size ≤ need
    → a.b.len + need ≤ a.b.size
    → let (ptr, a1) = take_space a need in
      (a2 : LinearAllocator) × (free a1 ptr ≡ ret a2)
      × (a2.b ≡ a.b)
      × (a2.older ≡ a.older)
      × (a2.mem ≡ a.mem)
unfolding free take_space
free-take_space a need v low room =
    let (ptr, a1) = take_space a need in
    let found =
      find_block-head a1.b a1.older ptr (omega arith) (omega (arith, v.top))
        (omega (arith, v.top)) in
    (with_len a1 a.b.len, ground (arith, found, v.top), refl, refl, refl)

-- Freeing the result of a call of `mla_alloc` on `a` leaves in use what was in use.
abbrev pub Pops : LinearAllocator → Option (ℕ × LinearAllocator) → Type 0
Pops a none = Unit
Pops a (some (ptr, a1)) =
    (a2 : LinearAllocator) × (free a1 ptr ≡ ret a2)
    × ((x : ℕ) → Used a2 x ↔ Used a x)
    × (a2.mem ≡ a.mem)

same-Used :
    (a a2 : LinearAllocator) → a2.b ≡ a.b → a2.older ≡ a.older → (x : ℕ) → Used a2 x ↔ Used a x
same-Used a a2 top rest x = (
  λ u.
      subst (λ b. InUse b x ⊎ AnyInUse a.older x) top
        (subst (λ l. InUse a2.b x ⊎ AnyInUse l x) rest u),
  λ u.
      subst (λ b. InUse b x ⊎ AnyInUse a2.older x) (sym top)
        (subst (λ l. InUse a.b x ⊎ AnyInUse l x) (sym rest) u),
)

-- The same from an allocator `a3` in which as much is in use as in `a`.
take_space-Pops :
    (a a3 : LinearAllocator) (need : ℕ)
    → Valid a3
    → header_size ≤ need
    → a3.b.len + need ≤ a3.b.size
    → ((x : ℕ) → Used a3 x ↔ Used a x)
    → a3.mem ≡ a.mem
    → Pops a (some (take_space a3 need))
take_space-Pops a a3 need v low room same same_mem =
    let (a2, e, top, rest, mem) = free-take_space a3 need v low room in
    let there = same-Used a3 a2 top rest in
    (a2, e, λ x. (λ u. (same x).0 ((there x).0 u), λ u. (there x).1 ((same x).1 u)), mem ∙ same_mem)

alloc-Pops :
    (map : ℕ → Option ℕ) (a : LinearAllocator) (size : ℕ)
    → Valid a
    → MapsFresh map a
    → size + 2 ^ 34 < 2 ^ 64
    → Pops a (alloc map a size)
alloc-Pops map a size v os fits =
    let need = align_alloc (u64 (size + header_size)) in
    let enough : header_size ≤ need = omega arith in
    let small : need + block_size + 2 * a.pagesize < 2 ^ 64 = omega (arith, v.page_high) in
    elim (dec_lt (sub_u64 a.b.size a.b.len) need) [
      | no room ↦ rw (alloc-room map a size room) (
          take_space-Pops a a need v enough (omega (arith, v.blocks.0, v.top))
            (λ x. (λ u. u, λ u. u)) refl)
      | yes full ↦ elim (Option-cases (map (npages map a need v os small))) [
        | inl e ↦ rw (alloc-refused map a size full e) tt
        | inr (addr, e) ↦ rw (alloc-grown map a size full e) (
            take_space-Pops a (grown a need addr) need (grown-Valid map a need v os small addr e)
              enough (grown_room map a need v os small addr)
              (λ x. (λ u. elim u [ inl i ↦ absurd (omega arith) | inr o ↦ o ], λ u. inr u)) refl)
      ]
    ]

-- Where `mla_alloc` succeeds, `mla_free` of its result takes exactly that allocation back: the same
-- bytes are in use as before the two calls, and no byte of memory is written.
pub free-alloc :
    (map : ℕ → Option ℕ) (a : LinearAllocator) (size : ℕ) {ptr : ℕ} {a1 : LinearAllocator}
    → Valid a
    → MapsFresh map a
    → size + 2 ^ 34 < 2 ^ 64
    → alloc map a size ≡ some (ptr, a1)
    → (a2 : LinearAllocator) × (free a1 ptr ≡ ret a2)
      × ((x : ℕ) → Used a2 x ↔ Used a x)
      × (a2.mem ≡ a.mem)
free-alloc map a size v os fits e = subst (λ o. Pops a o) e (alloc-Pops map a size v os fits)
