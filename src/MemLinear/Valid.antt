-- ===== src/MemLinear/Valid.antt =====
-- The invariant of the allocator, and what is asked of `mem_pagealloc`.
use native.Mathlib.Nat.{mod-lt, div-add-mod', mul-div_cancel}
use native.Mathlib.Decide.{ℕ_discrete}
use ckit.Base.{ℕ, ◌+◌, ◌-◌, ◌*◌, ◌/◌, ◌%◌, ◌^◌, ◌≤◌, ◌<◌, ◌≡◌, ap, ◌∷◌, Option, some, arith}
use ckit.MemLinear.{LinearAllocator, start, grow_size, block_size}
use ckit.MemLinear.Region.{AllApart, AllBlocks}

-- The blocks share no page, no block hands out more than it has, and sizes of pages are sensible.
pub record Valid (a : LinearAllocator) : Type 0 where
  pub blocks : AllBlocks (a.b ∷ a.older)
  pub top : start a.b + a.b.size < 2 ^ 64
  pub page_low : 24 < a.pagesize
  pub page_high : a.pagesize < 2 ^ 32

-- `mmap` gives pages that are not mapped, inside the address space.
abbrev pub MapsFresh : (ℕ → Option ℕ) → LinearAllocator → Type 0
MapsFresh map a =
    (n addr : ℕ)
    → map n ≡ some addr
    → AllApart addr (addr + n * a.pagesize) (a.b ∷ a.older) × (addr + n * a.pagesize < 2 ^ 64)

round_up : (w p : ℕ) → 0 < p → (w + (p - w % p)) / p * p ≡ w + (p - w % p)
round_up w p h =
    let pages : (w / p + 1) * p ≡ w + (p - w % p) = omega (arith, div-add-mod' w p, mod-lt w h) in
    rw (← pages) (ap (λ k. k * p) (mul-div_cancel (w / p + 1) h))

-- `mla_grow` maps whole pages, with room for the block's header, the request and one more page.
pub grow_size_lem :
    (p size : ℕ)
    → 0 < p
    → size + block_size + 2 * p < 2 ^ 64
    → (grow_size p size / p * p ≡ grow_size p size)
      × (size + block_size + p ≤ grow_size p size)
      × (grow_size p size < 2 ^ 64)
unfolding grow_size
grow_size_lem p size h fits =
    let w = size + block_size + p in
    elim (ℕ_discrete (w % p) 0) [
      | yes whole ↦ ground (arith, whole, div-add-mod' w p)
      | no part ↦ ground (arith, part, mod-lt w h, round_up w p h)
    ]
