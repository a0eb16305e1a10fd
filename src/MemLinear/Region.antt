-- ===== src/MemLinear/Region.antt =====
-- Which bytes of the address space the blocks cover, and which they have handed out.
use ckit.Base.{ℕ, ◌+◌, ◌≤◌, ◌<◌, ◌⊎◌, inl, inr, List, [], ◌∷◌, arith}
use ckit.MemLinear.{Block, LinearAllocator, start}

-- The byte at `x` belongs to the used part of a block.
abbrev pub InUse : Block → ℕ → Type 0
InUse b x = (start b ≤ x) × (x < start b + b.len)

abbrev pub AnyInUse : List Block → ℕ → Type 0
AnyInUse [] x = ⊥
AnyInUse (b ∷ bs) x = InUse b x ⊎ AnyInUse bs x

-- Some allocation, or the allocator's own state, owns the byte at `x`.
abbrev pub Used : LinearAllocator → ℕ → Type 0
Used a x = InUse a.b x ⊎ AnyInUse a.older x

-- The pages of `b` lie outside of those from `lo` up to `hi`.
abbrev pub Apart : ℕ → ℕ → Block → Type 0
Apart lo hi b = (hi ≤ b.addr) ⊎ (start b + b.size ≤ lo)

abbrev pub AllApart : ℕ → ℕ → List Block → Type 0
AllApart lo hi [] = Unit
AllApart lo hi (b ∷ bs) = Apart lo hi b × AllApart lo hi bs

-- No two blocks share a page, and each stays in the address space.
abbrev pub AllBlocks : List Block → Type 0
AllBlocks [] = Unit
AllBlocks (b ∷ bs) = (b.len ≤ b.size) × AllApart b.addr (start b + b.size) bs × AllBlocks bs

-- What lies in the free part of a block is not used by the blocks apart from it.
pub not-AnyInUse :
    (lo hi x : ℕ) (bs : List Block)
    → AllApart lo hi bs
    → AllBlocks bs
    → lo ≤ x
    → x < hi
    → ¬ AnyInUse bs x
not-AnyInUse lo hi x [] apart ok above below used = used
not-AnyInUse lo hi x (b ∷ bs) (p, apart) (fits, _, ok) above below (inl used) = omega arith
not-AnyInUse lo hi x (b ∷ bs) (p, apart) (fits, _, ok) above below (inr used) =
    not-AnyInUse lo hi x bs apart ok above below used
