-- ===== src/MemLinear/Reset.antt =====
-- `MemLinearReset` and `MemLinearFree`, after any calls of the other functions.
use mathlib.Core.List.{foldl}
use ckit.Base.{
  ℕ, ◌≡◌, inl, inr, refl, sym, ◌∙◌, List, [], ◌∷◌, Option, some, arith, map, ret, true, Bool,
}
use ckit.MemLinear.{
  Block, LinearAllocator, init, Unmapped, pages_of, reset_loop, free_loop, reset, free_all,
  allocator_size,
}
use ckit.MemLinear.Calls.{Calls, done, next, PagesMapped, Extends, Call-Extends}

-- The first block of the allocator, and those after it, the latest first.
abbrev pub root : Block → List Block → Block
root b [] = b
root b (c ∷ cs) = root c cs

abbrev pub newer : Block → List Block → List Block
newer b [] = []
newer b (c ∷ cs) = b ∷ newer c cs

-- A call leaves the pages of the root block and the page size alone.
record SameRoot (a a' : LinearAllocator) : Type 0 where
  addr : (root a'.b a'.older).addr ≡ (root a.b a.older).addr
  size : (root a'.b a'.older).size ≡ (root a.b a.older).size
  pages : a'.pagesize ≡ a.pagesize

SameRoot-refl : (a : LinearAllocator) → SameRoot a a
SameRoot-refl a = record { addr = refl; size = refl; pages = refl }

-- The current block may be the root itself.
root_len :
    (b b' : Block) (cs : List Block)
    → b'.addr ≡ b.addr
    → b'.size ≡ b.size
    → ((root b' cs).addr ≡ (root b cs).addr) × ((root b' cs).size ≡ (root b cs).size)
root_len b b' [] e f = (e, f)
root_len b b' (c ∷ cs) e f = (refl, refl)

Extends-SameRoot : (M : ℕ → ℕ → Type 0) (a a' : LinearAllocator) → Extends M a a' → SameRoot a a'
Extends-SameRoot M a a' (page, inl (e, f, rest)) =
    let (addr, size) = root_len a.b a'.b a.older e f in
    record { addr = rw rest addr; size = rw rest size; pages = page }
Extends-SameRoot M a a' (page, inr (added, _)) = record {
  addr = rw added refl;
  size = rw added refl;
  pages = page;
}

module _ (M : ℕ → ℕ → Type 0) where
  -- The pages of every block but the root were mapped.
  abbrev AllMapped : ℕ → List Block → Type 0
  AllMapped pagesize [] = Unit
  AllMapped pagesize (b ∷ bs) = PagesMapped M pagesize b × AllMapped pagesize bs

  newer-AllMapped :
      (pagesize : ℕ) (b b' : Block) (cs : List Block)
      → b'.addr ≡ b.addr
      → b'.size ≡ b.size
      → AllMapped pagesize (newer b cs)
      → AllMapped pagesize (newer b' cs)
  newer-AllMapped pagesize b b' [] e f h = tt
  newer-AllMapped pagesize b b' (c ∷ cs) e f (h, hs) = (rw (e, f) h, hs)

  Extends-AllMapped :
      (a a' : LinearAllocator)
      → Extends M a a'
      → AllMapped a.pagesize (newer a.b a.older)
      → AllMapped a'.pagesize (newer a'.b a'.older)
  Extends-AllMapped a a' (page, inl (e, f, rest)) h =
      rw (page, rest) (newer-AllMapped a.pagesize a.b a'.b a.older e f h)
  Extends-AllMapped a a' (page, inr (added, given)) h = rw (page, added) (given, h)

  record Kept (a a' : LinearAllocator) : Type 0 where
    same : SameRoot a a'
    mapped : AllMapped a'.pagesize (newer a'.b a'.older)

  Calls-Kept :
      {a a' : LinearAllocator} → AllMapped a.pagesize (newer a.b a.older) → Calls M a a' → Kept a a'
  Calls-Kept {a} h done = record { same = SameRoot-refl a; mapped = h }
  Calls-Kept {a} {a'} h (next {a1 = a1} cs c) =
      let before = Calls-Kept h cs in
      let how = Call-Extends M c in
      let last = Extends-SameRoot M a1 a' how in
      record {
        same = record {
          addr = last.addr ∙ before.same.addr;
          size = last.size ∙ before.same.size;
          pages = last.pages ∙ before.same.pages;
        };
        mapped = Extends-AllMapped a1 a' how before.mapped;
      }

-- The unmapped pages of `bs`, the last block first, in front of `freed`.
abbrev pub unmapped : ℕ → List Block → List Unmapped → List Unmapped
unmapped pagesize bs freed = foldl (λ f b. pages_of pagesize b ∷ f) freed bs

-- Every call of `mem_pagefree` was given pages as `M` has them.
abbrev pub AsMapped : (ℕ → ℕ → Type 0) → List Unmapped → Type 0
AsMapped M [] = Unit
AsMapped M (u ∷ us) = M u.npages u.addr × AsMapped M us

unmapped-AsMapped :
    (M : ℕ → ℕ → Type 0) (pagesize : ℕ) (bs : List Block) (freed : List Unmapped)
    → AllMapped M pagesize bs
    → AsMapped M freed
    → AsMapped M (unmapped pagesize bs freed)
unmapped-AsMapped M pagesize [] freed h known = known
unmapped-AsMapped M pagesize (b ∷ bs) freed (h, hs) known =
    unmapped-AsMapped M pagesize bs (pages_of pagesize b ∷ freed) hs (h, known)

module _ (unmap : Unmapped → Bool) (works : (u : Unmapped) → unmap u ≡ true) (pagesize : ℕ) where
  reset_loop-root :
      (b : Block) (cs : List Block) (freed : List Unmapped)
      → reset_loop unmap pagesize b cs freed ≡ ret (root b cs, unmapped pagesize (newer b cs) freed)
  unfolding reset_loop
  reset_loop-root b [] freed = refl
  reset_loop-root b (c ∷ cs) freed =
      rw (works (pages_of pagesize b)) (reset_loop-root c cs (pages_of pagesize b ∷ freed))

  free_loop-all :
      (bs : List Block) (freed : List Unmapped)
      → free_loop unmap pagesize bs freed ≡ ret (unmapped pagesize bs freed)
  unfolding free_loop
  free_loop-all [] freed = refl
  free_loop-all (b ∷ bs) freed =
      rw (works (pages_of pagesize b)) (free_loop-all bs (pages_of pagesize b ∷ freed))

init-alone :
    (map : ℕ → Option ℕ) (pagesize npages : ℕ) (hdr mem : ℕ → ℕ) {a0 : LinearAllocator}
    → init map pagesize npages hdr mem ≡ ret (some a0)
    → (a0.older ≡ []) × (a0.b.len ≡ allocator_size)
unfolding init
init-alone map pagesize npages hdr mem e = (ground arith, ground arith)

-- `MemLinearReset`, after any calls on a new allocator, gives back the blocks of the new allocator:
-- its root block alone, as long as at first. It unmaps exactly the other blocks, each once, if no
-- unmapping fails, and every unmapping is of as many pages as `mem_pagealloc` had mapped in one of the
-- calls, at the address that it had returned for them.
pub reset-Calls :
    (M : ℕ → ℕ → Type 0) (map : ℕ → Option ℕ) (pagesize npages : ℕ) (hdr mem : ℕ → ℕ)
    (unmap : Unmapped → Bool) {a0 a : LinearAllocator}
    → init map pagesize npages hdr mem ≡ ret (some a0)
    → Calls M a0 a
    → ((u : Unmapped) → unmap u ≡ true)
    → (a1 : LinearAllocator) × (freed : List Unmapped) × (reset unmap a ≡ ret (a1, freed))
      × (freed ≡ unmapped a.pagesize (newer a.b a.older) [])
      × AsMapped M freed
      × (a1.b ≡ a0.b)
      × (a1.older ≡ a0.older)
      × (a1.pagesize ≡ a0.pagesize)
unfolding reset
reset-Calls M map pagesize npages hdr mem unmap {a0} {a} start cs works =
    let (alone, len) = init-alone map pagesize npages hdr mem start in
    let kept = Calls-Kept M (rw alone tt) cs in
    let same = kept.same in
    let first : root a0.b a0.older ≡ a0.b = rw alone refl in
    let top = root a.b a.older in
    (
      record a {
        b = record { addr = top.addr; size = top.size; len = allocator_size };
        older = [];
      },
      unmapped a.pagesize (newer a.b a.older) [],
      rw (reset_loop-root unmap works a.pagesize a.b a.older []) refl,
      refl,
      unmapped-AsMapped M a.pagesize (newer a.b a.older) [] kept.mapped tt,
      ground (arith, same.addr, same.size, first, len),
      sym alone,
      same.pages,
    )

-- `MemLinearFree` unmaps every block once, if no unmapping fails.
pub free_all_lem :
    (unmap : Unmapped → Bool) (a : LinearAllocator)
    → ((u : Unmapped) → unmap u ≡ true)
    → free_all unmap a ≡ ret (unmapped a.pagesize (a.b ∷ a.older) [])
unfolding free_all
free_all_lem unmap a works = free_loop-all unmap works a.pagesize (a.b ∷ a.older) []
