-- ===== src/MemLinear/Calls.antt =====
-- pkg/rbase/mem_linear.c: any calls of `mla_alloc`, `mla_free` and `mla_realloc`, and which pages the
-- blocks that they add are.
use ckit.Base.{
  ℕ, ◌+◌, ◌^◌, ◌<◌, ◌≡◌, ◌⊎◌, inl, inr, ap, ◌∙◌, sym, ◌/◌, Bool-cases, ltb, ◌∷◌, Option, some,
  arith, Option-cases, ret,
}
use ckit.Base.Words.{u64, sub_u64}
use ckit.MemLinear.{
  Block, LinearAllocator, alloc, grow, grow_size, take_space, free, realloc, move_alloc, pages_of,
  block_size, header_size, align_alloc,
}

module _ (M : ℕ → ℕ → Type 0) where
  -- A call that returns. What `mem_pagealloc` returns in it for `n` pages is recorded by `M`: `M n addr`
  -- says that `n` pages were mapped at `addr`.
  pub data Call (a a' : LinearAllocator) : Type 0 where
    allocs :
        (map : ℕ → Option ℕ) (size ptr : ℕ)
        → ((n addr : ℕ) → map n ≡ some addr → M n addr)
        → alloc map a size ≡ some (ptr, a')
        → Call a a'
    frees : (ptr : ℕ) → free a ptr ≡ ret a' → Call a a'
    reallocs :
        (map : ℕ → Option ℕ) (ptr newsize ptr2 : ℕ)
        → ((n addr : ℕ) → map n ≡ some addr → M n addr)
        → realloc map a ptr newsize ≡ ret (ptr2, a')
        → Call a a'

  pub data Calls (a : LinearAllocator) : LinearAllocator → Type 0 where
    done : Calls a a
    next : {a1 a2 : LinearAllocator} → Calls a a1 → Call a1 a2 → Calls a a2

  -- The pages of a block were mapped, as many as `mla_free_block` unmaps and at its address.
  abbrev pub PagesMapped : ℕ → Block → Type 0
  PagesMapped pagesize b = M ((pages_of pagesize b).npages) ((pages_of pagesize b).addr)

  -- A call keeps the list of blocks, but for the length of the current one, or it adds one block.
  abbrev pub Extends : LinearAllocator → LinearAllocator → Type 0
  Extends a a' =
      (a'.pagesize ≡ a.pagesize)
      × (((a'.b.addr ≡ a.b.addr) × (a'.b.size ≡ a.b.size) × (a'.older ≡ a.older))
          ⊎ ((a'.older ≡ a.b ∷ a.older) × PagesMapped a.pagesize a'.b))

grow_size-word : (pagesize size : ℕ) → grow_size pagesize size < 2 ^ 64
unfolding grow_size
grow_size-word pagesize size = ground arith

size_back : (bytes : ℕ) → bytes < 2 ^ 64 → u64 (sub_u64 bytes block_size + block_size) ≡ bytes
size_back bytes small = omega (arith, small)

-- What `mla_grow` adds is unmapped as it was mapped.
grow-pages :
    (map : ℕ → Option ℕ) (a : LinearAllocator) (size : ℕ) {a' : LinearAllocator}
    → grow map a size ≡ some a'
    → (a'.pagesize ≡ a.pagesize)
      × (a'.older ≡ a.b ∷ a.older)
      × (map ((pages_of a.pagesize a'.b).npages) ≡ some a'.b.addr)
unfolding grow
grow-pages map a size {a'} e =
    let bytes = grow_size a.pagesize size in
    let back = size_back bytes (grow_size-word a.pagesize size) in
    elim (Option-cases (map (bytes / a.pagesize))) [
      | inl full ↦ ground (arith, e, full)
      | inr (addr, got) ↦
          let size_of : a'.b.size ≡ sub_u64 bytes block_size = ground (arith, e, got) in
          let addr_of : a'.b.addr ≡ addr = ground (arith, e, got) in
          (
            ground (arith, e, got),
            ground (arith, e, got),
            ap (λ z. map (u64 (z + block_size) / a.pagesize)) size_of
                ∙ ap (λ n. map (n / a.pagesize)) back
                ∙ got
                ∙ ap some (sym addr_of),
          )
    ]

module _ (M : ℕ → ℕ → Type 0) where
  alloc-Extends :
      (map : ℕ → Option ℕ) (a : LinearAllocator) (size ptr : ℕ) {a' : LinearAllocator}
      → ((n addr : ℕ) → map n ≡ some addr → M n addr)
      → alloc map a size ≡ some (ptr, a')
      → Extends M a a'
  unfolding alloc take_space
  alloc-Extends map a size ptr {a'} mapped e =
      let allocsize = align_alloc (u64 (size + header_size)) in
      elim (Bool-cases (ltb (sub_u64 a.b.size a.b.len) allocsize)) [
        | inr room ↦ (ground (arith, e, room), inl (ground (arith, e, room)))
        | inl full ↦ elim (Option-cases (grow map a allocsize)) [
          | inl no_pages ↦ ground (arith, e, full, no_pages)
          | inr (a1, grown) ↦
              let (page, added, got) = grow-pages map a allocsize grown in
              let same_page : a'.pagesize ≡ a1.pagesize = ground (arith, e, full, grown) in
              let same_older : a'.older ≡ a1.older = ground (arith, e, full, grown) in
              let same_addr : a'.b.addr ≡ a1.b.addr = ground (arith, e, full, grown) in
              let same_size : a'.b.size ≡ a1.b.size = ground (arith, e, full, grown) in
              (
                same_page ∙ page,
                inr (same_older ∙ added, rw (same_addr, same_size) (mapped _ _ got)),
              )
        ]
      ]

  free-Extends :
      (a : LinearAllocator) (ptr : ℕ) {a' : LinearAllocator} → free a ptr ≡ ret a' → Extends M a a'
  unfolding free
  free-Extends a ptr e = ground arith

  realloc-Extends :
      (map : ℕ → Option ℕ) (a : LinearAllocator) (ptr newsize ptr2 : ℕ) {a' : LinearAllocator}
      → ((n addr : ℕ) → map n ≡ some addr → M n addr)
      → realloc map a ptr newsize ≡ ret (ptr2, a')
      → Extends M a a'
  unfolding realloc move_alloc
  realloc-Extends map a ptr newsize ptr2 {a'} mapped e = elim (Option-cases (alloc map a newsize)) [
    | inl none_left ↦ ground arith
    | inr ((ptr3, a3), moved) ↦ ground (arith, alloc-Extends map a newsize ptr3 mapped moved)
  ]

  pub Call-Extends : {a a' : LinearAllocator} → Call M a a' → Extends M a a'
  Call-Extends {a} {a'} (allocs map size ptr mapped e) = alloc-Extends map a size ptr mapped e
  Call-Extends {a} {a'} (frees ptr e) = free-Extends a ptr e
  Call-Extends {a} {a'} (reallocs map ptr newsize ptr2 mapped e) =
      realloc-Extends map a ptr newsize ptr2 mapped e
