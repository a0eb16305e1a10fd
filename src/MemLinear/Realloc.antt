-- ===== src/MemLinear/Realloc.antt =====
-- `mla_realloc`: what it keeps.
use native.Mathlib.Decide.{dec_lt, ℕ_discrete}
use ckit.Base.{
  ℕ, Bool, ◌+◌, ◌-◌, ◌^◌, ◌≤◌, ◌<◌, ◌≡◌, ◌≢◌, ◌⊎◌, inl, inr, refl, ap, sym, List, [], ◌∷◌, Option,
  none, some, arith, leb, ◌&&◌, Bool-cases, Outcome, ret, panic, fault, true, false,
}
use ckit.Base.Words.{sub_u64}
use ckit.MemLinear.{
  Block, LinearAllocator, start, alloc, find_block, is_most_recent_alloc, realloc, move_alloc,
  header_size, store, with_len, memcpy,
}
use ckit.MemLinear.Region.{Used}
use ckit.MemLinear.Valid.{Valid, MapsFresh}
use ckit.MemLinear.Alloc.{pages_for, Allocated, alloc_lem, not-Used}

-- The pointer `ptr` is one of the allocator's: its header and its bytes are in use.
pub record Owns (a : LinearAllocator) (ptr : ℕ) : Type 0 where
  pub above : header_size ≤ ptr
  pub small : ptr < 2 ^ 64
  pub bytes : (x : ℕ) → ptr - header_size ≤ x → x < ptr + a.hdr (ptr - header_size) → Used a x

-- The byte at `x` belongs to the allocation of `size` bytes at `ptr`, or to its header.
abbrev pub Within : ℕ → ℕ → ℕ → Type 0
Within ptr size x = (ptr - header_size ≤ x) × (x < ptr + size)

-- How the allocation at `ptr` becomes one of `newsize` bytes at `ptr2`.
pub record Moved (a : LinearAllocator) (ptr newsize ptr2 : ℕ) (a' : LinearAllocator) : Type 0 where
  pub above : header_size ≤ ptr2
  -- What fits of the old bytes stands there, and no byte in use is changed.
  pub copied :
      (i : ℕ) → i < a.hdr (ptr - header_size) → i < newsize → a'.mem (ptr2 + i) ≡ a.mem (ptr + i)
  pub mem : (x : ℕ) → Used a x → a'.mem x ≡ a.mem x
  -- The new allocation is the allocator's, and nobody else had its bytes.
  pub owned : (x : ℕ) → Within ptr2 newsize x → Used a' x
  pub fresh : (x : ℕ) → Within ptr2 newsize x → Used a x → Within ptr (a.hdr (ptr - header_size)) x
  -- What is in use stays in use, but for bytes of the old allocation.
  pub others : (x : ℕ) → Used a x → ¬ Within ptr (a.hdr (ptr - header_size)) x → Used a' x
  -- The header says that there is room, and no other header is written.
  pub room : newsize ≤ a'.hdr (ptr2 - header_size)
  pub heads : (x : ℕ) → x ≢ ptr2 - header_size → a'.hdr x ≡ a.hdr x
  -- What was the most recent allocation, and has not moved, still is, and with its new size.
  pub top :
      ptr2 ≡ ptr
      → find_block a.b a.older ptr ≡ ret 0
      → is_most_recent_alloc a 0 (ptr - header_size) ≡ true
      → (start a'.b + a'.b.len ≡ ptr + newsize) × (a'.hdr (ptr - header_size) ≡ newsize)
  pub valid : Valid a'

-- What `mla_realloc` is to return for `ptr` and `newsize`.
abbrev pub Reallocated :
    (ℕ → Option ℕ) → LinearAllocator → ℕ → ℕ → Outcome (ℕ × LinearAllocator) → Type 0
Reallocated map a ptr newsize (ret (ptr2, a')) = Moved a ptr newsize ptr2 a'
Reallocated map a ptr newsize fault = map (pages_for a newsize) ≡ none
Reallocated map a ptr newsize panic = ⊥

abbrev copied : ℕ → Option (ℕ × LinearAllocator) → Outcome (ℕ × LinearAllocator)
copied ptr none = fault
copied ptr (some (ptr2, a')) =
    ret (ptr2, record a' { mem = memcpy a'.mem ptr2 ptr (a'.hdr (ptr - header_size)) })

move_alloc-copied :
    (map : ℕ → Option ℕ) (a : LinearAllocator) (ptr newsize : ℕ)
    → move_alloc map a ptr newsize ≡ copied ptr (alloc map a newsize)
unfolding move_alloc
move_alloc-copied map a ptr newsize = ground arith

copied-Reallocated :
    (map : ℕ → Option ℕ) (a : LinearAllocator) (ptr newsize : ℕ) (o : Option (ℕ × LinearAllocator))
    → Allocated map a newsize o
    → Owns a ptr
    → a.hdr (ptr - header_size) ≤ newsize
    → Reallocated map a ptr newsize (copied ptr o)
copied-Reallocated map a ptr newsize none (full, e) own le = e
copied-Reallocated map a ptr newsize (some (ptr2, a')) (h, above, room, heads, same) own le =
    record {
      above = above;
      copied = λ i lt _. ground (arith, kept_size, ap (λ (f : ℕ → ℕ). f (ptr + i)) same);
      mem = λ x used. ground (arith, kept_size, ap (λ (f : ℕ → ℕ). f x) same, outside x used);
      owned = λ x (lo, hi). h.owned x lo hi;
      fresh = λ x (lo, hi) used. absurd (h.unused x lo hi used);
      others = λ x used _. h.kept x used;
      room = room;
      heads = heads;
      top = λ e _ _. absurd (other (ap (λ k. k - header_size) (sym e)));
      valid = record {
        blocks = h.valid.blocks;
        top = h.valid.top;
        page_low = h.valid.page_low;
        page_high = h.valid.page_high;
      };
    }
  where
    other : ptr - header_size ≢ ptr2 - header_size
    other e =
        h.unused (ptr - header_size) (omega arith) (omega arith)
          (own.bytes (ptr - header_size) (omega arith) (omega (arith, own.above)))

    kept_size : a'.hdr (ptr - header_size) ≡ a.hdr (ptr - header_size)
    kept_size = heads (ptr - header_size) other

    outside : (x : ℕ) → Used a x → ¬ ((ptr2 ≤ x) × (x < ptr2 + newsize))
    outside x used (lo, hi) = h.unused x (omega arith) hi used

find_block-zero :
    (b : Block) (cs : List Block) (ptr : ℕ)
    → find_block b cs ptr ≡ ret 0
    → start b ≤ sub_u64 ptr header_size
unfolding find_block
find_block-zero b [] ptr e = ground arith
find_block-zero b (c ∷ cs) ptr e = ground arith

-- In the current block an allocation at the top is shorter than what is in use.
top_fits :
    {a : LinearAllocator} {ptr i : ℕ}
    → Owns a ptr
    → find_block a.b a.older ptr ≡ ret i
    → is_most_recent_alloc a i (ptr - header_size) ≡ true
    → a.hdr (ptr - header_size) + header_size ≤ a.b.len
unfolding is_most_recent_alloc
top_fits {a} {ptr} own found top =
    ground (arith, own.above, own.small, find_block-zero a.b a.older ptr)

-- Where the most recent allocation ends.
top_ends :
    {a : LinearAllocator} {ptr : ℕ} (i : ℕ)
    → Owns a ptr
    → is_most_recent_alloc a i (ptr - header_size) ≡ true
    → start a.b + a.b.len ≡ ptr + a.hdr (ptr - header_size)
unfolding is_most_recent_alloc
top_ends {a} {ptr} i own top = ground (arith, own.above, top)

move_alloc-Reallocated :
    (map : ℕ → Option ℕ) (a : LinearAllocator) (ptr newsize : ℕ)
    → Valid a
    → MapsFresh map a
    → newsize + 2 ^ 34 < 2 ^ 64
    → Owns a ptr
    → a.hdr (ptr - header_size) ≤ newsize
    → Reallocated map a ptr newsize (move_alloc map a ptr newsize)
move_alloc-Reallocated map a ptr newsize v os fits own le =
    rw (move_alloc-copied map a ptr newsize) (
      copied-Reallocated map a ptr newsize (alloc map a newsize) (alloc_lem map a newsize v os fits)
        own le)

same-Reallocated :
    (map : ℕ → Option ℕ) (a : LinearAllocator) (ptr newsize i : ℕ)
    → Valid a
    → Owns a ptr
    → find_block a.b a.older ptr ≡ ret i
    → newsize ≤ a.hdr (ptr - header_size)
    → (newsize ≡ a.hdr (ptr - header_size)) ⊎ (is_most_recent_alloc a i (ptr - header_size) ≡ false)
    → Reallocated map a ptr newsize (ret (ptr, a))
unfolding is_most_recent_alloc
same-Reallocated map a ptr newsize i v own found le how = record {
  above = own.above;
  copied = λ i _ _. refl;
  mem = λ x _. refl;
  owned = λ x (lo, hi). own.bytes x lo (omega arith);
  fresh = λ x (lo, hi) _. (lo, omega arith);
  others = λ x used _. used;
  room = le;
  heads = λ x _. refl;
  top = λ _ zero t. ground (arith, how, found, zero, t, own.above);
  valid = v;
}

abbrev resized : LinearAllocator → ℕ → ℕ → ℕ → LinearAllocator
resized a ptr newsize len = record (with_len a len) {
  hdr = store a.hdr (ptr - header_size) newsize;
}

-- The most recent allocation with another size, and the end of what is in use with it.
resized-Reallocated :
    (map : ℕ → Option ℕ) (a : LinearAllocator) (ptr newsize len : ℕ)
    → Valid a
    → Owns a ptr
    → len ≤ a.b.size
    → start a.b + a.b.len ≡ ptr + a.hdr (ptr - header_size)
    → start a.b + len ≡ ptr + newsize
    → Reallocated map a ptr newsize (ret (ptr, resized a ptr newsize len))
resized-Reallocated map a ptr newsize len v own fits before after = record {
  above = own.above;
  copied = λ i _ _. refl;
  mem = λ x _. refl;
  owned = λ x (lo, hi). elim (dec_lt x (ptr + a.hdr (ptr - header_size))) [
    | yes old ↦ elim (own.bytes x lo old) [
      | inl u ↦ inl (omega (arith, after, u, hi))
      | inr u ↦ inr u
    ]
    | no new ↦ inl (omega (arith, before, after, new, hi))
  ];
  fresh = λ x (lo, hi) used. elim (dec_lt x (ptr + a.hdr (ptr - header_size))) [
    | yes old ↦ (lo, old)
    | no new ↦
        absurd (not-Used x v (omega (arith, before, new)) (omega (arith, after, fits, hi)) used)
  ];
  others = λ x used out. elim used [
    | inl u ↦ inl (
      u.0,
      elim (dec_lt x (ptr - header_size)) [
        | yes low ↦ omega (arith, after, low, own.above)
        | no high ↦ absurd (out (omega (arith, high), omega (arith, u, before)))
      ],
    )
    | inr u ↦ inr u
  ];
  room = ground arith;
  heads = λ x other. ground (arith, other);
  top = λ _ _ _. (after, ground arith);
  valid = record {
    blocks = (fits, v.blocks.1, v.blocks.2);
    top = v.top;
    page_low = v.page_low;
    page_high = v.page_high;
  };
}

module _ (map : ℕ → Option ℕ) (a : LinearAllocator) (ptr newsize i : ℕ)
    (found : find_block a.b a.older ptr ≡ ret i) where
  abbrev size : ℕ
  size = a.hdr (ptr - header_size)

  abbrev top : Bool
  top = is_most_recent_alloc a i (ptr - header_size)

  realloc-same : newsize ≡ size → realloc map a ptr newsize ≡ ret (ptr, a)
  unfolding realloc
  realloc-same e = ground (arith, found)

  realloc-keep : top ≡ false → newsize < size → realloc map a ptr newsize ≡ ret (ptr, a)
  unfolding realloc
  realloc-keep t less = ground (arith, found, t)

  realloc-shrink :
      top ≡ true
      → newsize < size
      → size + header_size ≤ a.b.len
      → Valid a
      → realloc map a ptr newsize ≡ ret (ptr, resized a ptr newsize (a.b.len - (size - newsize)))
  unfolding realloc
  realloc-shrink t less below v = ground (arith, found, t, v.blocks.0, v.top)

  -- Where the test for room does not wrap around.
  realloc-grow :
      Valid a
      → size < newsize
      → size ≤ a.b.size - a.b.len
      → top && leb newsize (a.b.size - a.b.len - size) ≡ true
      → realloc map a ptr newsize ≡ ret (ptr, resized a ptr newsize (a.b.len + (newsize - size)))
  unfolding realloc
  realloc-grow v more left t = ground (arith, found, t, v.blocks.0, v.top)

  realloc-move :
      Valid a
      → size < newsize
      → size ≤ a.b.size - a.b.len
      → top && leb newsize (a.b.size - a.b.len - size) ≡ false
      → realloc map a ptr newsize ≡ move_alloc map a ptr newsize
  unfolding realloc
  realloc-move v more left t = ground (arith, found, t, v.blocks.0, v.top)

-- With the guard that its test for room lacks, `mla_realloc` of an allocation `ptr` returns, or it
-- stores through the null pointer because the pages for `newsize` cannot be mapped. Where it returns,
-- what fits of the old bytes stands at the address returned, and no byte that was in use is changed.
-- The new bytes and their header are the allocator's, and of them only those of the old allocation were
-- in use before; all else that was in use still is. The header says that there is room for `newsize`,
-- no other header is written, and the most recent allocation, where it stays in place, ends what is in use
-- as before. The allocator stays valid. The guard: the allocation is not made larger, or at least as
-- many bytes are left in the current block as it has.
pub realloc_lem :
    (map : ℕ → Option ℕ) (a : LinearAllocator) (ptr newsize i : ℕ)
    → Valid a
    → MapsFresh map a
    → newsize + 2 ^ 34 < 2 ^ 64
    → Owns a ptr
    → find_block a.b a.older ptr ≡ ret i
    → (newsize ≤ a.hdr (ptr - header_size)) ⊎ (a.hdr (ptr - header_size) ≤ a.b.size - a.b.len)
    → Reallocated map a ptr newsize (realloc map a ptr newsize)
realloc_lem map a ptr newsize i v os fits own found guard =
    let size = a.hdr (ptr - header_size) in
    let top = is_most_recent_alloc a i (ptr - header_size) in
    elim (dec_lt newsize size) [
      | yes less ↦ elim (Bool-cases top) [
        | inl t ↦
            let below = top_fits own found t in
            let end : start a.b + a.b.len ≡ ptr + size = top_ends i own t in
            rw (realloc-shrink map a ptr newsize i found t less below v) (
              resized-Reallocated map a ptr newsize _ v own (omega (arith, v.blocks.0)) end
                (omega (arith, end, less, below)))
        | inr t ↦
            rw (realloc-keep map a ptr newsize i found t less)
              (same-Reallocated map a ptr newsize i v own found (omega arith) (inr t))
      ]
      | no more ↦ elim (ℕ_discrete newsize size) [
        | yes e ↦
            rw (realloc-same map a ptr newsize i found e)
              (same-Reallocated map a ptr newsize i v own found (omega arith) (inl e))
        | no ne ↦
            let bigger : size < newsize = omega arith in
            let left : size ≤ a.b.size - a.b.len = omega arith in
            elim (Bool-cases (top && leb newsize (a.b.size - a.b.len - size))) [
              | inl t ↦
                  let end : start a.b + a.b.len ≡ ptr + size = top_ends i own (ground (arith, t)) in
                  rw (realloc-grow map a ptr newsize i found v bigger left t) (
                    resized-Reallocated map a ptr newsize _ v own (ground (arith, t, left)) end
                      (omega (arith, end, bigger)))
              | inr t ↦
                  rw (realloc-move map a ptr newsize i found v bigger left t)
                    (move_alloc-Reallocated map a ptr newsize v os fits own (omega arith))
            ]
      ]
    ]
