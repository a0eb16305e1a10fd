-- ===== src/MemLinear/Alloc.antt =====
-- `mla_alloc`: what it hands out was free, is now owned, and is as large as was asked for.
use native.Mathlib.Decide.{dec_lt}
use ckit.Base.{
  ℕ, ◌+◌, ◌-◌, ◌*◌, ◌/◌, ◌^◌, ◌≤◌, ◌<◌, ◌≡◌, ◌≢◌, inl, inr, refl, ap, subst, ◌∷◌, Option, none,
  some, arith, Option-cases,
}
use ckit.Base.Words.{u64, sub_u64}
use ckit.MemLinear.{
  LinearAllocator, start, grow_size, grow, take_space, alloc, block_size, header_size, align_alloc,
}
use ckit.MemLinear.Region.{Used, AllApart, not-AnyInUse}
use ckit.MemLinear.Valid.{Valid, MapsFresh, grow_size_lem}

-- A step from `a` to `a'` that hands out the bytes from `lo` up to `hi`.
pub record HandsOut (a a' : LinearAllocator) (lo hi : ℕ) : Type 0 where
  pub valid : Valid a'
  pub unused : (x : ℕ) → lo ≤ x → x < hi → ¬ Used a x
  pub owned : (x : ℕ) → lo ≤ x → x < hi → Used a' x
  pub kept : (x : ℕ) → Used a x → Used a' x

-- The free space of the current block belongs to nobody.
pub not-Used :
    {a : LinearAllocator} (x : ℕ)
    → Valid a
    → start a.b + a.b.len ≤ x
    → x < start a.b + a.b.size
    → ¬ Used a x
not-Used {a} x v lo hi (inl used) = omega arith
not-Used {a} x v lo hi (inr used) =
    not-AnyInUse a.b.addr (start a.b + a.b.size) x a.older v.blocks.1 v.blocks.2 (omega arith) hi
      used

module _ (a : LinearAllocator) (size : ℕ) (v : Valid a) (room : a.b.len + size ≤ a.b.size) where
  take_space-Valid : Valid (take_space a size).1
  unfolding take_space
  take_space-Valid = record {
    blocks = (omega (arith, v.top), v.blocks.1, v.blocks.2);
    top = v.top;
    page_low = v.page_low;
    page_high = v.page_high;
  }

  take_space-HandsOut :
      HandsOut a (take_space a size).1 (start a.b + a.b.len) (start a.b + a.b.len + size)
  unfolding take_space
  take_space-HandsOut = record {
    valid = take_space-Valid;
    unused = λ x lo hi. not-Used x v lo (omega arith);
    owned = λ x lo hi. inl (omega (arith, v.top));
    kept = λ x used. elim used [ inl u ↦ inl (omega (arith, v.top)) | inr u ↦ inr u ];
  }

-- The allocator with a new block at `addr`.
abbrev pub grown : LinearAllocator → ℕ → ℕ → LinearAllocator
grown a need addr = record a {
  b = record { addr = addr; size = sub_u64 (grow_size a.pagesize need) block_size; len = 0 };
  older = a.b ∷ a.older;
}

module _ (map : ℕ → Option ℕ) (a : LinearAllocator) (need : ℕ) (v : Valid a) (os : MapsFresh map a)
    (fits : need + block_size + 2 * a.pagesize < 2 ^ 64) where
  abbrev pub npages : ℕ
  npages = grow_size a.pagesize need / a.pagesize

  bytes :
      (npages * a.pagesize ≡ grow_size a.pagesize need)
      × (need + block_size + a.pagesize ≤ grow_size a.pagesize need)
      × (grow_size a.pagesize need < 2 ^ 64)
  bytes = grow_size_lem a.pagesize need (omega (arith, v.page_low)) fits

  pub grown-Valid : (addr : ℕ) → map npages ≡ some addr → Valid (grown a need addr)
  grown-Valid addr e = record {
    blocks = (omega arith, within, v.blocks);
    top = omega (arith, (os npages addr e).1, bytes);
    page_low = v.page_low;
    page_high = v.page_high;
  }
    where
      within :
          AllApart addr
            (addr + block_size + sub_u64 (grow_size a.pagesize need) block_size)
            (a.b ∷ a.older)
      within =
          subst (λ hi. AllApart addr hi (a.b ∷ a.older)) (omega (arith, bytes)) (os npages addr e).0

  pub grown_room : (addr : ℕ) → (grown a need addr).b.len + need ≤ (grown a need addr).b.size
  grown_room addr = omega (arith, bytes)

  -- What the new block hands out was not used before either.
  grown-HandsOut :
      (addr : ℕ)
      → map npages ≡ some addr
      → let lo = addr + block_size + 0 in
        HandsOut a (take_space (grown a need addr) need).1 lo (lo + need)
  grown-HandsOut addr e =
      let h = take_space-HandsOut (grown a need addr) need (grown-Valid addr e) (grown_room addr) in
      record {
        valid = h.valid;
        unused = λ x lo hi used. h.unused x lo hi (inr used);
        owned = h.owned;
        kept = λ x used. h.kept x (inr used);
      }

HandsOut-le :
    {a a' : LinearAllocator} {lo hi : ℕ} (end : ℕ)
    → end ≤ hi
    → HandsOut a a' lo hi
    → HandsOut a a' lo end
HandsOut-le end le h = record {
  valid = h.valid;
  unused = λ x low high. h.unused x low (omega arith);
  owned = λ x low high. h.owned x low (omega arith);
  kept = h.kept;
}

-- The pages that `mla_alloc` asks for, for a request of `size` bytes that the block cannot hold.
abbrev pub pages_for : LinearAllocator → ℕ → ℕ
pages_for a size = grow_size a.pagesize (align_alloc (u64 (size + header_size))) / a.pagesize

-- What `mla_alloc` may return for `size` bytes.
abbrev pub Allocated : (ℕ → Option ℕ) → LinearAllocator → ℕ → Option (ℕ × LinearAllocator) → Type 0
Allocated map a size none =
    (a.b.size - a.b.len < size + header_size + 7) × (map (pages_for a size) ≡ none)
Allocated map a size (some (p, a')) =
    HandsOut a a' (p - header_size) (p + size)
    × (header_size ≤ p)
    × (size ≤ a'.hdr (p - header_size))
    × ((x : ℕ) → x ≢ p - header_size → a'.hdr x ≡ a.hdr x)
    × (a'.mem ≡ a.mem)

take_space-Allocated :
    (map : ℕ → Option ℕ) (a a2 : LinearAllocator) (size need : ℕ)
    → let at = start a2.b + a2.b.len in
      HandsOut a (take_space a2 need).1 at (at + need)
      → size + header_size ≤ need
      → need < 2 ^ 64
      → a2.hdr ≡ a.hdr
      → a2.mem ≡ a.mem
      → Allocated map a size (some (take_space a2 need))
unfolding take_space
take_space-Allocated map a a2 size need h le fits heads same =
    let at = start a2.b + a2.b.len in
    let there : at + header_size - header_size ≡ at = omega arith in
    (
      rw there (HandsOut-le (at + header_size + size) (omega arith) h),
      omega arith,
      rw there (ground arith),
      λ x other. ground (arith, ap (λ (f : ℕ → ℕ). f x) heads),
      same,
    )

module _ (map : ℕ → Option ℕ) (a : LinearAllocator) (size : ℕ) where
  abbrev pub needed : ℕ
  needed = align_alloc (u64 (size + header_size))

  pub alloc-room :
      ¬ (sub_u64 a.b.size a.b.len < needed) → alloc map a size ≡ some (take_space a needed)
  unfolding alloc
  alloc-room room = ground arith

  pub alloc-refused :
      sub_u64 a.b.size a.b.len < needed → map (pages_for a size) ≡ none → alloc map a size ≡ none
  unfolding alloc grow
  alloc-refused full e = ground (arith, e)

  pub alloc-grown :
      {addr : ℕ}
      → sub_u64 a.b.size a.b.len < needed
      → map (pages_for a size) ≡ some addr
      → alloc map a size ≡ some (take_space (grown a needed addr) needed)
  unfolding alloc grow
  alloc-grown full e = ground (arith, e)

pub alloc_lem :
    (map : ℕ → Option ℕ) (a : LinearAllocator) (size : ℕ)
    → Valid a
    → MapsFresh map a
    → size + 2 ^ 34 < 2 ^ 64
    → Allocated map a size (alloc map a size)
alloc_lem map a size v os fits =
    let need = align_alloc (u64 (size + header_size)) in
    let enough : size + header_size ≤ need = omega arith in
    let low : need < 2 ^ 64 = omega arith in
    let small : need + block_size + 2 * a.pagesize < 2 ^ 64 = omega (arith, v.page_high) in
    elim (dec_lt (sub_u64 a.b.size a.b.len) need) [
      | no room ↦ rw (alloc-room map a size room) (
          take_space-Allocated map a a size need
            (take_space-HandsOut a need v (omega (arith, v.blocks.0, v.top))) enough low refl refl)
      | yes full ↦ elim (Option-cases (map (npages map a need v os small))) [
        | inl e ↦ rw (alloc-refused map a size full e) (omega (arith, v.blocks.0, v.top), e)
        | inr (addr, e) ↦ rw (alloc-grown map a size full e) (
            take_space-Allocated map a (grown a need addr) size need
              (grown-HandsOut map a need v os small addr e) enough low refl refl)
      ]
    ]
