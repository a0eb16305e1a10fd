-- ===== src/Mem/Page.antt =====
-- pkg/rbase/mem_page.c, as it is built for Unix: pages of the system with guard pages.
-- `mmap`, `mprotect`, `munmap` and `sysconf` are not part of the sources: they are the parameter
-- `System`, over the memory of the process, a `W`. The samples that a debug build takes of the new
-- memory are left out.
pub mod Guard
mod Tests
use ckit.Base.{
  ℕ, zero, suc, ◌+◌, ◌*◌, ◌/◌, ◌%◌, Bool, true, false, ◌&&◌, ◌||◌, Option, none, some, ltb, ◌==◌,
  if◌then◌else◌,
}
use ckit.Base.Words.{u64, sub_u64}

-- The system: `map` of a size answers with an address, or with none for MAP_FAILED; `protect` (with
-- PROT_NONE) and `unmap` take an address and a size and answer whether they succeed.
pub record System (W : Type 0) : Type 0 where
  pub pagesize : ℕ
  pub map : ℕ → W → Option ℕ × W
  pub protect : ℕ → ℕ → W → Bool × W
  pub unmap : ℕ → ℕ → W → Bool × W

-- `MemPageGuardHigh` and `MemPageGuardLow` in `flags`.
abbrev pub guard_high : ℕ → Bool
guard_high flags = flags % 2 == 1

abbrev pub guard_low : ℕ → Bool
guard_low flags = flags / 2 % 2 == 1

-- `protPagePtr`
abbrev pub prot_page : ℕ → ℕ → ℕ → ℕ → ℕ
prot_page pagesize flags ptr allocsize =
    if guard_high flags then u64 (ptr + sub_u64 allocsize pagesize) else ptr

module _ {W : Type 0} (os : System W) where
  -- `mem_pagesize`: the answer, and what its variable `v` holds.
  pub mem_pagesize : ℕ → ℕ × ℕ
  mem_pagesize v = let v1 = if v == 0 then os.pagesize else v in (v1, v1)

  -- The end of `mem_pagealloc`, in memory that is mapped at `ptr`: the guard page.
  pub set_guard : ℕ → ℕ → ℕ → ℕ → ℕ → W → Option ℕ × W
  set_guard pagesize npages flags allocsize ptr w =
      let (set, w1) = os.protect (prot_page pagesize flags ptr allocsize) pagesize w in
      if (guard_high flags || guard_low flags) && ltb 0 npages
      then (if set then (some ptr, w1) else (none, (os.unmap ptr allocsize w1).1))
      else (some ptr, w)

  -- `mem_pagealloc`: the pages, what `v` holds, and the memory.
  pub mem_pagealloc : ℕ → ℕ → ℕ → W → Option ℕ × ℕ × W
  mem_pagealloc v npages flags w =
      let (pagesize, v1) = mem_pagesize v in
      let allocsize = u64 (npages * pagesize) in
      let (mapped, w1) = os.map allocsize w in
      elim mapped [
        | none ↦ (none, v1, w1)
        | some ptr ↦ let (p, w2) = set_guard pagesize npages flags allocsize ptr w1 in (p, v1, w2)
      ]

  -- `mem_pagefree`
  pub mem_pagefree : ℕ → ℕ → ℕ → W → Bool × ℕ × W
  mem_pagefree v ptr npages w =
      let (pagesize, v1) = mem_pagesize v in
      let (done, w1) = os.unmap ptr (u64 (pagesize * npages)) w in (done, v1, w1)
