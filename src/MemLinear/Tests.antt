-- ===== src/MemLinear/Tests.antt =====
-- The allocator by evaluation, and the theorems at inputs that meet their hypotheses.
use ckit.Base.{
  ℕ, ◌+◌, ◌^◌, ◌≤◌, ◌<◌, ◌≡◌, ◌↔◌, refl, List, [], ◌∷◌, Option, none, some, true, arith, ◌==◌,
  if◌then◌else◌, ret, inl, inr,
}
use mathlib.Core.Option
use ckit.MemLinear.{
  LinearAllocator, grow, grow_size, take_space, alloc, find_block, free, realloc, init, reset,
  Unmapped,
}
use ckit.MemLinear.Region.{Used}
use ckit.MemLinear.Valid.{Valid, MapsFresh}
use ckit.MemLinear.Stack.{free-alloc}
use ckit.MemLinear.Realloc.{Owns, Reallocated, realloc_lem}
use ckit.MemLinear.Overrun.{realloc-overrun}
use ckit.MemLinear.Reset.{newer, unmapped, AsMapped, reset-Calls}
use ckit.MemLinear.Calls.{allocs, Calls, done, next}

-- Pages for four at 2 ^ 20, and none for any other number.
abbrev four_pages : ℕ → Option ℕ
four_pages n = if n == 4 then some (2 ^ 20) else none

abbrev one_page : ℕ → Option ℕ
one_page n = if n == 1 then some (2 ^ 16) else none

-- A new allocator of one page of 4096 bytes.
abbrev fresh : LinearAllocator
fresh = record {
  b = record { addr = 2 ^ 16; size = 4072; len = 40 };
  older = [];
  pagesize = 4096;
  hdr = λ _. 0;
  mem = λ _. 0;
}

-- The allocator with one allocation of `size` bytes, at 65608.
abbrev with_one : ℕ → LinearAllocator
with_one size = record fresh {
  b = record { addr = 2 ^ 16; size = 4072; len = 48 + size };
  hdr = λ x. if x == 65600 then size else 0;
}

init-fresh : init one_page 4096 1 (λ _. 0) (λ _. 0) ≡ ret (some fresh)
unfolding init
init-fresh = refl

fresh-Valid : Valid fresh
fresh-Valid = omega arith

with_one-Valid : (size : ℕ) → size ≤ 4024 → Valid (with_one size)
with_one-Valid size h = omega arith

four_pages-MapsFresh : (size : ℕ) → MapsFresh four_pages (with_one size)
four_pages-MapsFresh size n addr e = ground arith

four_pages-fresh : MapsFresh four_pages fresh
four_pages-fresh n addr e = ground arith

with_one-Owns : (size : ℕ) → Owns (with_one size) 65608
with_one-Owns size = record {
  above = omega arith;
  small = omega arith;
  bytes = λ x lo hi. inl (omega (arith, hi));
}

-- The first allocations, as in the unit test: nine bytes take 24 with their header.
two_allocs : Option.map (λ r. r.0) (alloc four_pages fresh 9) ≡ some 65608
unfolding alloc take_space
two_allocs = refl

free-alloc_example :
    (a2 : LinearAllocator) × (free (take_space fresh 24).1 65608 ≡ ret a2)
    × ((x : ℕ) → Used a2 x ↔ Used fresh x)
    × (a2.mem ≡ fresh.mem)
unfolding take_space alloc
free-alloc_example = free-alloc four_pages fresh 9 fresh-Valid four_pages-fresh (omega arith) refl

found_one : (size : ℕ) → find_block (with_one size).b [] 65608 ≡ ret 0
unfolding find_block
found_one size = refl

realloc_lem_example :
    Reallocated four_pages (with_one 16) 65608 100 (realloc four_pages (with_one 16) 65608 100)
realloc_lem_example =
    realloc_lem four_pages (with_one 16) 65608 100 0 (with_one-Valid 16 (omega arith))
      (four_pages-MapsFresh 16) (omega arith) (with_one-Owns 16) (found_one 16) (inr (omega arith))

-- 1024 bytes are left behind an allocation of 3000; it is grown to 5000 in place.
realloc-overrun_example :
    (a' : LinearAllocator) × (realloc four_pages (with_one 3000) 65608 5000 ≡ ret (65608, a'))
    × (a'.b.size < a'.b.len)
realloc-overrun_example =
    realloc-overrun four_pages (with_one 3000) 65608 5000 (with_one-Valid 3000 (omega arith))
      (found_one 3000) refl (omega arith) (omega arith) (omega arith)

-- A request for two pages and more maps four, of which the reset gives all back.
abbrev two_blocks : LinearAllocator
two_blocks = record fresh {
  b = record { addr = 2 ^ 20; size = 16360; len = 8200 };
  older = fresh.b ∷ [];
  hdr = λ x. if 1048600 == x then 8192 else 0;
}

two_blocks-Calls : Calls (λ n addr. four_pages n ≡ some addr) fresh two_blocks
unfolding alloc grow grow_size take_space
two_blocks-Calls = next done (allocs four_pages 8192 1048608 (λ n addr e. e) refl)

reset-Calls_example :
    (a1 : LinearAllocator) × (freed : List Unmapped) × (reset (λ _. true) two_blocks
      ≡ ret (a1, freed))
    × (freed ≡ unmapped 4096 (newer two_blocks.b (fresh.b ∷ [])) [])
    × AsMapped (λ n addr. four_pages n ≡ some addr) freed
    × (a1.b ≡ fresh.b)
    × (a1.older ≡ fresh.older)
    × (a1.pagesize ≡ fresh.pagesize)
reset-Calls_example =
    reset-Calls (λ n addr. four_pages n ≡ some addr) one_page 4096 1 (λ _. 0) (λ _. 0) (λ _. true)
      init-fresh two_blocks-Calls (λ _. refl)
