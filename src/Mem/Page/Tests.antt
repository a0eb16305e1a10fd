-- ===== src/Mem/Page/Tests.antt =====
-- Pages by evaluation, and the theorems over a system that hands out one page after the other.
use ckit.Base.{
  ℕ, ◌+◌, ◌*◌, ◌/◌, ◌^◌, ◌≡◌, inl, refl, Bool, true, false, not, ◌&&◌, ◌||◌, Option, none, some,
  leb, ltb, ◌==◌, if◌then◌else◌, arith,
}
use ckit.Mem.Page.{System, mem_pagesize, set_guard, mem_pagealloc, mem_pagefree}
use ckit.Mem.Page.Guard.{inside, Documented, Paged, mem_pagealloc_lem}

-- How far addresses have been handed out, and which of those below may be accessed.
abbrev Memory : Type 0
Memory = ℕ × (ℕ → Bool)

-- The next page.
abbrev next : ℕ → ℕ
next top = (top / 4096 + 1) * 4096

abbrev handed_out : ℕ → Memory → Option ℕ × Memory
handed_out n (top, m) =
    if n == 0 || leb (2 ^ 64) (next top + n)
    then (none, (top, m))
    else (some (next top), (next top + n, λ a. inside (next top) n a || (ltb a top && m a)))

abbrev hidden : ℕ → ℕ → Memory → Bool × Memory
hidden p n (top, m) = (true, (top, λ a. not (inside p n a) && m a))

abbrev os : System Memory
os = record { pagesize = 4096; map = handed_out; protect = hidden; unmap = hidden }

abbrev access : Memory → ℕ → Bool
access (top, m) a = ltb a top && m a

os-Documented : Documented os access
os-Documented = record {
  page = omega arith;
  map_fails = λ n w e a. ground (arith, e);
  map_none = λ w. refl;
  map_place = λ n w p e. ground (arith, e);
  map_fresh = λ n w p a e i. ground (arith, e, i);
  map_access = λ n w p a e. ground (arith, e);
  protect_access = λ p n w a. ground arith;
  unmap_access = λ p n w a. ground arith;
}

abbrev nothing : Memory
nothing = (4096, λ a. false)

-- Three pages, with the last one as guard page, although both flags are set.
both_flags_test :
    (access (mem_pagealloc os 0 3 3 nothing).2 8192 ≡ true)
    × (access (mem_pagealloc os 0 3 3 nothing).2 16384 ≡ false)
unfolding mem_pagealloc mem_pagesize set_guard
both_flags_test = (refl, refl)

-- 2 ^ 52 + 1 pages of 2 ^ 12 bytes: the size wraps around to one page.
wrap_test : (mem_pagealloc os 0 (2 ^ 52 + 1) 0 nothing).2.0 ≡ 12288
unfolding mem_pagealloc mem_pagesize set_guard
wrap_test = refl

mem_pagealloc_lem_example :
    (r : Option ℕ × Memory) × (mem_pagealloc os 0 3 1 nothing ≡ (r.0, 4096, r.1))
    × Paged os access os-Documented 3 1 nothing r
mem_pagealloc_lem_example =
    mem_pagealloc_lem os access os-Documented 0 3 1 nothing (inl refl) (omega arith) (omega arith)

-- What the first of these calls leaves.
abbrev paged : Option ℕ × ℕ × Memory
paged = (some 8192, 4096, (hidden 16384 4096 (handed_out 12288 nothing).1).1)

paged_test : mem_pagealloc os 0 3 1 nothing ≡ paged
unfolding mem_pagealloc mem_pagesize set_guard
paged_test = refl

-- The pages are given back.
pagefree_test : (mem_pagefree os 4096 8192 3 paged.2).0 ≡ true
unfolding mem_pagefree mem_pagesize
pagefree_test = refl
