-- ===== src/Mem/Page/Guard.antt =====
-- `mem_pagealloc` and `mem_pagefree`: which addresses a thread may access.
use ckit.Base.{
  ℕ, ◌+◌, ◌-◌, ◌*◌, ◌%◌, ◌^◌, ◌≤◌, ◌<◌, ◌≡◌, ◌⊎◌, inl, inr, refl, Bool, true, false, not, ◌&&◌,
  ◌||◌, Option, none, some, leb, ltb, if◌then◌else◌, arith, Bool-cases, Option-cases,
}
use native.Mathlib.Nat.{mul-le-mul_right}
use ckit.Base.Words.{u64}
use ckit.Mem.Page.{System, guard_high, guard_low, prot_page, mem_pagesize, set_guard, mem_pagealloc}

-- The `n` bytes from `p` on.
abbrev pub inside : ℕ → ℕ → ℕ → Bool
inside p n a = leb p a && ltb a (p + n)

-- What the manuals say of the system, with `access` for the addresses that may be accessed.
pub record Documented {W : Type 0} (os : System W) (access : W → ℕ → Bool) : Type 0 where
  pub page : 0 < os.pagesize
  pub map_fails :
      (n : ℕ) (w : W) → (os.map n w).0 ≡ none → (a : ℕ) → access (os.map n w).1 a ≡ access w a
  pub map_none : (w : W) → (os.map 0 w).0 ≡ none
  pub map_place :
      (n : ℕ) (w : W) (p : ℕ)
      → (os.map n w).0 ≡ some p
      → (p % os.pagesize ≡ 0) × (0 < p) × (p + n < 2 ^ 64)
  pub map_fresh :
      (n : ℕ) (w : W) (p a : ℕ) → (os.map n w).0 ≡ some p → inside p n a ≡ true → access w a ≡ false
  pub map_access :
      (n : ℕ) (w : W) (p a : ℕ)
      → (os.map n w).0 ≡ some p
      → access (os.map n w).1 a ≡ (inside p n a || access w a)
  pub protect_access :
      (p n : ℕ) (w : W) (a : ℕ)
      → access (os.protect p n w).1 a ≡ (not ((os.protect p n w).0 && inside p n a) && access w a)
  pub unmap_access :
      (p n : ℕ) (w : W) (a : ℕ)
      → access (os.unmap p n w).1 a ≡ (not ((os.unmap p n w).0 && inside p n a) && access w a)

-- The bytes that are handed out: all but the guard page.
abbrev pub usable : ℕ → ℕ → ℕ → ℕ → ℕ → Bool
usable pagesize flags p size a =
    if guard_high flags
    then inside p (size - pagesize) a
    else if guard_low flags
    then inside (p + pagesize) (size - pagesize) a
    else inside p size a

-- Some pages are one at least.
le-mul : (n k : ℕ) → 0 < n → k ≤ n * k
le-mul n k h =
    let one : 1 ≤ n = omega arith in
    let times : 1 * k ≤ n * k = mul-le-mul_right k one in omega (arith, times)

module _ {W : Type 0} (os : System W) (access : W → ℕ → Bool) (d : Documented os access) where
  -- The pages were mapped and could not be unmapped again: they can be accessed, and nobody has their
  -- address.
  abbrev pub Leaked : ℕ → W → W → Type 0
  Leaked npages w w' =
      (p : ℕ) × (w2 : W) × ((os.unmap p (npages * os.pagesize) w2).0 ≡ false)
      × (w' ≡ (os.unmap p (npages * os.pagesize) w2).1)
      × ((a : ℕ) → access w' a ≡ (inside p (npages * os.pagesize) a || access w a))

  -- How `mem_pagealloc` ends: with none, or with pages that nobody had, of which all but the guard page
  -- may be accessed.
  abbrev pub Paged : ℕ → ℕ → W → Option ℕ × W → Type 0
  Paged npages flags w r =
      ((r.0 ≡ none) × (((a : ℕ) → access (r.1) a ≡ access w a) ⊎ Leaked npages w (r.1)))
      ⊎ ((p : ℕ) × (r.0 ≡ some p)
          × (p % os.pagesize ≡ 0)
          × (0 < p)
          × (p + npages * os.pagesize < 2 ^ 64)
          × ((a : ℕ) → inside p (npages * os.pagesize) a ≡ true → access w a ≡ false)
          × ((a : ℕ)
              → access (r.1) a
                ≡ (usable os.pagesize flags p (npages * os.pagesize) a || access w a)))

  -- The guard page is within the pages.
  guarded :
      (flags p size a : ℕ) (w w' : W)
      → os.pagesize ≤ size
      → p + size < 2 ^ 64
      → (guard_high flags || guard_low flags) ≡ true
      → (inside p size a ≡ true → access w a ≡ false)
      → access w' a ≡ (
          not (inside (prot_page os.pagesize flags p size) os.pagesize a)
          && (inside p size a || access w a))
      → access w' a ≡ (usable os.pagesize flags p size a || access w a)
  guarded flags p size a w w' fits small some_guard fresh e = elim (Bool-cases (inside p size a)) [
    | inl i ↦ ground (arith, d.page, e, i, fresh i, some_guard)
    | inr o ↦ ground (arith, d.page, e, o, some_guard)
  ]

  module _ (npages flags p : ℕ) (w w1 : W) (some_pages : 0 < npages)
      (fits : npages * os.pagesize < 2 ^ 64) (aligned : p % os.pagesize ≡ 0) (nonzero : 0 < p)
      (below : p + npages * os.pagesize < 2 ^ 64)
      (fresh : (a : ℕ) → inside p (npages * os.pagesize) a ≡ true → access w a ≡ false)
      (mapped : (a : ℕ) → access w1 a ≡ (inside p (npages * os.pagesize) a || access w a)) where
    abbrev size : ℕ
    size = npages * os.pagesize

    one_page : os.pagesize ≤ size
    one_page = le-mul npages os.pagesize some_pages

    -- Without a guard page, nothing more is done.
    unguarded :
        (guard_high flags || guard_low flags) ≡ false
        → Paged npages flags w (set_guard os os.pagesize npages flags size p w1)
    unfolding set_guard
    unguarded e =
        inr (p, ground (arith, e), aligned, nonzero, below, fresh, λ a. ground (arith, e, mapped a))

    -- When the page cannot be protected, everything is given back, or that fails, too.
    given_back :
        (guard_high flags || guard_low flags) ≡ true
        → (os.protect (prot_page os.pagesize flags p size) os.pagesize w1).0 ≡ false
        → Paged npages flags w (set_guard os os.pagesize npages flags size p w1)
    unfolding set_guard
    given_back e failed =
        let w2 = (os.protect (prot_page os.pagesize flags p size) os.pagesize w1).1 in
        let kept = d.protect_access (prot_page os.pagesize flags p size) os.pagesize w1 in
        let after = d.unmap_access p size w2 in
        let left : set_guard os os.pagesize npages flags size p w1
            ≡ (none, (os.unmap p size w2).1) =
          ground (arith, e, failed, one_page, d.page, some_pages) in
        rw left (
          inl (
            refl,
            elim (Bool-cases (os.unmap p size w2).0) [
              | inl gone ↦ inl (λ a. elim (Bool-cases (inside p size a)) [
                | inl i ↦ ground (arith, failed, i, fresh a i, gone, after a)
                | inr o ↦ ground (arith, failed, o, gone, kept a, mapped a, after a)
              ])
              | inr stays ↦ inr (
                p,
                w2,
                stays,
                refl,
                λ a. ground (arith, failed, stays, kept a, mapped a, after a),
              )
            ],
          ))

    protected :
        (guard_high flags || guard_low flags) ≡ true
        → (os.protect (prot_page os.pagesize flags p size) os.pagesize w1).0 ≡ true
        → Paged npages flags w (set_guard os os.pagesize npages flags size p w1)
    unfolding set_guard
    protected e works =
        let w2 = (os.protect (prot_page os.pagesize flags p size) os.pagesize w1).1 in
        let now = d.protect_access (prot_page os.pagesize flags p size) os.pagesize w1 in
        inr (
          p,
          ground (arith, e, works),
          aligned,
          nonzero,
          below,
          fresh,
          λ a.
              let seen : access w2 a ≡ (
                  not (inside (prot_page os.pagesize flags p size) os.pagesize a)
                  && (inside p size a || access w a)) =
                ground (arith, works, now a, mapped a) in
              let all = guarded flags p size a w w2 one_page below e (fresh a) seen in
              ground (arith, e, works, all),
        )

    set_guard-Paged : Paged npages flags w (set_guard os os.pagesize npages flags size p w1)
    set_guard-Paged = elim (Bool-cases (guard_high flags || guard_low flags)) [
      | inr e ↦ unguarded e
      | inl e ↦
          elim (Bool-cases (os.protect (prot_page os.pagesize flags p size) os.pagesize w1).0) [
            | inl works ↦ protected e works
            | inr failed ↦ given_back e failed
          ]
    ]

  -- `mem_pagealloc` of some pages, as many as there are addresses for, either answers with NULL, and
  -- then it has changed nothing, or the pages are lost because `munmap` failed behind `mprotect`. Or it
  -- answers with whole pages that nobody could access before: of those the guard page may not be
  -- accessed, all the others may, and outside of them nothing changes. The guard page is the last one if
  -- MemPageGuardHigh is set, with MemPageGuardLow or without it, and the first one if only
  -- MemPageGuardLow is set.
  pub mem_pagealloc_lem :
      (v npages flags : ℕ) (w : W)
      → (v ≡ 0) ⊎ (v ≡ os.pagesize)
      → 0 < npages
      → npages * os.pagesize < 2 ^ 64
      → (r : Option ℕ × W) × (mem_pagealloc os v npages flags w ≡ (r.0, os.pagesize, r.1))
        × Paged npages flags w r
  unfolding mem_pagealloc mem_pagesize
  mem_pagealloc_lem v npages flags w cached some_pages fits =
      let n = npages * os.pagesize in
      let asked : u64 n ≡ n = omega (arith, fits) in
      elim (Option-cases (os.map n w).0) [
        | inl e ↦ (
          (none, (os.map n w).1),
          ground (arith, cached, d.page, asked, e),
          inl (refl, inl (d.map_fails n w e)),
        )
        | inr (p, e) ↦
            let (aligned, nonzero, below) = d.map_place n w p e in
            (
              set_guard os os.pagesize npages flags n p (os.map n w).1,
              ground (arith, cached, d.page, asked, e),
              set_guard-Paged npages flags p w (os.map n w).1 some_pages fits aligned nonzero below
                  (λ a. d.map_fresh n w p a e) (λ a. d.map_access n w p a e),
            )
      ]
