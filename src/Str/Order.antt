-- ===== src/Str/Order.antt =====
-- `str_cmp` of pkg/rbase/str.h, and the functions there that pass a whole string or a C string on.
-- A C string is its bytes without the zero. `memcmp` reads past the end of a block with an undefined
-- result; of its answer the sign counts.
use ckit.Base.{
  ℕ, zero, suc, ◌≤◌, ◌<◌, ◌≡◌, refl, ap₂, min, Bool, [], ◌∷◌, ◌++◌, Bytes, length, take, get_or,
  ltb, ◌==◌, if◌then◌else◌, Outcome, ret, fault, arith,
}
use native.Mathlib.Decide.{ℕ_discrete, dec_lt}
use ckit.Base.Words.{u32}
use ckit.Str.{Str, Malloc, cpy, append}
use ckit.Str.Holds.{Holds, contents}
use ckit.Str.Compare.{hasprefixn}

-- The sign of what `memcmp` answers.
pub data Sign : Type 0 where
  less : Sign
  same : Sign
  greater : Sign

-- `memcmp`
pub memcmp : ℕ → Bytes → Bytes → Outcome Sign
memcmp zero a b = ret same
memcmp (suc n) (x ∷ a) (y ∷ b) =
    let rest = memcmp n a b in if x == y then rest else ret (if ltb x y then less else greater)
memcmp (suc n) _ _ = fault

-- `str_cmp`
pub str_cmp : Str → Str → Outcome Sign
str_cmp a b = memcmp (min a.len b.len) a.p b.p

-- How the first `n` bytes compare: all of them are the same, or the first that differ do.
abbrev pub Compares : ℕ → Sign → Bytes → Bytes → Type 0
Compares n same xs ys = take n xs ≡ take n ys
Compares n less xs ys =
    (k : ℕ) × (k < n) × (take k xs ≡ take k ys) × (get_or xs k 0 < get_or ys k 0)
Compares n greater xs ys =
    (k : ℕ) × (k < n) × (take k xs ≡ take k ys) × (get_or ys k 0 < get_or xs k 0)

-- One equal byte in front.
Compares-cons :
    (n : ℕ) (s : Sign) (x y : ℕ) (xs ys : Bytes)
    → x ≡ y
    → Compares n s xs ys
    → Compares (suc n) s (x ∷ xs) (y ∷ ys)
Compares-cons n same x y xs ys e h = ap₂ (λ a l. a ∷ l) e h
Compares-cons n less x y xs ys e (k, below, front, lt) =
    (suc k, omega arith, ap₂ (λ a l. a ∷ l) e front, lt)
Compares-cons n greater x y xs ys e (k, below, front, lt) =
    (suc k, omega arith, ap₂ (λ a l. a ∷ l) e front, lt)

memcmp_lem :
    (n : ℕ) (xs ys rest more : Bytes)
    → n ≤ length xs
    → n ≤ length ys
    → (s : Sign) × (memcmp n (xs ++ rest) (ys ++ more) ≡ ret s) × Compares n s xs ys
unfolding memcmp
memcmp_lem zero xs ys rest more h k = (same, refl, refl)
memcmp_lem (suc n) [] ys rest more h k = absurd (omega arith)
memcmp_lem (suc n) (x ∷ xs) [] rest more h k = absurd (omega arith)
memcmp_lem (suc n) (x ∷ xs) (y ∷ ys) rest more h k = elim (ℕ_discrete x y) [
  | yes e ↦
      let (s, runs, c) = memcmp_lem n xs ys rest more (omega arith) (omega arith) in
      (s, ground (arith, e, runs), Compares-cons n s x y xs ys e c)
  | no ne ↦ elim (dec_lt x y) [
    | yes lt ↦ (less, ground (arith, ne, lt), (0, omega arith, refl, lt))
    | no ge ↦ (greater, ground (arith, ne, ge), (0, omega arith, refl, omega (arith, ne, ge)))
  ]
]

-- `str_cmp` of two well-formed strings compares their bytes as far as the shorter one goes, in the order
-- of the first that differ.
pub str_cmp_lem :
    (a b : Str) (xs ys : Bytes)
    → Holds a xs
    → Holds b ys
    → (s : Sign) × (str_cmp a b ≡ ret s) × Compares (min (length xs) (length ys)) s xs ys
unfolding str_cmp
str_cmp_lem a b xs ys h k =
    rw (h.split, k.split, h.count, k.count)
      (memcmp_lem (min (length xs) (length ys)) xs ys (0 ∷ h.rest) (0 ∷ k.rest) (omega arith)
        (omega arith))

-- What is passed on of a C string, by a length of 32 bits.
abbrev cut : Bytes → Bytes
cut cstr = take (u32 (length cstr)) cstr

module _ (m : Malloc) where
  -- `str_cpycstr`
  pub cpycstr : Bytes → Outcome Str
  cpycstr cstr = cpy m (cut cstr)

  -- `str_appendstr`
  pub appendstr : Str → Str → Outcome Str
  appendstr s suffix = append m s (contents suffix)

  -- `str_appendcstr`
  pub appendcstr : Str → Bytes → Outcome Str
  appendcstr s cstr = append m s (cut cstr)

-- `str_hasprefix`
pub hasprefix : Str → Str → Bool
hasprefix s prefix = hasprefixn s (contents prefix)

-- `str_hasprefixcstr`
pub hasprefixcstr : Str → Bytes → Bool
hasprefixcstr s prefix = hasprefixn s (cut prefix)
