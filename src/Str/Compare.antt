-- ===== src/Str/Compare.antt =====
-- Comparisons of pkg/rbase/str.c and str.h against the bytes that the strings hold.
use native.Mathlib.Decide.{ℕ_discrete, dec_lt}
use ckit.Base.Slices.{take_within}
use ckit.Base.{
  length-take, ℕ, zero, suc, ◌≤◌, ◌≡◌, ◌↔◌, refl, sym, ap, ap₂, ◌∙◌, Bool, true, false, ◌&&◌, [],
  ◌∷◌, Bytes, length, take, ltb, ◌==◌, if◌then◌else◌, arith, length-append, take-append, take_all,
}
use ckit.Str.{Str}
use ckit.Str.Holds.{Holds}

-- Whether `memcmp` of `n` bytes is zero.
unfoldable pub same_bytes : ℕ → Bytes → Bytes → Bool
same_bytes zero a b = true
same_bytes (suc n) (x ∷ a) (y ∷ b) = let rest = same_bytes n a b in if x == y then rest else false
same_bytes (suc n) _ _ = false

-- `str_hasprefixn`
pub hasprefixn : Str → Bytes → Bool
hasprefixn s prefix =
    if ltb s.len (length prefix) then false else same_bytes (length prefix) s.p prefix

-- `str_eq`
pub eq : Str → Str → Bool
eq a b = a.len == b.len && same_bytes a.len a.p b.p

pub same_bytes-take :
    (n : ℕ) (a b : Bytes)
    → n ≤ length a
    → n ≤ length b
    → (same_bytes n a b ≡ true) ↔ (take n a ≡ take n b)
unfolding same_bytes
same_bytes-take zero a b h k = (λ e. refl, λ e. refl)
same_bytes-take (suc n) [] b h k = absurd (omega arith)
same_bytes-take (suc n) (x ∷ a) [] h k = absurd (omega arith)
same_bytes-take (suc n) (x ∷ a) (y ∷ b) h k =
    let rest = same_bytes-take n a b (omega arith) (omega arith) in
    elim (ℕ_discrete x y) [
      | yes e ↦
          (λ t. ground (arith, rest.0 (ground (arith, t, e)), e), λ t. ground (arith, rest, t))
      | no ne ↦ (λ t. ground (arith, t, ne), λ t. ground (arith, ne, t))
    ]

-- `str_hasprefixn` tells whether the bytes of a well-formed string begin with the prefix.
pub hasprefixn_lem :
    (s : Str) (xs prefix : Bytes)
    → Holds s xs
    → (hasprefixn s prefix ≡ true) ↔ (take (length prefix) xs ≡ prefix)
unfolding hasprefixn
hasprefixn_lem s xs prefix h =
    let n = length prefix in
    let sizes = length-append xs (0 ∷ h.rest) in
    let whole = take_all n prefix (omega arith) in
    elim (dec_lt s.len n) [
      | yes short ↦ (
        λ t. ground (arith, t, short),
        λ t. absurd (omega (arith, ap length t, length-take n xs, short, h.count)),
      )
      | no long ↦
          let front : take n s.p ≡ take n xs =
            ap (λ k. take n k) h.split ∙ take_within n xs (0 ∷ h.rest) (omega (arith, h.count)) in
          let same =
            same_bytes-take n s.p prefix (omega (arith, ap length h.split, sizes, h.count))
              (omega arith) in
          (
            λ t. sym front ∙ same.0 (ground (arith, t, long)) ∙ whole,
            λ t. ground (arith, long, same.1 (front ∙ t ∙ sym whole)),
          )
    ]

-- `str_eq` tells whether two well-formed strings hold the same bytes.
pub eq_lem : (a b : Str) (xs ys : Bytes) → Holds a xs → Holds b ys → (eq a b ≡ true) ↔ (xs ≡ ys)
unfolding eq
eq_lem a b xs ys h k =
    let front = take-append xs (0 ∷ h.rest) a.len h.count in
    let other = take-append ys (0 ∷ k.rest) b.len k.count in
    elim (ℕ_discrete a.len b.len) [
      | no ne ↦ (λ t. ground (arith, t, ne), λ t. absurd (ne (h.count ∙ ap length t ∙ sym k.count)))
      | yes e ↦
          let same =
            same_bytes-take a.len a.p b.p
              (omega (arith, ap length h.split, length-append xs (0 ∷ h.rest), h.count))
              (omega (arith, ap length k.split, length-append ys (0 ∷ k.rest), k.count, e)) in
          let one : take a.len a.p ≡ xs = ap (λ i. take a.len i) h.split ∙ front in
          let two : take a.len b.p ≡ ys = ap₂ take e k.split ∙ other in
          (
            λ t. sym one ∙ same.0 (ground (arith, t, e)) ∙ two,
            λ t. ground (arith, e, same.1 (one ∙ t ∙ sym two)),
          )
    ]
