-- ===== src/Sha1/Spec.antt =====
-- The construction of FIPS PUB 180 for a whole message: padding, and a function for one block from block to
-- block. That function is `sha1_transform` of pkg/rbase/util_sha1.c itself.
use ckit.Base.{
  ℕ, zero, suc, ◌+◌, ◌-◌, ◌*◌, ◌/◌, ◌%◌, ◌≤◌, ◌≡◌, refl, ap, ap₂, ◌∙◌, length-drop, Bytes, ◌∷◌,
  ◌++◌, length, take, drop, replicate, arith,
}
use ckit.Base.Slices.{take_within, drop_within, drop-drop}
use ckit.Sha1.{Vars, sha1_transform, be}

-- The state behind the first blocks of a message.
unfoldable pub absorb : ℕ → Vars → Bytes → Vars
absorb zero s m = s
absorb (suc n) s m = absorb n (sha1_transform s (take 64 m)) (drop 64 m)

-- The message with a bit and zeros behind it, up to 8 bytes before the end of a block, and its length
-- in bits.
unfoldable pub pad : Bytes → Bytes
pad m = m ++ (0x80 ∷ replicate ((119 - length m % 64) % 64) 0) ++ be 8 (8 * length m)

-- The initial hash value of FIPS PUB 180 for SHA-1.
abbrev pub first_state : Vars
first_state = record {
  a = 0x67452301;
  b = 0xEFCDAB89;
  c = 0x98BADCFE;
  d = 0x10325476;
  e = 0xC3D2E1F0;
}

unfoldable pub digest : Bytes → Bytes
digest m =
    let s = absorb (length (pad m) / 64) first_state (pad m) in
    be 4 s.a ++ be 4 s.b ++ be 4 s.c ++ be 4 s.d ++ be 4 s.e

-- The blocks of a message one part after the other.
pub absorb_add :
    (n k : ℕ) (s : Vars) (m : Bytes)
    → absorb (n + k) s m ≡ absorb k (absorb n s m) (drop (64 * n) m)
unfolding absorb
absorb_add zero k s m = let none : 0 + k ≡ k = omega arith in ap (λ i. absorb i s m) none
absorb_add (suc n) k s m =
    let one : suc n + k ≡ suc (n + k) = omega arith in
    let at : 64 + 64 * n ≡ 64 * suc n = omega arith in
    let s' = sha1_transform s (take 64 m) in
    ap (λ i. absorb i s m) one
    ∙ absorb_add n k s' (drop 64 m)
    ∙ ap (λ w. absorb k (absorb n s' (drop 64 m)) w)
        (drop-drop (64 * n) 64 m ∙ ap (λ i. drop i m) at)

-- Only the blocks that are taken matter.
pub absorb_within :
    (n : ℕ) (s : Vars) (m more : Bytes) → 64 * n ≤ length m → absorb n s (m ++ more) ≡ absorb n s m
unfolding absorb
absorb_within zero s m more h = refl
absorb_within (suc n) s m more h =
    ap₂ (λ x y. absorb n (sha1_transform s x) y) (take_within 64 m more (omega arith))
      (drop_within 64 m more (omega arith))
    ∙ absorb_within n (sha1_transform s (take 64 m)) (drop 64 m) more
        (omega (arith, length-drop 64 m))
