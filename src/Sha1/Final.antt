-- ===== src/Sha1/Final.antt =====
-- `sha1_final` of pkg/rbase/util_sha1.c pads the message, and the pieces it came in do not matter.
use native.Mathlib.Decide.{ℕ_discrete}
use ckit.Base.{
  ℕ, zero, suc, ◌+◌, ◌-◌, ◌*◌, ◌/◌, ◌%◌, ◌^◌, ◌<◌, ◌≡◌, refl, sym, subst, ap, ap₂, ◌∙◌, List, Bytes,
  [], ◌∷◌, ◌++◌, length, length-append, length-replicate, replicate, append_assoc, append-nil,
  Outcome, ret, ◌>>=◌, arith,
}
use ckit.Sha1.{Sha1Ctx, initial, sha1_init, sha1_update, be, pad_loop, sha1_final}
use ckit.Sha1.Spec.{absorb, pad, digest}
use ckit.Sha1.Update.{Taken, sha1_update-Taken}

init-Taken : (b : Bytes) → length b ≡ 64 → Taken (sha1_init b) []
unfolding sha1_init absorb
init-Taken b h = record {
  blocks = 0;
  low = omega arith;
  high = omega arith;
  state = refl;
  junk = b;
  buffer = refl;
  size = h;
  count0 = refl;
  count1 = refl;
  small = omega arith;
}

-- How many zeros are missing.
abbrev missing : ℕ → ℕ
missing n = (120 - n % 64) % 64

pad_loop-Taken :
    (fuel : ℕ) (c : Sha1Ctx) (m : Bytes)
    → Taken c m
    → length m + missing (length m) + 64 < 2 ^ 61
    → missing (length m) < fuel
    → (c' : Sha1Ctx) × (pad_loop fuel c ≡ ret c') × Taken c' (m ++ replicate (missing (length m)) 0)
unfolding pad_loop
pad_loop-Taken zero c m v fits enough = absurd (omega arith)
pad_loop-Taken (suc fuel) c m v fits enough = elim (ℕ_discrete (length m % 64) 56) [
  | yes full ↦
      let none : 0 ≡ missing (length m) = omega (arith, full) in
      (
        c,
        ground (arith, full, v.count0),
        subst (λ k. Taken c (m ++ replicate k 0)) none (subst (Taken c) (sym (append-nil m)) v),
      )
  | no more ↦
      let (c1, e1, v1) = sha1_update-Taken c m (0 ∷ []) v (omega arith) (omega arith) in
      let size = length-append m (0 ∷ []) in
      let one : suc (missing (length (m ++ 0 ∷ []))) ≡ missing (length m) =
        omega (arith, size, more) in
      let (c2, e2, v2) =
        pad_loop-Taken fuel c1 (m ++ 0 ∷ []) v1 (omega (arith, size, more)) (omega arith) in
      let all : (m ++ 0 ∷ []) ++ replicate (missing (length (m ++ 0 ∷ []))) 0
          ≡ m ++ replicate (missing (length m)) 0 =
        append_assoc m (0 ∷ []) (replicate (missing (length (m ++ 0 ∷ []))) 0)
        ∙ ap (λ k. m ++ replicate k 0) one in
      (c2, rw (e1) (ground (arith, more, v.count0, e2)), subst (Taken c2) all v2)
]

bytes_of_counts : (n : ℕ) → be 4 (n / 2 ^ 32) ++ be 4 (n % 2 ^ 32) ≡ be 8 n
bytes_of_counts n =
    let a : n / 2 ^ 32 / 2 ^ 24 % 256 ≡ n / 2 ^ 56 % 256 = omega arith in
    let b : n / 2 ^ 32 / 2 ^ 16 % 256 ≡ n / 2 ^ 48 % 256 = omega arith in
    let c : n / 2 ^ 32 / 2 ^ 8 % 256 ≡ n / 2 ^ 40 % 256 = omega arith in
    let d : n / 2 ^ 32 / 1 % 256 ≡ n / 2 ^ 32 % 256 = omega arith in
    let e : n % 2 ^ 32 / 2 ^ 24 % 256 ≡ n / 2 ^ 24 % 256 = omega arith in
    let f : n % 2 ^ 32 / 2 ^ 16 % 256 ≡ n / 2 ^ 16 % 256 = omega arith in
    let g : n % 2 ^ 32 / 2 ^ 8 % 256 ≡ n / 2 ^ 8 % 256 = omega arith in
    let h : n % 2 ^ 32 / 1 % 256 ≡ n / 1 % 256 = omega arith in cc (a, b, c, d, e, f, g, h)

-- `sha1_final` of a context that has taken `m` answers with the digest of `m`.
sha1_final-digest :
    (c : Sha1Ctx) (m : Bytes) → Taken c m → length m + 256 < 2 ^ 61 → sha1_final c ≡ ret (digest m)
unfolding sha1_final digest pad
sha1_final-digest c m v fits =
    let (c1, e1, v1) = sha1_update-Taken c m (0x80 ∷ []) v (omega arith) (omega arith) in
    let size = length-append m (0x80 ∷ []) in
    let k = missing (length (m ++ 0x80 ∷ [])) in
    let (c2, e2, v2) =
      pad_loop-Taken 64 c1 (m ++ 0x80 ∷ []) v1 (omega (arith, size)) (omega arith) in
    let padded = (m ++ 0x80 ∷ []) ++ replicate k 0 in
    let long = length-append (m ++ 0x80 ∷ []) (replicate k 0) in
    let filling : length (replicate k 0) ≡ k = length-replicate {A = ℕ} k 0 in
    let count = be 4 c.count1 ++ be 4 c.count0 in
    let (c3, e3, v3) =
      sha1_update-Taken c2 padded count v2 (omega arith) (omega (arith, size, long, filling)) in
    let total = length-append padded count in
    let exact : 64 * v3.blocks ≡ length (padded ++ count) =
      omega (arith, v3.low, v3.high, total, size, long, filling) in
    let zeros : k ≡ (119 - length m % 64) % 64 = omega (arith, size) in
    let counts : count ≡ be 8 (8 * length m) =
      ap₂ (λ x y. be 4 x ++ be 4 y) v.count1 v.count0 ∙ bytes_of_counts (8 * length m) in
    let whole : padded ++ count ≡ pad m =
      ap₂ (λ i w. (m ++ 0x80 ∷ []) ++ replicate i 0 ++ w) zeros counts
      ∙ ap (λ w. w ++ be 8 (8 * length m))
          (append_assoc m (0x80 ∷ []) (replicate ((119 - length m % 64) % 64) 0)) in
    let parts : v3.blocks ≡ length (pad m) / 64 = omega (arith, exact, ap length whole) in
    let state : c3.state ≡ absorb (length (pad m) / 64) initial (pad m) =
      v3.state ∙ ap₂ (λ n w. absorb n initial w) parts whole in
    rw (e1, e2, e3, state) refl

-- The calls of `sha1_update` for the pieces of a message.
unfoldable pub update_all : Sha1Ctx → List Bytes → Outcome Sha1Ctx
update_all c [] = ret c
update_all c (d ∷ ds) = sha1_update c d >>= λ c'. update_all c' ds

abbrev pub joined : List Bytes → Bytes
joined [] = []
joined (d ∷ ds) = d ++ joined ds

-- Each piece is shorter than 2 ^ 32 - 128 bytes.
abbrev pub Pieces : List Bytes → Type 0
Pieces [] = Unit
Pieces (d ∷ ds) = (length d + 128 < 2 ^ 32) × Pieces ds

update_all-Taken :
    (ds : List Bytes) (c : Sha1Ctx) (m : Bytes)
    → Taken c m
    → Pieces ds
    → length m + length (joined ds) < 2 ^ 61
    → (c' : Sha1Ctx) × (update_all c ds ≡ ret c') × Taken c' (m ++ joined ds)
unfolding update_all
update_all-Taken [] c m v p fits = (c, refl, subst (Taken c) (sym (append-nil m)) v)
update_all-Taken (d ∷ ds) c m v (h, p) fits =
    let size = length-append d (joined ds) in
    let (c1, e1, v1) = sha1_update-Taken c m d v h (omega (arith, size)) in
    let (c2, e2, v2) =
      update_all-Taken ds c1 (m ++ d) v1 p (omega (arith, size, length-append m d)) in
    (c2, rw (e1) e2, subst (Taken c2) (append_assoc m d (joined ds)) v2)

-- `sha1_init`, any calls of `sha1_update` with pieces shorter than 2 ^ 32 - 128 bytes, and `sha1_final`
-- return, if the pieces are together fewer than 2 ^ 61 - 256 bytes, what comes of the whole message: it is
-- padded with a bit, zeros and its length in bits, `sha1_transform` goes over its blocks one after the
-- other from the initial hash value of FIPS PUB 180, and the state is written with the highest bytes
-- first. What `sha1_transform` does with a block is not looked at.
pub sha1_lem :
    (buffer : Bytes) (ds : List Bytes)
    → length buffer ≡ 64
    → Pieces ds
    → length (joined ds) + 256 < 2 ^ 61
    → (update_all (sha1_init buffer) ds >>= sha1_final) ≡ ret (digest (joined ds))
sha1_lem buffer ds full p fits =
    let (c, e, v) =
      update_all-Taken ds (sha1_init buffer) [] (init-Taken buffer full) p (omega arith) in
    rw (e) (sha1_final-digest c (joined ds) v fits)
