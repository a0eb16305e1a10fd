-- ===== src/Sha1/Update.antt =====
-- `sha1_update` of pkg/rbase/util_sha1.c takes input in pieces of any size.
use native.Mathlib.Decide.{dec_lt}
use ckit.Base.{
  ℕ, zero, suc, ◌+◌, ◌-◌, ◌*◌, ◌/◌, ◌%◌, ◌^◌, ◌≤◌, ◌<◌, ◌≡◌, refl, sym, ap, ap₂, ◌∙◌, Bytes, [],
  ◌++◌, length, length-append, length-take, length-drop, take, drop, append_assoc, append-nil, ret,
  arith,
}
use ckit.Base.Words.{u32}
use ckit.Base.Buffer.{poke, poke_lem}
use ckit.Base.Slices.{take_behind, drop_behind, drop_within, drop-drop, drop_all}
use ckit.Sha1.{
  Vars, Sha1Ctx, sha1_transform, initial, update_loop, counted, take_blocks, keep, sha1_update,
}
use ckit.Sha1.Spec.{absorb, absorb_add, absorb_within}

-- The context has taken the message `m` since `sha1_init`: its whole blocks, the first `blocks`, are in the state, and
-- the rest is at the start of the buffer.
pub record Taken (c : Sha1Ctx) (m : Bytes) : Type 0 where
  pub blocks : ℕ
  pub low : 64 * blocks ≤ length m
  pub high : length m < 64 * blocks + 64
  pub state : c.state ≡ absorb blocks initial m
  pub junk : Bytes
  pub buffer : c.buffer ≡ drop (64 * blocks) m ++ junk
  pub size : length c.buffer ≡ 64
  pub count0 : c.count0 ≡ 8 * length m % 2 ^ 32
  pub count1 : c.count1 ≡ 8 * length m / 2 ^ 32
  pub small : length m < 2 ^ 61

update_loop-absorb :
    (fuel : ℕ) (s : Vars) (d : Bytes) (i : ℕ)
    → i ≤ length d
    → length d + 64 < 2 ^ 32
    → length d < i + fuel
    → (k : ℕ) × (i + 64 * k ≤ length d)
      × (length d < i + 64 * k + 64)
      × (update_loop fuel s d i ≡ ret (absorb k s (drop i d), i + 64 * k))
unfolding update_loop absorb
update_loop-absorb zero s d i h small fuel = absurd (omega arith)
update_loop-absorb (suc fuel) s d i h small enough = elim (dec_lt (i + 63) (length d)) [
  | yes more ↦
      let next : u32 (i + 64) ≡ i + 64 = omega arith in
      let (k, low, high, e) =
        update_loop-absorb fuel (sha1_transform s (take 64 (drop i d))) d (i + 64) (omega arith)
          small (omega arith) in
      let at : i + 64 + 64 * k ≡ i + 64 * suc k = omega arith in
      (
        suc k,
        omega arith,
        omega arith,
        rw (next, e) (rw (drop-drop 64 i d) (ground (arith, more, small, at))),
      )
  | no done ↦
      let at : i ≡ i + 64 * 0 = omega arith in
      (0, omega arith, omega arith, ground (arith, done, small, at))
]

counted-exact :
    (c : Sha1Ctx) (n len : ℕ)
    → c.count0 ≡ 8 * n % 2 ^ 32
    → c.count1 ≡ 8 * n / 2 ^ 32
    → n + len < 2 ^ 61
    → len < 2 ^ 32
    → ((counted c len).count0 ≡ 8 * (n + len) % 2 ^ 32)
      × ((counted c len).count1 ≡ 8 * (n + len) / 2 ^ 32)
unfolding counted
counted-exact c n len lo hi fits short = ground (arith, lo, hi, fits, short)

module _ (c : Sha1Ctx) (m d : Bytes) (v : Taken c m) (short : length d + 128 < 2 ^ 32)
    (fits : length m + length d < 2 ^ 61) where
  -- What of the message stands in the buffer.
  abbrev left : Bytes
  left = drop (64 * v.blocks) m

  length-left : length left ≡ length m - 64 * v.blocks
  length-left = length-drop (64 * v.blocks) m

  length-junk : length left + length v.junk ≡ 64
  length-junk = omega (arith, ap length v.buffer, v.size, length-append left v.junk)

  -- `j` of `sha1_update` is where the bytes of the message end in the buffer.
  index-left : c.count0 / 8 % 64 ≡ length left
  index-left = omega (arith, v.count0, length-left, v.low, v.high)

  keep-Taken :
      length left + length d ≤ 63
      → (c' : Sha1Ctx) × (keep (counted c (length d)) d (length left) ≡ ret c') × Taken c' (m ++ d)
  unfolding keep counted
  keep-Taken room =
      let (lo, hi) = counted-exact c (length m) (length d) v.count0 v.count1 fits (omega arith) in
      let size = length-append m d in
      let behind = drop (length d) v.junk in
      let all : drop (64 * v.blocks) (m ++ d) ≡ left ++ d = drop_within (64 * v.blocks) m d v.low in
      (
        record (counted c (length d)) { buffer = left ++ (d ++ behind) },
        rw (v.buffer) (
            ground (arith, poke_lem left v.junk d (length left) refl (omega (arith, length-junk)))),
        record {
          blocks = v.blocks;
          low = omega (arith, size, v.low);
          high = omega (arith, size, length-left, v.low);
          state = v.state ∙ sym (absorb_within v.blocks initial m d v.low);
          junk = behind;
          buffer = sym (append_assoc left d behind) ∙ ap (λ w. w ++ behind) (sym all);
          size = omega (
            arith,
            length-append left (d ++ behind),
            length-append d behind,
            length-drop (length d) v.junk,
            length-junk,
          );
          count0 = lo ∙ ap (λ l. 8 * l % 2 ^ 32) (sym size);
          count1 = hi ∙ ap (λ l. 8 * l / 2 ^ 32) (sym size);
          small = omega (arith, size);
        },
      )

  -- The first `memcpy` fills the buffer.
  abbrev filled : Bytes
  filled = left ++ take (64 - length left) d

  filled-block : 64 ≤ length left + length d → take 64 (left ++ d) ≡ filled
  filled-block more = take_behind 64 left d (omega (arith, length-junk))

  poke-filled :
      64 ≤ length left + length d
      → poke c.buffer (length left) (take (64 - length left) d) ≡ ret filled
  poke-filled more =
      let part = take (64 - length left) d in
      let long : length part ≡ length v.junk =
        omega (arith, length-take (64 - length left) d, length-junk) in
      ap (λ b. poke b (length left) part) v.buffer
      ∙ poke_lem left v.junk part (length left) refl (omega (arith, long))
      ∙ ap (λ w. ret (left ++ w))
          (ap (λ w. part ++ w) (drop_all (length part) v.junk (omega (arith, long)))
            ∙ append-nil part)

  -- The state behind the buffer and `k` blocks of the input.
  absorbed :
      (k : ℕ)
      → 64 ≤ length left + length d
      → absorb (v.blocks + suc k) initial (m ++ d)
        ≡ absorb k (sha1_transform c.state filled) (drop (64 - length left) d)
  unfolding absorb
  absorbed k more =
      absorb_add v.blocks (suc k) initial (m ++ d)
      ∙ ap₂ (absorb (suc k)) (absorb_within v.blocks initial m d v.low ∙ sym v.state)
          (drop_within (64 * v.blocks) m d v.low)
      ∙ ap₂ (λ x y. absorb k (sha1_transform c.state x) y) (filled-block more)
          (drop_behind 64 left d (omega (arith, length-junk)))

  take_blocks-Taken :
      64 ≤ length left + length d
      → (c' : Sha1Ctx) × (take_blocks (counted c (length d)) d (length left) ≡ ret c')
        × Taken c' (m ++ d)
  unfolding take_blocks counted
  take_blocks-Taken more =
      let i = 64 - length left in
      let (lo, hi) = counted-exact c (length m) (length d) v.count0 v.count1 fits (omega arith) in
      let size = length-append m d in
      let (k, low, high, loop) =
        update_loop-absorb (length d) (sha1_transform c.state filled) d i
          (omega (arith, length-junk)) (omega arith) (omega (arith, length-left, v.high)) in
      let end = i + 64 * k in
      let tail = drop end d in
      let over = drop (length tail) filled in
      let long : length filled ≡ 64 =
        omega (arith, length-append left (take i d), length-take i d, length-junk) in
      let short_tail : length tail ≤ 64 = omega (arith, length-drop end d) in
      let index : 64 * (v.blocks + suc k) - length m ≡ end =
        omega (arith, length-left, v.low, v.high) in
      let all : drop (64 * (v.blocks + suc k)) (m ++ d) ≡ tail =
        drop_behind (64 * (v.blocks + suc k)) m d (omega (arith, v.high))
        ∙ ap (λ e. drop e d) index in
      (
        record (counted c (length d)) {
          state = absorb k (sha1_transform c.state filled) (drop i d);
          buffer = tail ++ over;
        },
        rw (poke-filled more, loop, poke_lem [] filled tail 0 refl (omega (arith, long))) refl,
        record {
          blocks = v.blocks + suc k;
          low = omega (arith, size, length-left, v.low, length-junk);
          high = omega (arith, size, length-left, v.low, length-junk);
          state = sym (absorbed k more);
          junk = over;
          buffer = ap (λ w. w ++ over) (sym all);
          size = omega (arith, length-append tail over, length-drop (length tail) filled, long);
          count0 = lo ∙ ap (λ l. 8 * l % 2 ^ 32) (sym size);
          count1 = hi ∙ ap (λ l. 8 * l / 2 ^ 32) (sym size);
          small = omega (arith, size);
        },
      )

-- `sha1_update` of a context that has taken `m` returns, and the context has then taken the input as
-- well, for input shorter than 2 ^ 32 - 128 bytes, as long as the message stays below 2 ^ 61 bytes.
pub sha1_update-Taken :
    (c : Sha1Ctx) (m d : Bytes)
    → Taken c m
    → length d + 128 < 2 ^ 32
    → length m + length d < 2 ^ 61
    → (c' : Sha1Ctx) × (sha1_update c d ≡ ret c') × Taken c' (m ++ d)
unfolding sha1_update
sha1_update-Taken c m d v short fits =
    let at = index-left c m d v short fits in
    let room = length-junk c m d v short fits in
    elim (dec_lt (length (left c m d v short fits) + length d) 64) [
      | yes few ↦
          let (c', e, t) = keep-Taken c m d v short fits (omega arith) in
          (c', rw (at) (ground (arith, few, e)), t)
      | no many ↦
          let (c', e, t) = take_blocks-Taken c m d v short fits (omega arith) in
          (c', rw (at) (ground (arith, many, short, room, e)), t)
    ]
