-- ===== src/Str/Append.antt =====
-- The appending operations against concatenation.
use ckit.Base.{
  ℕ, ◌+◌, ◌-◌, ◌^◌, ◌≤◌, ◌<◌, ◌≡◌, refl, ap, sym, ◌∙◌, [], ◌∷◌, ◌++◌, Bytes, length, take, drop,
  replicate, ◌==◌, if◌then◌else◌, arith, ret, ◌>>=◌, take-append-drop, length-take, length-append,
  length-drop, length-replicate, append_assoc, max,
}
use ckit.Base.Words.{u32}
use ckit.Base.Buffer.{poke, poke_lem, poke_terminated}
use ckit.Str.{Str, Malloc, new, cpy, makeroom, append, appendc, appendfill, reserve, avail}
use ckit.Str.Holds.{Holds, len-le-cap}
use ckit.Str.Grow.{HasRoom, makeroom_lem}

-- The string with `d` and a zero stored behind `xs`.
abbrev pub stored : (s : Str) (xs d : Bytes) {n : ℕ} → HasRoom s xs n → Str
stored s xs d r = record s {
  len = s.len + length d;
  p = (xs ++ d) ++ 0 ∷ drop 1 (drop (length d) r.free);
}

module _ {s : Str} {xs : Bytes} {n : ℕ} (r : HasRoom s xs n) (d : Bytes) (fits : length d ≡ n) where
  free_room : length d + 1 ≤ length r.free
  free_room = omega (arith, ap length r.split, length-append xs r.free, r.storage, r.room, r.count)

  pub stored-Holds : Holds (stored s xs d r) (xs ++ d)
  stored-Holds = record {
    rest = drop 1 (drop (length d) r.free);
    split = refl;
    count = omega (arith, length-append xs d, r.count);
    storage = omega (
      arith,
      length-append (xs ++ d) (0 ∷ drop 1 (drop (length d) r.free)),
      length-append xs d,
      length-drop 1 (drop (length d) r.free),
      length-drop (length d) r.free,
      ap length r.split,
      length-append xs r.free,
      free_room,
    );
    small = r.small;
  }

  -- The two stores that every appending operation makes.
  pub poke_both :
      (i j : ℕ)
      → i ≡ s.len
      → j ≡ s.len + length d
      → (poke s.p i d >>= λ p. poke p j (0 ∷ [])) ≡ ret (stored s xs d r).p
  poke_both i j hi hj =
      rw r.split (poke_terminated xs r.free d i j (hi ∙ r.count) (omega (arith, r.count)) free_room)

module _ {s : Str} {xs : Bytes} {n : ℕ} (r : HasRoom s xs n) where
  free_room_of : n + 1 ≤ length r.free
  free_room_of =
      omega (arith, ap length r.split, length-append xs r.free, r.storage, r.room, r.count)

  -- A zero behind the next `n` bytes, which keep what they hold.
  poke_end : (j : ℕ) → j ≡ s.len + n → poke s.p j (0 ∷ []) ≡ ret (stored s xs (take n r.free) r).p
  poke_end j hj =
      let d = take n r.free in
      let size : length d ≡ n = omega (arith, length-take n r.free, free_room_of) in
      let whole =
        append_assoc xs d (drop n r.free) ∙ ap (λ k. xs ++ k) (take-append-drop n r.free) in
      rw (r.split ∙ sym whole, size)
        (poke_lem (xs ++ d) (drop n r.free) (0 ∷ []) j (omega (arith, length-append xs d, r.count))
          (omega (arith, length-drop n r.free, free_room_of)))

module _ (m : Malloc) (s : Str) (xs : Bytes) (h : Holds s xs) where
  -- `str_append` returns a well-formed string that holds the old bytes and then the new ones, as long
  -- as the new size stays below 2 ^ 32.
  pub append_lem :
      (d : Bytes)
      → s.len + length d + 9 < 2 ^ 32
      → (s' : Str) × (append m s d ≡ ret s') × Holds s' (xs ++ d)
  unfolding append
  append_lem d fits =
      let (s2, e, r, keeps) = makeroom_lem m s xs (length d) h fits in
      let both = poke_both r d refl s.len (u32 (s.len + length d)) in
      (stored s2 xs d r, ground (arith, e, r.room, r.small, keeps, both), stored-Holds r d refl)

  room_for_one : (if avail s == 0 then makeroom m s 1 else ret s) ≡ makeroom m s 1
  unfolding makeroom
  room_for_one = ground (arith, len-le-cap xs h, h.small)

  -- `str_appendc` returns a well-formed string that holds one byte more, as long as the new size stays
  -- below 2 ^ 32.
  pub appendc_lem :
      (c : ℕ)
      → s.len + 10 < 2 ^ 32
      → (s' : Str) × (appendc m s c ≡ ret s') × Holds s' (xs ++ c ∷ [])
  unfolding appendc
  appendc_lem c fits =
      let (s2, e, r, keeps) = makeroom_lem m s xs 1 h (omega arith) in
      let both = poke_both r (c ∷ []) refl s2.len (u32 (s2.len + 1)) in
      (
        stored s2 xs (c ∷ []) r,
        rw (room_for_one ∙ e) (ground (arith, r.room, r.small, keeps, both)),
        stored-Holds r (c ∷ []) refl,
      )

  -- `str_appendfill` returns a well-formed string that holds `n` times the byte `c` more, as long as
  -- the new size stays below 2 ^ 32.
  pub appendfill_lem :
      (n c : ℕ)
      → s.len + n + 9 < 2 ^ 32
      → (s' : Str) × (appendfill m s n c ≡ ret s') × Holds s' (xs ++ replicate n c)
  unfolding appendfill
  appendfill_lem n c fits =
      let (s2, e, r, keeps) = makeroom_lem m s xs n h fits in
      let filled : length (replicate n c) ≡ n = length-replicate n c in
      let both = poke_both r (replicate n c) filled s2.len (u32 (s2.len + n)) in
      (
        stored s2 xs (replicate n c) r,
        ground (arith, e, r.room, r.small, keeps, filled, both),
        stored-Holds r (replicate n c) filled,
      )

  -- `str_reserve` returns a well-formed string that keeps its bytes and holds `n` more, with the offset
  -- of the first of those, as long as the new size stays below 2 ^ 32.
  pub reserve_lem :
      (n : ℕ)
      → s.len + n + 9 < 2 ^ 32
      → (s' : Str) × (d : Bytes) × (reserve m s n ≡ ret (s', s.len))
        × Holds s' (xs ++ d)
        × (length d ≡ n)
  unfolding reserve
  reserve_lem n fits =
      let (s2, e, r, keeps) = makeroom_lem m s xs n h fits in
      let d = take n r.free in
      let size : length d ≡ n = omega (arith, length-take n r.free, free_room_of r) in
      let zero_at = poke_end r (u32 (s2.len + n)) (omega (arith, keeps, fits)) in
      (
        stored s2 xs d r,
        d,
        ground (arith, e, r.room, r.small, keeps, zero_at, size),
        stored-Holds r d size,
        size,
      )

-- `str_new` and `str_cpy`.
module _ (m : Malloc) where
  pub new_lem : (n : ℕ) → n + 1 < 2 ^ 32 → (s : Str) × (new m n ≡ ret s) × Holds s [] × (n ≤ s.cap)
  unfolding new
  new_lem n fits =
      let size = max (u32 (n + 1)) 8 in
      let bytes = m.bytes size in
      let long = m.length-bytes size in
      let p = 0 ∷ drop 1 bytes in
      (
        record { len = 0; cap = size - 1; p = p },
        ground (arith, poke_lem [] bytes (0 ∷ []) 0 refl (omega (arith, long))),
        record {
          rest = drop 1 bytes;
          split = refl;
          count = refl;
          storage = omega (arith, long, length-drop 1 bytes);
          small = omega arith;
        },
        omega arith,
      )

  -- `str_cpy` returns a well-formed string that holds the bytes it is given, if those and a zero are
  -- fewer than 2 ^ 32.
  pub cpy_lem : (d : Bytes) → length d + 1 < 2 ^ 32 → (s : Str) × (cpy m d ≡ ret s) × Holds s d
  unfolding cpy
  cpy_lem d fits =
      let (s, e, h, room) = new_lem (length d) fits in
      let r : HasRoom s [] (length d) = record {
        free = 0 ∷ h.rest;
        split = h.split;
        count = h.count;
        storage = h.storage;
        small = h.small;
        room = omega (arith, h.count);
      } in
      let both = poke_both r d refl 0 (length d) in
      (stored s [] d r, ground (arith, e, room, h.count, both), stored-Holds r d refl)
