-- ===== src/Str/Repr/Retry.antt =====
-- `str_appendrepr`: two turns of its outer loop are enough, and what it appends is read back as its input.
use ckit.Base.{
  ℕ, suc, ◌+◌, ◌*◌, ◌^◌, ◌<◌, ◌≡◌, ◌⊎◌, inl, inr, refl, Bool, false, some, [], ◌++◌, Bytes, length,
  ret, arith,
}
use ckit.Base.Words.{u32}
use ckit.Str.{Str, Malloc, avail}
use ckit.Str.Holds.{Holds}
use ckit.Str.Grow.{HasRoom, Holds-HasRoom, makeroom_again}
use ckit.Str.Append.{stored, stored-Holds}
use ckit.Str.Scrap.{scrap, scrap-HasRoom, poke-scrap, exact, poke-setlen}
use ckit.Str.Repr.{repr_retry, appendrepr}
use ckit.Str.Repr.Read.{plain, feed_all, read_literal, finish-Ready, without_breaks}
use ckit.Str.Repr.Loop.{Readable, repr_loop_lem}

module _ (m : Malloc) (xs input : Bytes) (ok : Readable input) where
  -- The string that is wanted: it holds the old bytes and then a text that stands for the input.
  abbrev Wanted : Str → Type 0
  Wanted s =
      (text : Bytes) × Holds s (xs ++ text) × (read_literal (without_breaks text) ≡ some input)

  -- A turn of the outer loop ends it, or the room was less than five bytes for each of the input.
  one_turn :
      (fuel : ℕ) (s : Str) (morelen : ℕ) (prevesc : Bool)
      → HasRoom s xs 0
      → s.len + morelen + 9 < 2 ^ 32
      → ((s' : Str) × (repr_retry m (suc fuel) s input morelen prevesc ≡ ret s') × Wanted s')
        ⊎ ((morelen < 5 * length input)
            × (s' : Str) × (b : Bool) × (repr_retry m (suc fuel) s input morelen prevesc
                ≡ repr_retry m fuel s' input (u32 (morelen * 2)) b)
            × HasRoom s' xs 0
            × (s'.len ≡ s.len))
  unfolding repr_retry read_literal feed_all
  one_turn fuel s morelen prevesc h fits =
      let (s1, made, room, keeps) = makeroom_again m s xs morelen h fits in
      let (r, runs, l) =
        repr_loop_lem (avail s1) input 0 prevesc [] [] (plain, []) ok refl (inl refl)
          (omega arith) in
      let scrapped = poke-scrap room (r.2) l.fits in
      elim l.ends [
        | inl (stop, full) ↦ inr (
          omega (arith, full, room.room, room.small),
          scrap room (r.2) l.fits,
          r.1,
          ground (arith, made, runs, stop, scrapped),
          scrap-HasRoom room (r.2) l.fits,
          keeps,
        )
        | inr (on, (st, reads, v)) ↦
            let exactly = exact room (r.2) l.fits in
            let done = poke-setlen room (r.2) l.fits in
            inl (
              stored s1 xs (r.2) exactly,
              ground (arith, made, runs, on, done, scrapped),
              (
                r.2,
                stored-Holds exactly (r.2) refl,
                ground (arith, reads, finish-Ready (r.1) st input v),
              ),
            )
      ]

-- `str_appendrepr` returns a well-formed string that holds the old bytes and then a text. With the line
-- breaks taken out, which the code puts into longer texts and no C string literal may hold, that text, read
-- as the inside of a C string literal, stands for exactly the bytes of the input: if the input holds no
-- backslash and no byte of 128 or more, and the size for eight bytes of text for each of it stays below
-- 2 ^ 32.
pub appendrepr_lem :
    (m : Malloc) (s : Str) (xs input : Bytes)
    → Holds s xs
    → Readable input
    → s.len + length input * 8 + 9 < 2 ^ 32
    → (s' : Str) × (text : Bytes) × (appendrepr m s input ≡ ret s')
      × Holds s' (xs ++ text)
      × (read_literal (without_breaks text) ≡ some input)
unfolding appendrepr
appendrepr_lem m s xs input h ok fits =
    let more = u32 (length input * 4) in
    elim (one_turn m xs input ok 33 s more false (Holds-HasRoom xs h) (omega arith)) [
      | inl (s', runs, (text, holds, reads)) ↦ (s', text, ground (arith, runs), holds, reads)
      | inr (short, s1, b, again, room, keeps) ↦
          elim (one_turn m xs input ok 32 s1 (u32 (more * 2)) b room (omega (arith, keeps))) [
            | inl (s', runs, (text, holds, reads)) ↦
                (s', text, ground (arith, again, runs), holds, reads)
            | inr (short', s2, b', again', room', keeps') ↦ absurd (omega (arith, short'))
          ]
    ]
