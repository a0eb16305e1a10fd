-- ===== src/Str/Scrap.antt =====
-- Stores into the free bytes of a string.
use ckit.Base.{
  ◌+◌, ◌≤◌, ◌≡◌, ℕ, refl, ap, sym, ◌∙◌, [], ◌∷◌, ◌++◌, Bytes, length, drop, ret, ◌>>=◌, arith,
  length-append, length-drop, append_assoc,
}
use ckit.Base.Words.{u32}
use ckit.Base.Buffer.{poke, poke_lem}
use ckit.Str.{Str, avail, setlen}
use ckit.Str.Holds.{Holds}
use ckit.Str.Grow.{HasRoom}
use ckit.Str.Append.{stored, poke_both}

-- Bytes behind `xs` leave the string as it is, but for what the free bytes hold.
module _ {s : Str} {xs : Bytes} {n : ℕ} (r : HasRoom s xs n) (out : Bytes)
    (fits : length out ≤ avail s) where
  enough : s.len + length out ≤ s.cap
  enough = omega (arith, fits, r.room, r.small)

  pub exact : HasRoom s xs (length out)
  exact = record {
    free = r.free;
    split = r.split;
    count = r.count;
    storage = r.storage;
    small = r.small;
    room = enough;
  }

  size_free : length xs + length r.free ≡ s.cap + 1
  size_free = omega (arith, ap length r.split, length-append xs r.free, r.storage)

  -- The string whose free bytes begin with `out`.
  abbrev pub scrap : Str
  scrap = record s { p = xs ++ (out ++ drop (length out) r.free) }

  pub poke-scrap : poke s.p s.len out ≡ ret scrap.p
  poke-scrap =
      rw (r.split)
        (poke_lem xs r.free out s.len (r.count) (omega (arith, size_free, enough, r.count)))

  pub scrap-HasRoom : HasRoom scrap xs 0
  scrap-HasRoom = record {
    free = out ++ drop (length out) r.free;
    split = refl;
    count = r.count;
    storage = omega (
      arith,
      length-append xs (out ++ drop (length out) r.free),
      length-append out (drop (length out) r.free),
      length-drop (length out) r.free,
      size_free,
      enough,
      r.count,
    );
    small = r.small;
    room = omega (arith, enough);
  }

  -- Storing `out` and cutting the string off behind it.
  pub poke-setlen :
      (poke s.p s.len out >>= λ p. setlen (record s { p = p }) (u32 (s.len + length out)))
      ≡ ret (stored s xs out exact)
  unfolding setlen
  poke-setlen =
      let both =
        poke_both exact out refl s.len (u32 (s.len + length out)) refl
          (omega (arith, enough, r.small)) in
      ground (arith, enough, r.small, both)

  -- What `vsnprintf` stores is `out` and a zero; the length is set behind it.
  pub poke-Holds :
      (d : Bytes) → out ≡ d ++ 0 ∷ [] → Holds (record scrap { len = s.len + length d }) (xs ++ d)
  poke-Holds d e = record {
    rest = drop (length out) r.free;
    split =
        ap (λ k. xs ++ (k ++ drop (length out) r.free)) e
        ∙ ap (λ k. xs ++ k) (append_assoc d (0 ∷ []) (drop (length out) r.free))
        ∙ sym (append_assoc xs d (0 ∷ drop (length out) r.free));
    count = omega (arith, r.count, length-append xs d);
    storage = scrap-HasRoom.storage;
    small = r.small;
  }
