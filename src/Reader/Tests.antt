-- ===== src/Reader/Tests.antt =====
-- Reading by evaluation, and the theorem over a file that comes in pieces of two bytes.
use ckit.Base.{
  ℕ, ◌≡◌, ◌⊎◌, refl, sym, ap, ◌∙◌, ◌<◌, Option, none, some, [], ◌∷◌, ◌++◌, Bytes, codes, length,
  replicate, take, drop, min, ret, arith, take-append-drop, length-take,
}
use ckit.Reader.{System, Reader, reader_open, reader_close}
use ckit.Reader.Whole.{Documented, read_all, read_all_lem}

-- What is left of the file.
abbrev os : System Bytes
os = record {
  open_file = λ name w. (some 3, w);
  close = λ fd w. (some 0, []);
  read = λ fd n w. (some (take (min n 2) w), drop (min n 2) w);
  errno = λ w. 5;
}

abbrev left : ℕ → Bytes → Bytes
left fd w = w

-- A file that has not ended gives a byte at least.
ended : (n : ℕ) (w : Bytes) → 0 < n → take (min n 2) w ≡ [] → w ≡ []
ended n [] h e = refl
ended n (c ∷ w) h e = absurd (omega (arith, length-take (min n 2) (c ∷ w), ap length e))

os-Documented : Documented os left
os-Documented = record {
  few = λ fd n w bytes e. omega (arith, length-take (min n 2) w, ap length (of_some e));
  next = λ fd n w bytes e.
      sym (take-append-drop (min n 2) w) ∙ ap (λ k. k ++ drop (min n 2) w) (of_some e);
  end = λ fd n w h e. ended n w h (of_some e);
}
  where
    of_some : {a b : Bytes} → some a ≡ some b → a ≡ b
    of_some e = ground (arith, e)

abbrev closed : Reader
closed = record { fd = none; buf = replicate 512 0; err = 0 }

open_test :
    reader_open os closed (codes "-") (codes "abc")
    ≡ (0, record closed { fd = some 0 }, codes "abc")
unfolding reader_open
open_test = refl

-- The standard input stays open, and a reader is closed once.
close_test :
    (reader_close os (record closed { fd = some 0 }) (codes "abc") ≡ (some 0, closed, codes "abc"))
    × (reader_close os closed (codes "abc") ≡ (some 0, closed, codes "abc"))
unfolding reader_close
close_test = (refl, refl)

read_all_lem_example :
    (got : Option Bytes) × (r' : Reader) × (w' : Bytes) × (read_all os 4
        (record closed { fd = some 3 })
        (codes "abc")
      ≡ ret (got, r', w'))
    × ((got ≡ some (codes "abc")) ⊎ ((got ≡ none) × (r'.err ≡ 5)))
read_all_lem_example =
    read_all_lem os left 4 3 (record closed { fd = some 3 }) (codes "abc") os-Documented refl refl
      (omega arith)
