-- ===== src/Str/Repr/Char.antt =====
-- A turn of the inner loop of `str_appendrepr`: what it writes is read back as its byte.
use native.Mathlib.Decide.{ℕ_discrete, dec_lt}
use ckit.Base.{
  subst, ℕ, ◌+◌, ◌*◌, ◌/◌, ◌%◌, ◌≤◌, ◌<◌, ◌≡◌, ◌⊎◌, inl, inr, refl, sym, ap, ◌≢◌, ◌∙◌, Bool, true,
  false, not, ◌&&◌, ◌||◌, none, some, [], ◌∷◌, ◌++◌, Bytes, length, get_or, ◌==◌, arith,
  length-append, Bool-cases, Option-cases,
}
use ckit.Base.Tables.{every, test-of-every}
use ckit.ParseInt.{digit}
use ckit.Str.Hex.{alphabet}
use ckit.Str.Repr.{ishexdigit, is_plain, put_escape, put_char}
use ckit.Str.Repr.Read.{
  Mode, plain, escaped, digits, hex_value, feed_plain, feed_escaped, feed, feed_all, Ready,
  feed-Ready, without_breaks, read_lines, read_lines-append,
}

abbrev same_value : ℕ → Bool
same_value d = elim (hex_value (get_or alphabet d 0)) [ none ↦ false | some v ↦ v == d ]

value_table : every same_value 16 ≡ true
unfolding every hex_value digit
value_table = refl

hex_value-get : (d : ℕ) → d < 16 → hex_value (get_or alphabet d 0) ≡ some d
hex_value-get d h =
    let same = test-of-every same_value 16 d h value_table in
    elim (Option-cases (hex_value (get_or alphabet d 0))) [
      | inl e ↦ ground (arith, e, same)
      | inr (v, e) ↦ ground (arith, e, same)
    ]

get_or-break : (d : ℕ) → d < 16 → get_or alphabet d 0 ≢ 10
unfolding hex_value digit
get_or-break d h e = absurd (ground (arith, hex_value-get d h, ap hex_value e))

-- What `ishexdigit` does not know is no digit.
pub hex_value-none : (c : ℕ) → ishexdigit c ≡ false → hex_value c ≡ none
unfolding hex_value digit
hex_value-none c h = ground (arith, h)

-- What a step leads to: the text as far as it goes is read, and the room is kept.
pub record Put (room c : ℕ) (out : Bytes) (done : Bytes) (r : Bool × Bool × Bytes) : Type 0 where
  pub fits : length (r.2) ≤ room
  pub ends :
      ((r.0 ≡ false) × (room < length out + 4))
      ⊎ ((r.0 ≡ true)
          × (length (r.2) ≤ length out + 4)
          × ((st : Mode × Bytes) × (read_lines (r.2) ≡ some st) × Ready (r.1) st (done ++ c ∷ [])))

-- A backslash behind a text that is read.
backslash :
    (prevesc : Bool) (out done : Bytes) (st : Mode × Bytes) (tail : Bytes)
    → without_breaks tail ≡ tail
    → read_lines out ≡ some st
    → Ready prevesc st done
    → read_lines ((out ++ 92 ∷ []) ++ tail) ≡ feed_all (escaped, done) tail
unfolding feed_all feed_plain
backslash prevesc out done st tail whole reads v =
    let one : feed st 92 ≡ some (escaped, done) =
      feed-Ready prevesc st done 92 v (inr (hex_value-none 92 refl)) in
    read_lines-append (escaped, done) (out ++ 92 ∷ []) tail whole
      (read_lines-append st out (92 ∷ []) refl reads ∙ ground (arith, one))

module _ (room c : ℕ) (prevesc : Bool) (out done : Bytes) (st : Mode × Bytes)
    (reads : read_lines out ≡ some st) (v : Ready prevesc st done) where
  -- An escape sequence of one letter.
  letter-Put :
      (x : ℕ)
      → x ≢ 10
      → length out + 2 ≤ room
      → feed_escaped done x ≡ some (plain, done ++ c ∷ [])
      → Put room c out done (true, prevesc, (out ++ 92 ∷ []) ++ x ∷ [])
  unfolding feed_all feed
  letter-Put x ne fits known =
      let size = length-append (out ++ 92 ∷ []) (x ∷ []) in
      let start = length-append out (92 ∷ []) in
      record {
        fits = omega (arith, size, start);
        ends = inr (
          refl,
          omega (arith, size, start),
          (
            (plain, done ++ c ∷ []),
            backslash prevesc out done st (x ∷ []) (ground (arith, ne)) reads v
                ∙ ground (arith, known),
            inl refl,
          ),
        );
      }

  -- An escape sequence of two digits.
  hex-Put :
      c < 128
      → length out + 4 ≤ room
      → Put room c out done (
        true,
        true,
        (out ++ 92 ∷ []) ++ b'x' ∷ get_or alphabet (c / 16) 0 ∷ get_or alphabet (c % 16) 0 ∷ [],
      )
  unfolding feed_all feed feed_escaped
  hex-Put small fits =
      let tail = b'x' ∷ get_or alphabet (c / 16) 0 ∷ get_or alphabet (c % 16) 0 ∷ [] in
      let size = length-append (out ++ 92 ∷ []) tail in
      let start = length-append out (92 ∷ []) in
      let high = hex_value-get (c / 16) (omega arith) in
      let low = hex_value-get (c % 16) (omega arith) in
      let whole_tail : without_breaks tail ≡ tail =
        ground (arith, get_or-break (c / 16) (omega arith), get_or-break (c % 16) (omega arith)) in
      let whole : (0 * 16 + c / 16) * 16 + c % 16 ≡ c = omega arith in
      record {
        fits = omega (arith, size, start);
        ends = inr (
          refl,
          omega (arith, size, start),
          (
            (digits 2 c, done),
            backslash prevesc out done st tail whole_tail reads v
                ∙ ground (arith, high, low, whole),
            inr (refl, c, done, refl, omega arith, refl),
          ),
        );
      }

  Put-subst : {r r' : Bool × Bool × Bytes} → Put room c out done r → r' ≡ r → Put room c out done r'
  Put-subst w e = subst (Put room c out done) (sym e) w

  stopped :
      (r : Bytes)
      → length r ≤ room
      → room < length out + 4
      → Put room c out done (false, prevesc, r)
  stopped r fits full = record { fits = fits; ends = inl (refl, full) }

  put_escape-Put :
      c < 128 → length out + 2 ≤ room → Put room c out done (put_escape room c prevesc out)
  unfolding put_escape feed_escaped
  put_escape-Put small fits =
      let start = out ++ 92 ∷ [] in
      let size = length-append out (92 ∷ []) in
      elim (ℕ_discrete c 9) [
        | yes e ↦
            Put-subst (letter-Put b't' (omega arith) fits (ground (arith, e))) (ground (arith, e))
        | no tab ↦ elim (ℕ_discrete c 10) [
          | yes e ↦
              Put-subst (letter-Put b'n' (omega arith) fits (ground (arith, e))) (ground (arith, e))
          | no newline ↦ elim (ℕ_discrete c 13) [
            | yes e ↦
                Put-subst (letter-Put b'r' (omega arith) fits (ground (arith, e)))
                  (ground (arith, e))
            | no return ↦ elim (ℕ_discrete c 34) [
              | yes e ↦
                  Put-subst (letter-Put c newline fits (ground (arith, e))) (ground (arith, e))
              | no quote ↦ elim (dec_lt room (length start + 3)) [
                | yes full ↦
                    Put-subst (stopped start (omega (arith, size)) (omega (arith, size, full)))
                      (ground (arith, tab, newline, return, quote, full))
                | no enough ↦
                    Put-subst (hex-Put small (omega (arith, size, enough)))
                      (ground (arith, tab, newline, return, quote, enough))
              ]
            ]
          ]
        ]
      ]

  -- A byte that stands for itself.
  plain-Put :
      length out < room
      → ¬ (c ≡ 92)
      → is_plain c ≡ true
      → (prevesc ≡ false) ⊎ (ishexdigit c ≡ false)
      → Put room c out done (true, false, out ++ c ∷ [])
  unfolding feed_all feed_plain
  plain-Put fits ne itself off =
      let size = length-append out (c ∷ []) in
      let off' : (prevesc ≡ false) ⊎ (hex_value c ≡ none) = elim off [
        | inl e ↦ inl e
        | inr e ↦ inr (hex_value-none c e)
      ] in
      let one : feed st c ≡ some (plain, done ++ c ∷ []) =
        feed-Ready prevesc st done c v off' ∙ ground (arith, ne, itself) in
      record {
        fits = omega (arith, size);
        ends = inr (
          refl,
          omega (arith, size),
          (
            (plain, done ++ c ∷ []),
            read_lines-append st out (c ∷ []) (ground (arith, itself)) reads ∙ ground (arith, one),
            inl refl,
          ),
        );
      }

  pub put_char-Put :
      c < 128 → ¬ (c ≡ 92) → length out < room → Put room c out done (put_char room c prevesc out)
  unfolding put_char
  put_char-Put small ne fits =
      elim (Bool-cases (is_plain c && (not prevesc || not (ishexdigit c)))) [
        | inl e ↦
            Put-subst (plain-Put fits ne (ground (arith, e)) (ground (arith, e)))
              (ground (arith, e))
        | inr e ↦ elim (dec_lt room (length out + 2)) [
          | yes full ↦
              Put-subst (stopped out (omega arith) (omega (arith, full))) (ground (arith, e, full))
          | no enough ↦
              Put-subst (put_escape-Put small (omega (arith, enough))) (ground (arith, e, enough))
        ]
      ]
