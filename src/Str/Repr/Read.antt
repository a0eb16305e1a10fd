-- ===== src/Str/Repr/Read.antt =====
-- The text between the quotes of a C string literal, read from left to right.
-- A line break in it is an error, as in C. `str_appendrepr` puts some into longer texts: `without_breaks`
-- takes them out.
use ckit.Base.{
  ℕ, suc, ◌+◌, ◌*◌, ◌<◌, Option-cases, ◌≡◌, refl, ◌⊎◌, inl, inr, ap, ◌∙◌, Bool, true, false, Option,
  none, some, [], ◌∷◌, ◌++◌, Bytes, ltb, ◌==◌, if◌then◌else◌, arith,
}
use ckit.ParseInt.{digit}

-- What the text so far ends with: nothing special, a backslash, or `\x` and some digits.
pub data Mode : Type 0 where
  plain : Mode
  escaped : Mode
  digits : (count value : ℕ) → Mode

-- A hexadecimal digit.
unfoldable pub hex_value : ℕ → Option ℕ
unfolding digit
hex_value c = elim (digit c) [ none ↦ none | some d ↦ if ltb d 16 then some d else none ]

unfoldable pub feed_plain : Bytes → ℕ → Option (Mode × Bytes)
feed_plain bytes c =
    if c == 10
    then none
    else if c == 92
    then some (escaped, bytes)
    else if c == 34
    then none
    else some (plain, bytes ++ c ∷ [])

unfoldable pub feed_escaped : Bytes → ℕ → Option (Mode × Bytes)
feed_escaped bytes c =
    if c == b't'
    then some (plain, bytes ++ 9 ∷ [])
    else if c == b'n'
    then some (plain, bytes ++ 10 ∷ [])
    else if c == b'r'
    then some (plain, bytes ++ 13 ∷ [])
    else if c == 34
    then some (plain, bytes ++ 34 ∷ [])
    else if c == b'x'
    then some (digits 0 0, bytes)
    else none

-- The byte that the digits stand for, if there are any and it is one.
unfoldable pub hex_byte : ℕ → ℕ → Bytes → Option Bytes
hex_byte count value bytes =
    if count == 0 then none else if ltb value 256 then some (bytes ++ value ∷ []) else none

unfoldable pub feed : Mode × Bytes → ℕ → Option (Mode × Bytes)
unfolding hex_value
feed (plain, bytes) c = feed_plain bytes c
feed (escaped, bytes) c = feed_escaped bytes c
feed (digits k v, bytes) c = elim (hex_value c) [
  | some d ↦ some (digits (suc k) (v * 16 + d), bytes)
  | none ↦ elim (hex_byte k v bytes) [ none ↦ none | some more ↦ feed_plain more c ]
]

unfoldable pub feed_all : Mode × Bytes → Bytes → Option (Mode × Bytes)
feed_all st [] = some st
feed_all st (c ∷ text) = elim (feed st c) [ none ↦ none | some st' ↦ feed_all st' text ]

unfoldable pub finish : Mode × Bytes → Option Bytes
finish (plain, bytes) = some bytes
finish (escaped, bytes) = none
finish (digits k v, bytes) = hex_byte k v bytes

-- What a text stands for.
unfoldable pub read_literal : Bytes → Option Bytes
read_literal text = elim (feed_all (plain, []) text) [ none ↦ none | some st ↦ finish st ]

-- A text with its lines joined.
abbrev pub without_breaks : Bytes → Bytes
without_breaks [] = []
without_breaks (c ∷ text) = let rest = without_breaks text in if c == 10 then rest else c ∷ rest

without_breaks-append :
    (text more : Bytes) → without_breaks (text ++ more) ≡ without_breaks text ++ without_breaks more
without_breaks-append [] more = refl
without_breaks-append (c ∷ text) more = ground (arith, without_breaks-append text more)

feed_all-append :
    (st st' : Mode × Bytes) (text more : Bytes)
    → feed_all st text ≡ some st'
    → feed_all st (text ++ more) ≡ feed_all st' more
unfolding feed_all
feed_all-append st st' [] more e = ground (arith, e)
feed_all-append st st' (c ∷ text) more e = elim (Option-cases (feed st c)) [
  | inl n ↦ ground (arith, n, e)
  | inr (st1, e1) ↦ ground (arith, e1, feed_all-append st1 st' text more (ground (arith, e1, e)))
]

-- The state behind the joined lines of a text.
abbrev pub read_lines : Bytes → Option (Mode × Bytes)
read_lines text = feed_all (plain, []) (without_breaks text)

pub read_lines-append :
    (st : Mode × Bytes) (text more : Bytes)
    → without_breaks more ≡ more
    → read_lines text ≡ some st
    → read_lines (text ++ more) ≡ feed_all st more
read_lines-append st text more whole e =
    ap (λ t. feed_all (plain, []) t) (without_breaks-append text more)
    ∙ feed_all-append (plain, []) st (without_breaks text) (without_breaks more) e
    ∙ ap (λ t. feed_all st t) whole

-- A line break changes nothing.
pub read_lines-break :
    (st : Mode × Bytes) (text : Bytes)
    → read_lines text ≡ some st
    → read_lines (text ++ 10 ∷ []) ≡ some st
unfolding feed_all
read_lines-break st text e =
    ap (λ t. feed_all (plain, []) t) (without_breaks-append text (10 ∷ []))
    ∙ feed_all-append (plain, []) st (without_breaks text) [] e

-- Between two bytes of the input: what they stood for has been read, or the last of them is still to
-- come, behind an escape sequence of two digits, and `prevesc` is set.
abbrev pub Ready : Bool → Mode × Bytes → Bytes → Type 0
Ready prevesc st done =
    (st ≡ (plain, done))
    ⊎ ((prevesc ≡ true)
        × (v : ℕ) × (bytes : Bytes) × (st ≡ (digits 2 v, bytes))
        × (v < 256)
        × (done ≡ bytes ++ v ∷ []))

-- A byte that is no digit ends the escape sequence.
pub feed-Ready :
    (prevesc : Bool) (st : Mode × Bytes) (done : Bytes) (c : ℕ)
    → Ready prevesc st done
    → (prevesc ≡ false) ⊎ (hex_value c ≡ none)
    → feed st c ≡ feed_plain done c
unfolding feed hex_byte
feed-Ready prevesc st done c (inl e) h = ap (λ k. feed k c) e
feed-Ready prevesc st done c (inr (set, v, bytes, e, small, all)) (inl off) =
    absurd (ground (arith, set, off))
feed-Ready prevesc st done c (inr (set, v, bytes, e, small, all)) (inr h) =
    ap (λ k. feed k c) e ∙ ground (arith, h, small, all)

-- At the end, what was read is the input.
pub finish-Ready :
    (prevesc : Bool) (st : Mode × Bytes) (done : Bytes)
    → Ready prevesc st done
    → finish st ≡ some done
unfolding finish hex_byte
finish-Ready prevesc st done (inl e) = ap finish e
finish-Ready prevesc st done (inr (set, v, bytes, e, small, all)) =
    ap finish e ∙ ground (arith, small, all)
