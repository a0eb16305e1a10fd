-- ===== src/Str/Repr/Loop.antt =====
-- The inner loop of `str_appendrepr`: what it writes is read back as its input.
use native.Mathlib.Decide.{ℕ_discrete}
use ckit.Base.{
  subst, ℕ, ◌+◌, ◌-◌, ◌*◌, ◌≤◌, ◌<◌, ◌≡◌, ◌⊎◌, inl, inr, refl, sym, Bool, true, false, some, [],
  ◌∷◌, ◌++◌, Bytes, length, leb, ret, arith, length-append, append-nil, append_assoc, Bool-cases,
}
use ckit.Str.Repr.{put_char, break_line, next_line, repr_loop}
use ckit.Str.Repr.Read.{Mode, read_lines, read_lines-break, Ready}
use ckit.Str.Repr.Char.{put_char-Put}

-- The bytes that are read back: no backslash, which is not escaped, and no negative `char`.
abbrev pub Readable : Bytes → Type 0
Readable [] = Unit
Readable (c ∷ input) = (c < 128) × (¬ (c ≡ 92)) × Readable input

-- A line break in the text changes nothing.
break-Ready :
    (line : ℕ) (out : Bytes) (st : Mode × Bytes)
    → read_lines out ≡ some st
    → (read_lines (break_line line out) ≡ some st)
      × (length (break_line line out) ≤ length out + 1)
      × (length out ≤ length (break_line line out))
unfolding break_line
break-Ready line out st reads =
    let size = length-append out (10 ∷ []) in
    elim (Bool-cases (leb 80 (length out - line))) [
      | inl b ↦ rw (b) (read_lines-break st out reads, omega (arith, size), omega (arith, size))
      | inr b ↦ rw (b) (reads, omega arith, omega arith)
    ]

-- How the loop ends: without room, or with all of the input.
pub record Looped (room : ℕ) (out done input : Bytes) (r : Bool × Bool × Bytes) : Type 0 where
  pub fits : length (r.2) ≤ room
  pub ends :
      ((r.0 ≡ false) × (room < length out + 5 * length input))
      ⊎ ((r.0 ≡ true)
          × ((st : Mode × Bytes) × (read_lines (r.2) ≡ some st) × Ready (r.1) st (done ++ input)))

pub repr_loop_lem :
    (room : ℕ) (input : Bytes) (line : ℕ) (prevesc : Bool) (out done : Bytes) (st : Mode × Bytes)
    → Readable input
    → read_lines out ≡ some st
    → Ready prevesc st done
    → length out ≤ room
    → (r : Bool × Bool × Bytes) × (repr_loop room input line prevesc out ≡ ret r)
      × Looped room out done input r
unfolding repr_loop
repr_loop_lem room [] line prevesc out done st ok reads v fits = (
  (true, prevesc, out),
  refl,
  record {
    fits = fits;
    ends = inr (refl, (st, reads, subst (Ready prevesc st) (sym (append-nil done)) v));
  },
)
repr_loop_lem room (c ∷ input) line prevesc out done st (small, ne, ok) reads v fits =
    let broken = break_line line out in
    let (reads1, more, less) = break-Ready line out st reads in
    let r = put_char room c prevesc broken in
    elim (ℕ_discrete (length out) room) [
      | yes full ↦ (
        (false, prevesc, out),
        ground (arith, full),
        record { fits = fits; ends = inl (refl, omega (arith, full)) },
      )
      | no some_room ↦ elim (ℕ_discrete (length broken) room) [
        | yes full ↦ (
          (false, prevesc, broken),
          ground (arith, some_room, full),
          record { fits = omega (arith, full); ends = inl (refl, omega (arith, full, more)) },
        )
        | no enough ↦
            let w =
              put_char-Put room c prevesc broken done st reads1 v small ne
                (omega (arith, some_room, enough, more, fits)) in
            elim w.ends [
              | inl (stop, full) ↦ (
                r,
                ground (arith, some_room, enough, small, stop),
                record { fits = w.fits; ends = inl (stop, omega (arith, full, more)) },
              )
              | inr (on, grown, (st2, reads2, v2)) ↦
                  let (r', runs, l) =
                    repr_loop_lem room input (next_line line out) (r.1) (r.2) (done ++ c ∷ []) st2
                      ok reads2 v2 w.fits in
                  (
                    r',
                    ground (arith, some_room, enough, small, on, runs),
                    record {
                      fits = l.fits;
                      ends = elim l.ends [
                        | inl (stop, full) ↦ inl (stop, omega (arith, full, grown, more))
                        | inr (whole, (st3, reads3, v3)) ↦ inr (
                          whole,
                          (
                            st3,
                            reads3,
                            subst (Ready (r'.1) st3) (append_assoc done (c ∷ []) input) v3,
                          ),
                        )
                      ];
                    },
                  )
            ]
      ]
    ]
