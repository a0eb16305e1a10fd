-- ===== src/Writer/Flush.antt =====
-- `WriterFlush` of pkg/rbase/util_io.c against all bytes that a writer was given.
use native.Mathlib.Decide.{dec_lt}
use ckit.Base.{
  ℕ, ◌+◌, ◌-◌, ◌≤◌, ◌<◌, ◌≡◌, refl, ap, ◌∙◌, ◌⊎◌, inl, inr, Option, none, some, [], ◌++◌, Bytes,
  length, take, drop, arith, ret, append_assoc, take-append, take-append-drop, length-append,
  length-drop, ltb, if◌then◌else◌,
}
use ckit.Base.Slices.{drop_within, drop_all}
use ckit.Base.Buffer.{poke, poke_lem}
use ckit.Writer.{Writer, shift, writer_flush, buf_size}

-- What a call of `write` with bytes to write answers: it fails and writes nothing, or it writes the
-- first of the bytes, one at least.
abbrev pub Answer :
    {W : Type 0} (written : W → Bytes) (input : Bytes) (out : W) (r : Option ℕ × W) → Type 0
Answer written input out r =
    ((r.0 ≡ none) × (written (r.1) ≡ written out))
    ⊎ ((n : ℕ) × (r.0 ≡ some n)
        × (0 < n)
        × (n ≤ length input)
        × (written (r.1) ≡ written out ++ take n input))

-- What is written and what waits in the buffer are, one after the other, `all`.
pub record Accepts {W : Type 0} (written : W → Bytes) (w : Writer) (out : W) (all : Bytes)
    : Type 0 where
  pub waiting : Bytes
  pub rest : Bytes
  pub split : w.buf ≡ waiting ++ rest
  pub count : w.len ≡ length waiting
  pub size : length w.buf ≡ buf_size
  pub whole : written out ++ waiting ≡ all

module _ {W : Type 0} (write : Option ℕ → Bytes → W → Option ℕ × W) (written : W → Bytes)
    (answers : (fd : Option ℕ) (input : Bytes) (out : W)
      → 0 < length input
      → Answer written input out (write fd input out)) where
  -- How a flush ends.
  abbrev pub Flushed : Option ℕ → Writer → Writer → Type 0
  Flushed r w w' =
      ((r ≡ none) × (w'.len ≡ w.len))
      ⊎ ((n : ℕ) × (r ≡ some n) × (w'.len + n ≡ w.len) × (w.len ≤ 0 ⊎ 0 < n))

  -- What the flush of `n` bytes leaves in the buffer.
  moved :
      (w : Writer) (waiting rest : Bytes) (n : ℕ)
      → w.buf ≡ waiting ++ rest
      → w.len ≡ length waiting
      → n ≤ w.len
      → (rest' : Bytes) × ((if ltb n w.len
            then poke w.buf 0 (take (w.len - n) (drop n w.buf))
            else ret w.buf)
          ≡ ret (drop n waiting ++ rest'))
        × (length (drop n waiting ++ rest') ≡ length w.buf)
  moved w waiting rest n e c le =
      let d = drop n waiting in
      let long = length-drop n waiting in
      let tail = drop (length d) (waiting ++ rest) in
      let cut : take (w.len - n) (drop n (waiting ++ rest)) ≡ d =
        ap (λ k. take (w.len - n) k) (drop_within n waiting rest (omega arith))
        ∙ take-append d rest (w.len - n) (omega arith) in
      let all = length-append waiting rest in
      let stored = poke_lem [] (waiting ++ rest) d 0 refl (omega (arith, long, all)) in
      let size = length-append d tail in
      let tails = length-drop (length d) (waiting ++ rest) in
      elim (dec_lt n w.len) [
        | yes h ↦ (
          tail,
          ground (arith, e, cut, stored),
          omega (arith, ap length e, size, tails, long, all),
        )
        | no h ↦ (
          waiting ++ rest,
          ground (arith, drop_all n waiting (omega arith), e),
          omega (arith, ap length e, length-append d (waiting ++ rest), long, h),
        )
      ]

  -- The bytes that wait behind the first `n`.
  pub shift_lem :
      (w : Writer) (out out' : W) (all : Bytes) (n : ℕ)
      → (v : Accepts written w out all) → 0 < n
      → n ≤ w.len
      → written out' ≡ written out ++ take n v.waiting
      → (w' : Writer) × (shift write w (some n, out') ≡ ret (some n, w', out'))
        × Accepts written w' out' all
        × (w'.len + n ≡ w.len)
  unfolding shift
  shift_lem w out out' all n v more le e =
      let (rest', runs, size) = moved w v.waiting v.rest n v.split v.count le in
      let d = drop n v.waiting in
      (
        record w { buf = d ++ rest'; len = w.len - n },
        ground (arith, runs),
        record {
          waiting = d;
          rest = rest';
          split = refl;
          count = omega (arith, length-drop n v.waiting, v.count);
          size = size ∙ v.size;
          whole =
              ap (λ k. k ++ d) e
              ∙ append_assoc (written out) (take n v.waiting) d
              ∙ ap (λ k. written out ++ k) (take-append-drop n v.waiting)
              ∙ v.whole;
        },
        omega arith,
      )

  pub writer_flush_lem :
      (w : Writer) (out : W) (all : Bytes)
      → Accepts written w out all
      → (r : Option ℕ) × (w' : Writer) × (out' : W) × (writer_flush write w out ≡ ret (r, w', out'))
        × Accepts written w' out' all
        × Flushed r w w'
  unfolding writer_flush shift
  writer_flush_lem w out all v =
      let front : take w.len w.buf ≡ v.waiting =
        ap (λ k. take w.len k) v.split ∙ take-append v.waiting v.rest w.len v.count in
      let p = write w.fd v.waiting out in
      elim (dec_lt 0 w.len) [
        | no h ↦ (some 0, w, out, ground arith, v, inr (0, refl, omega arith, inl (omega arith)))
        | yes h ↦
            let calls : writer_flush write w out ≡ shift write w p = ground (arith, front) in
            elim (answers w.fd v.waiting out (omega (arith, v.count))) [
              | inl (e, same) ↦ (
                none,
                w,
                p.1,
                calls ∙ ap (λ k. shift write w (k, p.1)) e,
                record {
                  waiting = v.waiting;
                  rest = v.rest;
                  split = v.split;
                  count = v.count;
                  size = v.size;
                  whole = ap (λ k. k ++ v.waiting) same ∙ v.whole;
                },
                inl (refl, refl),
              )
              | inr (n, e, more, le, grown) ↦
                  let (w', runs, v', sum) =
                    shift_lem w out (p.1) all n v more (omega (arith, v.count)) grown in
                  (
                    some n,
                    w',
                    p.1,
                    calls ∙ ap (λ k. shift write w (k, p.1)) e ∙ runs,
                    v',
                    inr (n, refl, sum, inr more),
                  )
            ]
      ]
