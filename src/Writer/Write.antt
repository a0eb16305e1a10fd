-- ===== src/Writer/Write.antt =====
-- `WriterWrite` of pkg/rbase/util_io.c: what it is given arrives, in order, and the loop ends.
use native.Mathlib.Decide.{dec_lt}
use ckit.Base.{
  ℕ, zero, suc, ◌+◌, ◌-◌, ◌≤◌, ◌<◌, ◌≡◌, refl, sym, ap, ◌∙◌, ◌⊎◌, inl, inr, Bool, true, false,
  Option, none, some, [], ◌++◌, Bytes, length, take, drop, ◌∷◌, subst, min, arith, ret,
  append_assoc, append-nil, take-append-drop, length-append, length-drop, length-take,
}
use ckit.Base.Slices.{take-take-drop}
use ckit.Base.Buffer.{poke, poke_lem}
use ckit.Writer.{Writer, turn, write_loop, writer_write, buf_size, flush_low}
use ckit.Writer.Flush.{Answer, Accepts, writer_flush_lem}

module _ {W : Type 0} (write : Option ℕ → Bytes → W → Option ℕ × W) (written : W → Bytes)
    (answers : (fd : Option ℕ) (input : Bytes) (out : W)
      → 0 < length input
      → Answer written input out (write fd input out)) where
  -- The bytes in the buffer, with some behind them.
  stored-Accepts :
      (w : Writer) (out : W) (all d : Bytes)
      → (v : Accepts written w out all) → w.len + length d ≤ buf_size
      → (buf : Bytes) × (poke w.buf w.len d ≡ ret buf)
        × Accepts written (record w { buf = buf; len = w.len + length d }) out (all ++ d)
  stored-Accepts w out all d v fits =
      let sizes = length-append v.waiting v.rest in
      let behind = drop (length d) v.rest in
      let joined = append_assoc v.waiting d behind in
      (
        v.waiting ++ (d ++ behind),
        ap (λ k. poke k w.len d) v.split
            ∙ poke_lem v.waiting v.rest d w.len v.count
                (omega (arith, sizes, ap length v.split, v.size, v.count)),
        record {
          waiting = v.waiting ++ d;
          rest = behind;
          split = sym joined;
          count = omega (arith, length-append v.waiting d, v.count);
          size = omega (
            arith,
            length-append v.waiting (d ++ behind),
            length-append d behind,
            length-drop (length d) v.rest,
            sizes,
            ap length v.split,
            v.size,
            v.count,
          );
          whole = sym (append_assoc (written out) v.waiting d) ∙ ap (λ k. k ++ d) v.whole;
        },
      )

  -- How a turn ends: with -1, or with room in the buffer.
  abbrev Turned : Option ℕ → Writer → Type 0
  Turned r w' = (r ≡ none) ⊎ ((c : ℕ) × (r ≡ some c) × (c + w'.len ≡ buf_size) × (0 < c))

  turn_lem :
      (input : Bytes) (room : ℕ) (w : Writer) (out : W) (all : Bytes)
      → Accepts written w out all
      → room + w.len ≡ buf_size
      → (r : Option ℕ) × (w' : Writer) × (out' : W) × (turn write input room w out
          ≡ ret (r, w', out'))
        × Accepts written w' out' (all ++ take (min (length input) room) input)
        × Turned r w'
  unfolding turn
  turn_lem input room w out all v sum =
      let n = min (length input) room in
      let d = take n input in
      let size : length d ≡ n = omega (arith, length-take n input) in
      let (buf, stores, v1) = stored-Accepts w out all d v (omega (arith, size)) in
      let w1 = record w { buf = buf; len = w.len + n } in
      let v2 : Accepts written w1 out (all ++ d) =
        subst (λ k. Accepts written (record w { buf = buf; len = w.len + k }) out (all ++ d)) size
          v1 in
      elim (dec_lt flush_low (room - n)) [
        | yes h ↦ (
          some (room - n),
          w1,
          out,
          ground (arith, stores),
          v2,
          inr (room - n, refl, omega arith, omega arith),
        )
        | no h ↦
            let (r, w', out', runs, v', f) =
              writer_flush_lem write written answers w1 out (all ++ d) v2 in
            elim f [
              | inl (e, _) ↦ (none, w', out', ground (arith, stores, runs, e), v', inl refl)
              | inr (k, e, less, some_out) ↦ (
                some (room - n + k),
                w',
                out',
                ground (arith, stores, runs, e),
                v',
                inr (room - n + k, refl, omega arith, omega (arith, some_out)),
              )
            ]
      ]

  -- How the loop ends: with all of the input taken, or with -1 and some of it.
  abbrev pub Ended : Bool → Bytes → Bytes → Writer → W → Type 0
  Ended done all input w out =
      ((done ≡ true) × Accepts written w out (all ++ input))
      ⊎ ((done ≡ false) × (k : ℕ) × Accepts written w out (all ++ take k input))

  later :
      (done : Bool) (all input : Bytes) (w : Writer) (out : W) (n : ℕ)
      → Ended done (all ++ take n input) (drop n input) w out
      → Ended done all input w out
  later done all input w out n (inl (e, v)) = inl (
    e,
    subst (Accepts written w out)
        (append_assoc all (take n input) (drop n input)
          ∙ ap (λ k. all ++ k) (take-append-drop n input))
        v,
  )
  later done all input w out n (inr (e, k, v)) = inr (
    e,
    n + k,
    subst (Accepts written w out)
        (append_assoc all (take n input) (take k (drop n input))
          ∙ ap (λ i. all ++ i) (take-take-drop n k input))
        v,
  )

  write_loop_lem :
      (fuel : ℕ) (input : Bytes) (room : ℕ) (w : Writer) (out : W) (all : Bytes)
      → Accepts written w out all
      → room + w.len ≡ buf_size
      → length input + 2 ≤ fuel + min room 1
      → (done : Bool) × (w' : Writer) × (out' : W) × (write_loop write fuel input room w out
          ≡ ret (done, w', out'))
        × Ended done all input w' out'
  unfolding write_loop
  write_loop_lem zero input room w out all v sum enough = absurd (omega arith)
  write_loop_lem (suc fuel) [] room w out all v sum enough =
      (true, w, out, refl, inl (refl, subst (Accepts written w out) (sym (append-nil all)) v))
  write_loop_lem (suc fuel) (x ∷ xs) room w out all v sum enough =
      let input = x ∷ xs in
      let n = min (length input) room in
      let (r, w1, out1, runs, v1, t) = turn_lem input room w out all v sum in
      elim t [
        | inl e ↦ (false, w1, out1, ground (arith, runs, e), inr (refl, n, v1))
        | inr (c, e, sum1, some_room) ↦
            let (done, w2, out2, on, ended) =
              write_loop_lem fuel (drop n input) c w1 out1 (all ++ take n input) v1 sum1
                (omega (arith, length-drop n input)) in
            (done, w2, out2, ground (arith, runs, e, on), later done all input w2 out2 n ended)
      ]

  -- `WriterWrite` returns, on a well-formed writer whose file fails or takes one byte at least per call.
  -- If it answers 0, what is written and what waits in the buffer are the old bytes and then all of the
  -- input, and if it answers -1 they are the old bytes and then the first bytes of the input.
  pub writer_write_lem :
      (w : Writer) (out : W) (all input : Bytes)
      → Accepts written w out all
      → (done : Bool) × (w' : Writer) × (out' : W) × (writer_write write w input out
          ≡ ret (done, w', out'))
        × Ended done all input w' out'
  unfolding writer_write
  writer_write_lem w out all input v =
      write_loop_lem (length input + 2) input (buf_size - w.len) w out all v
        (omega (arith, length-append v.waiting v.rest, ap length v.split, v.size, v.count))
        (omega arith)
