-- ===== src/Reader/Whole.antt =====
-- A caller that reads a file to its end by `ReaderRead`.
use ckit.Base.{
  ℕ, zero, suc, ◌≤◌, ◌<◌, ◌≡◌, ◌⊎◌, inl, inr, refl, sym, ap, ◌∙◌, Option, none, some, [], ◌∷◌, ◌++◌,
  Bytes, length, take, drop, length-append, length-drop, take-append, ◌==◌, if◌then◌else◌, Outcome,
  ret, fault, ◌>>=◌, arith, Option-cases,
}
use ckit.Base.Buffer.{poke_lem}
use ckit.Reader.{System, chunk_size, Reader, reader_read}

-- What the manual says of `read`: the bytes are those at the offset of the file, of which `rest` is what
-- is left, and there are none only at its end.
pub record Documented {W : Type 0} (os : System W) (rest : ℕ → W → Bytes) : Type 0 where
  pub few :
      (fd n : ℕ) (w : W) (bytes : Bytes) → (os.read (some fd) n w).0 ≡ some bytes → length bytes ≤ n
  pub next :
      (fd n : ℕ) (w : W) (bytes : Bytes)
      → (os.read (some fd) n w).0 ≡ some bytes
      → rest fd w ≡ bytes ++ rest fd (os.read (some fd) n w).1
  pub end : (fd n : ℕ) (w : W) → 0 < n → (os.read (some fd) n w).0 ≡ some [] → rest fd w ≡ []

-- The bytes of a piece in front of the others.
abbrev pub joined : Bytes → Option Bytes → Option Bytes
joined piece none = none
joined piece (some more) = some (piece ++ more)

module _ {W : Type 0} (os : System W) where
  -- Calls until `ReaderRead` answers 0, or -1. Fuel for them.
  unfoldable pub read_all : ℕ → Reader → W → Outcome (Option Bytes × Reader × W)
  read_all zero r w = fault
  read_all (suc fuel) r w = reader_read os r w >>= λ a.
      let more = read_all fuel a.1 a.2 in
      elim a.0 [
        | none ↦ ret (none, a.1, a.2)
        | some n ↦
            if n == 0
            then ret (some [], a.1, a.2)
            else (more >>= λ b. ret (joined (take n a.1.buf) b.0, b.1, b.2))
      ]

  -- The reader behind a call that answers with bytes.
  abbrev filled : Reader → Bytes → Reader
  filled r bytes = record r { buf = bytes ++ drop (length bytes) r.buf }

  reader_read-some :
      (r : Reader) (w : W) (bytes : Bytes)
      → (os.read r.fd chunk_size w).0 ≡ some bytes
      → length bytes ≤ length r.buf
      → reader_read os r w
        ≡ ret (some (length bytes), filled r bytes, (os.read r.fd chunk_size w).1)
  unfolding reader_read
  reader_read-some r w bytes e fits = ground (arith, e, poke_lem [] r.buf bytes 0 refl fits)

  reader_read-none :
      (r : Reader) (w : W)
      → (os.read r.fd chunk_size w).0 ≡ none
      → (r' : Reader) × (w' : W) × (reader_read os r w ≡ ret (none, r', w'))
        × (r'.err ≡ os.errno w')
  unfolding reader_read
  reader_read-none r w e =
      let w' = (os.read r.fd chunk_size w).1 in
      (record r { err = os.errno w' }, w', ground (arith, e), refl)

  -- A caller that reads until the end of the file either gets exactly the bytes of the file from its
  -- offset on, in their order, or meets an error, which is then in `err`. It comes to an end, as each call
  -- but the last one takes a byte at least.
  pub read_all_lem :
      (rest : ℕ → W → Bytes) (fuel fd : ℕ) (r : Reader) (w : W)
      → Documented os rest
      → r.fd ≡ some fd
      → length r.buf ≡ chunk_size
      → length (rest fd w) < fuel
      → (got : Option Bytes) × (r' : Reader) × (w' : W) × (read_all fuel r w ≡ ret (got, r', w'))
        × ((got ≡ some (rest fd w)) ⊎ ((got ≡ none) × (r'.err ≡ os.errno w')))
  unfolding read_all
  read_all_lem rest zero fd r w d open_fd size enough = absurd (omega arith)
  read_all_lem rest (suc fuel) fd r w d open_fd size enough =
      elim (Option-cases (os.read r.fd chunk_size w).0) [
        | inl e ↦
            let (r', w', call, err) = reader_read-none r w e in
            (none, r', w', ground (arith, call), inr (refl, err))
        | inr ([], e) ↦
            let call = reader_read-some r w [] e (omega arith) in
            let w1 = (os.read r.fd chunk_size w).1 in
            let over : rest fd w ≡ [] =
              d.end fd chunk_size w (omega arith)
                (ap (λ k. (os.read k chunk_size w).0) (sym open_fd) ∙ e) in
            (some [], filled r [], w1, ground (arith, call), inl (ap some (sym over)))
        | inr (x ∷ xs, e) ↦
            let bytes = x ∷ xs in
            let w1 = (os.read r.fd chunk_size w).1 in
            let here = ap (λ k. (os.read k chunk_size w).0) (sym open_fd) ∙ e in
            let few = d.few fd chunk_size w bytes here in
            let call = reader_read-some r w bytes e (omega (arith, few, size)) in
            let next : rest fd w ≡ bytes ++ rest fd w1 =
              d.next fd chunk_size w bytes here
              ∙ ap (λ k. bytes ++ rest fd (os.read k chunk_size w).1) (sym open_fd) in
            let left : length (rest fd w1) < fuel =
              omega (arith, ap length next, length-append bytes (rest fd w1), enough) in
            let kept : length (filled r bytes).buf ≡ chunk_size = omega (
              arith,
              length-append bytes (drop (length bytes) r.buf),
              length-drop (length bytes) r.buf,
              few,
              size,
            ) in
            let (got, r', w', runs, ends) =
              read_all_lem rest fuel fd (filled r bytes) w1 d open_fd kept left in
            let front = take-append bytes (drop (length bytes) r.buf) (length bytes) refl in
            (
              joined bytes got,
              r',
              w',
              ground (arith, call, runs, front),
              elim ends [
                | inl all ↦ inl (ap (joined bytes) all ∙ ap some (sym next))
                | inr (bad, err) ↦ inr (ap (joined bytes) bad, err)
              ],
            )
      ]
