-- ===== src/Reader.antt =====
-- pkg/rbase/util_io.c and util.h: `Reader`, a file that is read in pieces.
-- `open`, `close` and `read` of the system are not part of the sources: they are the parameter `System`,
-- over what is outside, a `W`. A descriptor of -1 is `none`; an answer of -1 is `none`, and `errno` stands
-- behind it.
pub mod Whole
mod Tests
use ckit.Base.{
  ℕ, Bool, true, false, zero, suc, ◌+◌, Option, none, some, List, [], ◌∷◌, ◌++◌, Bytes, length,
  take, ltb, ◌==◌, if◌then◌else◌, Outcome, ret, fault, ◌>>=◌,
}
use ckit.Base.Buffer.{poke}

-- `open` (to read), `close`, and `read` of at most so many bytes, with the bytes that it stores.
pub record System (W : Type 0) : Type 0 where
  pub open_file : Bytes → W → Option ℕ × W
  pub close : ℕ → W → Option ℕ × W
  pub read : Option ℕ → ℕ → W → Option Bytes × W
  pub errno : W → ℕ

-- `countof(r->buf)`
abbrev pub chunk_size : ℕ
chunk_size = 512

-- `Reader`
pub record Reader : Type 0 where
  pub fd : Option ℕ
  pub buf : Bytes
  pub err : ℕ

-- `strcmp(filename, "-") == 0`
abbrev is_dash : Bytes → Bool
is_dash (c ∷ []) = c == b'-'
is_dash _ = false

module _ {W : Type 0} (os : System W) where
  -- `ReaderOpen`: the status, the reader and what is outside.
  pub reader_open : Reader → Bytes → W → ℕ × Reader × W
  reader_open r filename w =
      let (fd, w1) = os.open_file filename w in
      if is_dash filename
      then (0, record r { fd = some 0 }, w)
      else elim fd [ none ↦ (os.errno w1, r, w1) | some n ↦ (0, record r { fd = some n }, w1) ]

  -- `ReaderClose`
  pub reader_close : Reader → W → Option ℕ × Reader × W
  reader_close r w =
      let r1 = record r { fd = none } in
      elim r.fd [
        | none ↦ (some 0, r1, w)
        | some fd ↦
            let (closed, w1) = os.close fd w in
            if fd == 0 then (some 0, r1, w) else (closed, r1, w1)
      ]

  -- `ReaderRead`
  pub reader_read : Reader → W → Outcome (Option ℕ × Reader × W)
  reader_read r w =
      let (nread, w1) = os.read r.fd chunk_size w in
      elim nread [
        | none ↦ ret (none, record r { err = os.errno w1 }, w1)
        | some bytes ↦
            (poke r.buf 0 bytes >>= λ buf. ret (some (length bytes), record r { buf = buf }, w1))
      ]
