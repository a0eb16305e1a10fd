-- ===== src/Writer.antt =====
-- pkg/rbase/util_io.c and util.h: `Writer`, a buffer in front of a file.
-- `write` and `close` of the system are not part of the sources: they are parameters that answer with
-- -1 (`none`) or a count (`some`) and change what is outside, a `W`. A descriptor of -1 is `none`.
pub mod Flush
pub mod Write
mod Tests
use ckit.Base.{
  ℕ, zero, suc, ◌+◌, ◌-◌, ◌/◌, Bool, true, false, Option, none, some, Bytes, length, take, drop,
  replicate, min, ltb, leb, ◌==◌, if◌then◌else◌, Outcome, ret, fault, ◌>>=◌,
}
use ckit.Base.Buffer.{poke}

-- `countof(w->buf)`
abbrev pub buf_size : ℕ
buf_size = 512

-- `flush_low`
abbrev pub flush_low : ℕ
flush_low = buf_size / 8

-- `Writer`
pub record Writer : Type 0 where
  pub fd : Option ℕ
  pub buf : Bytes
  pub len : ℕ

-- `WriterInit`, which leaves the bytes of the buffer.
pub writer_init : Bytes → Option ℕ → Writer
writer_init buf fd = record { fd = fd; buf = buf; len = 0 }

-- `MIN` of two answers.
abbrev pub min_status : Option ℕ → Option ℕ → Option ℕ
min_status none b = none
min_status (some a) none = none
min_status (some a) (some b) = some (min a b)

module _ {W : Type 0} (write : Option ℕ → Bytes → W → Option ℕ × W) where
  -- The end of `WriterFlush`, behind the call of `write`.
  pub shift : Writer → Option ℕ × W → Outcome (Option ℕ × Writer × W)
  shift w (none, out) = ret (none, w, out)
  shift w (some n, out) =
      if ltb 0 n
      then (do
        buf ← (if ltb n w.len then poke w.buf 0 (take (w.len - n) (drop n w.buf)) else ret w.buf)
        ret (some n, record w { buf = buf; len = w.len - n }, out))
      else ret (some n, w, out)

  -- `WriterFlush`
  pub writer_flush : Writer → W → Outcome (Option ℕ × Writer × W)
  writer_flush w out =
      if w.len == 0 then ret (some 0, w, out) else shift w (write w.fd (take w.len w.buf) out)

  -- `WriterClose`
  pub writer_close : (Option ℕ → W → Option ℕ × W) → Writer → W → Outcome (Option ℕ × Writer × W)
  writer_close close w out = do
    (status, w1, out1) ← (if ltb 0 w.len then writer_flush w out else ret (some 0, w, out))
    let (closed, out2) = close w1.fd out1
    ret (min_status status closed, record w1 { fd = none }, out2)

  -- `cap` behind a flush.
  abbrev regain : ℕ → Option ℕ → Option ℕ
  regain room1 none = none
  regain room1 (some n) = some (room1 + n)

  -- One turn of the loop of `WriterWrite`: `room` is `cap`, and so is the answer, or `none` where it returns -1.
  pub turn : Bytes → ℕ → Writer → W → Outcome (Option ℕ × Writer × W)
  turn input room w out = do
    let chunklen = min (length input) room
    buf ← poke w.buf w.len (take chunklen input)
    let w1 = record w { buf = buf; len = w.len + chunklen }
    let room1 = room - chunklen
    (if leb room1 flush_low
        then (do (nwrite, w2, out2) ← writer_flush w1 out; ret (regain room1 nwrite, w2, out2))
        else ret (some room1, w1, out))

  -- The loop: whether it ends with 0 and not with -1. Fuel for its turns.
  pub write_loop : ℕ → Bytes → ℕ → Writer → W → Outcome (Bool × Writer × W)
  write_loop zero input room w out = fault
  write_loop (suc fuel) input room w out =
      let more = turn input room w out >>= λ r. elim r.0 [
        | none ↦ ret (false, r.1, r.2)
        | some room1 ↦ write_loop fuel (drop (min (length input) room) input) room1 r.1 r.2
      ] in
      if ltb 0 (length input) then more else ret (true, w, out)

  -- `WriterWrite`
  pub writer_write : Writer → Bytes → W → Outcome (Bool × Writer × W)
  writer_write w input out = write_loop (length input + 2) input (buf_size - w.len) w out
