-- ===== src/Sha1.antt =====
-- pkg/rbase/util_sha1.c: SHA-1, as a little-endian build runs it.
-- A word is a number below 2 ^ 32, and the words of `block` are a list. Where a value is only masked
-- with the low bits or shifted, `%`, `*` and `/` by a power of two are written. `sha1_fmt` is a call of
-- `fmthex`.
pub mod Spec
pub mod Update
pub mod Final
mod Tests
use Prim.Native.Nat.{bit_and, bit_or, bit_xor}
use ckit.Base.{
  ℕ, zero, suc, ◌+◌, ◌-◌, ◌*◌, ◌/◌, ◌%◌, ◌^◌, List, [], ◌∷◌, ◌++◌, Bytes, length, get_or, take,
  drop, ltb, leb, ◌==◌, if◌then◌else◌, Outcome, ret, fault, ◌>>=◌,
}
use ckit.Base.Words.{u32}
use ckit.Base.Buffer.{poke}

-- `rol`
abbrev pub rol : ℕ → ℕ → ℕ
rol value bits = bit_or (u32 (value * 2 ^ bits)) (value / 2 ^ (32 - bits))

abbrev pub set : List ℕ → ℕ → ℕ → List ℕ
set [] i x = []
set (y ∷ ys) zero x = x ∷ ys
set (y ∷ ys) (suc i) x = y ∷ set ys i x

-- The words of 64 bytes, as the union `CHAR64LONG16` shows them.
pub words : ℕ → Bytes → List ℕ
words zero c = []
words (suc n) c =
    (get_or c 0 0 + get_or c 1 0 * 2 ^ 8 + get_or c 2 0 * 2 ^ 16 + get_or c 3 0 * 2 ^ 24)
    ∷ words n (drop 4 c)

-- `blk0(i)` and `blk(i)`: the word, which is stored into the block as well.
pub blk0 : List ℕ → ℕ → ℕ
blk0 l i =
    let v = get_or l i 0 in bit_or (bit_and (rol v 24) 0xFF00FF00) (bit_and (rol v 8) 0x00FF00FF)

pub blk : List ℕ → ℕ → ℕ
blk l i =
    rol
      (bit_xor
        (bit_xor (bit_xor (get_or l ((i + 13) % 16) 0) (get_or l ((i + 8) % 16) 0))
          (get_or l ((i + 2) % 16) 0))
        (get_or l (i % 16) 0))
      1

-- What `R0` to `R4` add for the round `i`, which tells them apart, apart from the word of the block.
pub mix : ℕ → ℕ → ℕ → ℕ → ℕ
mix i w x y =
    if ltb i 20
    then bit_xor (bit_and w (bit_xor x y)) y + 0x5A827999
    else if ltb i 40
    then bit_xor (bit_xor w x) y + 0x6ED9EBA1
    else if ltb i 60
    then bit_or (bit_and (bit_or w x) y) (bit_and w x) + 0x8F1BBCDC
    else bit_xor (bit_xor w x) y + 0xCA62C1D6

-- `state`, and the variables `a` to `e`.
pub record Vars : Type 0 where
  pub a : ℕ
  pub b : ℕ
  pub c : ℕ
  pub d : ℕ
  pub e : ℕ

-- A round. Its macro changes two of the variables, and the next call names each of them one place
-- further, the last one first, so that the names are the old ones after five rounds. Here the values
-- move instead.
pub round : ℕ → ℕ → Vars → Vars
round i word s = record {
  a = u32 (s.e + (mix i s.b s.c s.d + word + rol s.a 5));
  b = s.a;
  c = rol s.b 30;
  d = s.c;
  e = s.d;
}

-- The rounds from `i` on.
pub rounds : ℕ → ℕ → List ℕ → Vars → Vars
rounds zero i block s = s
rounds (suc n) i block s =
    let word = if ltb i 16 then blk0 block i else blk block i in
    rounds n (suc i) (set block (i % 16) word) (round i word s)

-- `sha1_transform`
pub sha1_transform : Vars → Bytes → Vars
sha1_transform state buffer =
    let s = rounds 80 0 (words 16 buffer) state in
    record {
      a = u32 (state.a + s.a);
      b = u32 (state.b + s.b);
      c = u32 (state.c + s.c);
      d = u32 (state.d + s.d);
      e = u32 (state.e + s.e);
    }

-- `SHA1Ctx`
pub record Sha1Ctx : Type 0 where
  pub state : Vars
  pub count0 : ℕ
  pub count1 : ℕ
  pub buffer : Bytes

-- `sha1_init`, which leaves the buffer as it is.
abbrev pub initial : Vars
initial = record { a = 0x67452301; b = 0xEFCDAB89; c = 0x98BADCFE; d = 0x10325476; e = 0xC3D2E1F0 }

pub sha1_init : Bytes → Sha1Ctx
sha1_init buffer = record { state = initial; count0 = 0; count1 = 0; buffer = buffer }

-- The loop of `sha1_update`: the state and `i` at its end. Fuel for the blocks. A read behind the input
-- is not defined.
pub update_loop : ℕ → Vars → Bytes → ℕ → Outcome (Vars × ℕ)
update_loop zero state input i = fault
update_loop (suc fuel) state input i =
    let rest =
      update_loop fuel (sha1_transform state (take 64 (drop i input))) input (u32 (i + 64)) in
    if ltb (u32 (i + 63)) (length input)
    then (if leb (i + 64) (length input) then rest else fault)
    else ret (state, i)

-- The bit counters of `sha1_update`.
pub counted : Sha1Ctx → ℕ → Sha1Ctx
counted context len =
    let count0 = u32 (context.count0 + u32 (len * 8)) in
    let carried = if ltb count0 context.count0 then u32 (context.count1 + 1) else context.count1 in
    record context { count0 = count0; count1 = u32 (carried + len / 2 ^ 29) }

-- The two branches of `sha1_update`, with its `j`, and with the last `memcpy` in both.
pub take_blocks : Sha1Ctx → Bytes → ℕ → Outcome Sha1Ctx
take_blocks ctx input j = do
  buffer ← poke ctx.buffer j (take (64 - j) input)
  (state, i) ← update_loop (length input) (sha1_transform ctx.state buffer) input (64 - j)
  out ← poke buffer 0 (drop i input)
  ret (record ctx { state = state; buffer = out })

pub keep : Sha1Ctx → Bytes → ℕ → Outcome Sha1Ctx
keep ctx input j = do out ← poke ctx.buffer j input; ret (record ctx { buffer = out })

-- `sha1_update`, of input with a length in `uint32_t`.
pub sha1_update : Sha1Ctx → Bytes → Outcome Sha1Ctx
sha1_update context input =
    let len = length input in
    let j = context.count0 / 8 % 64 in
    let ctx = counted context len in
    if ltb 63 (u32 (j + len)) then take_blocks ctx input j else keep ctx input j

-- The bytes of a number of `n` bytes, the highest first.
abbrev pub be : ℕ → ℕ → Bytes
be zero v = []
be (suc n) v = v / 256 ^ n % 256 ∷ be n v

-- The loop of `sha1_final` that pads with zeros. Fuel for the bytes of a block.
pub pad_loop : ℕ → Sha1Ctx → Outcome Sha1Ctx
pad_loop zero context = fault
pad_loop (suc fuel) context =
    let more = sha1_update context (0 ∷ []) >>= pad_loop fuel in
    if context.count0 / 8 % 64 == 56 then ret context else more

-- `sha1_final`, up to where it clears its variables.
pub sha1_final : Sha1Ctx → Outcome Bytes
sha1_final context = do
  let finalcount = be 4 context.count1 ++ be 4 context.count0
  c1 ← sha1_update context (0x80 ∷ [])
  c2 ← pad_loop 64 c1
  c3 ← sha1_update c2 finalcount
  ret (be 4 c3.state.a ++ be 4 c3.state.b ++ be 4 c3.state.c ++ be 4 c3.state.d ++ be 4 c3.state.e)
