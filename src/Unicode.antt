-- ===== src/Unicode.antt =====
-- pkg/rbase/unicode.c and unicode.h: decoding one character of UTF-8.
-- The buffer is its bytes, and a read behind them is not defined. Shifting and masking with low bits are
-- `*`, `/` and `%` by a power of two.
pub mod Roundtrip
mod Tests
use ckit.Base.{
  ℕ, zero, suc, ◌+◌, ◌*◌, ◌/◌, ◌%◌, ◌^◌, Bytes, [], ◌∷◌, length, get_or, ltb, ◌==◌, if◌then◌else◌,
  Outcome, ret, fault, ◌>>=◌,
}

-- `RuneErr`, `RuneSelf`
abbrev pub rune_err : ℕ
rune_err = 0xFFFD

abbrev pub rune_self : ℕ
rune_self = 0x80

-- `buf[i]`
abbrev pub read : Bytes → ℕ → Outcome ℕ
read buf i = if ltb i (length buf) then ret (get_or buf i 0) else fault

-- `utf8decode`: the character, and `*out_width`.
pub utf8decode : Bytes → ℕ → Outcome (ℕ × ℕ)
utf8decode buf len = read buf 0 >>= λ b.
    if ltb b rune_self
    then ret (b, 1)
    else if b / 32 == 0x6
    then (if ltb len 2
        then ret (rune_err, 2)
        else (read buf 1 >>= λ b1. ret (b * 64 % 0x800 + b1 % 64, 2)))
    else if b / 16 == 0xE
    then (if ltb len 3
        then ret (rune_err, 3)
        else (read buf 1 >>= λ b1.
            read buf 2 >>= λ b2. ret (b * 2 ^ 12 % 0x10000 + b1 * 64 % 0x1000 + b2 % 64, 3)))
    else if b / 8 == 0x1E
    then (if ltb len 4
        then ret (rune_err, 4)
        else (read buf 1 >>= λ b1. read buf 2 >>= λ b2. read buf 3 >>= λ b3.
            ret (b * 2 ^ 18 % 0x200000 + b1 * 2 ^ 12 % 0x40000 + b2 * 64 % 0x1000 + b3 % 64, 4)))
    else ret (rune_err, 1)
