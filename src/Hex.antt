-- ===== src/Hex.antt =====
-- pkg/rbase/util.c and util_sha1.c: `fmthex`, which writes bytes as hexadecimal digits, and `sha1_fmt`.
pub mod Read
use ckit.Base.{ℕ, ◌/◌, ◌%◌, Bytes, [], ◌∷◌, codes, get_or, Outcome}
use ckit.Base.Buffer.{poke}

-- The two digits of each byte, in the loop of `fmthex`, over its array `hex`.
pub spell : Bytes → Bytes → Bytes
spell hex [] = []
spell hex (b ∷ indata) = get_or hex (b / 16 % 16) 0 ∷ get_or hex (b % 16) 0 ∷ spell hex indata

-- The array `hex`.
abbrev pub lower : Bytes
lower = codes "0123456789abcdef"

-- `fmthex`; `out` is what is allocated from there on.
pub fmthex : Bytes → Bytes → Outcome Bytes
fmthex out indata = poke out 0 (spell lower indata)

-- `sha1_fmt`
pub sha1_fmt : Bytes → Bytes → Outcome Bytes
unfolding fmthex
sha1_fmt dst digest = fmthex dst digest
