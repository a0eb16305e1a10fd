-- ===== src/ParseInt/Tests.antt =====
-- The test cases of parseint.c, and the theorems at inputs that meet their hypotheses.
use ckit.Base.{◌≡◌, refl, none, some, codes, ret, [], fault, ◌>>=◌}
use ckit.ParseInt.{parse_u64, parse_u32, parse_i64, skip_dashes}
use ckit.ParseInt.Sign.{parse_i64_lem}

in_base_36 : parse_u64 (codes "1y2p0ij32e8e7 ") 13 36 ≡ ret (some 0x7FFFFFFFFFFFFFFF)
unfolding parse_u64
in_base_36 = refl

largest_octal : parse_u64 (codes "1777777777777777777777/") 22 8 ≡ ret (some 0xFFFFFFFFFFFFFFFF)
unfolding parse_u64
largest_octal = refl

past_range : parse_u64 (codes "18446744073709551616.") 20 10 ≡ ret none
unfolding parse_u64
past_range = refl

narrow : parse_u32 (codes "FFAA31910") 8 16 ≡ ret (some 0xFFAA3191)
unfolding parse_u32
narrow = refl

no_text : (parse_u64 (codes "1") 0 10 ≡ ret none) × (parse_u64 (codes "-1 ") 2 10 ≡ ret none)
unfolding parse_u64
no_text = (refl, refl)

-- The text of a negative number is read as a positive one.
sign_lost : parse_i64 (codes "-12 ") 3 10 ≡ ret (some 12)
unfolding parse_i64
sign_lost = refl

-- With no byte behind the text, there is nothing to read there.
past_memory :
    (parse_u64 (codes "12") 2 10 ≡ fault)
    × (parse_u64 [] 0 10 ≡ fault)
    × (parse_u64 (codes "1x") 2 10 ≡ ret none)
unfolding parse_u64
past_memory = (refl, refl, refl)

parse_i64_lem_example :
    (parse_i64 (codes "-5 ") 2 10 ≡ (skip_dashes (codes "-5 ") 2 >>= λ r. parse_u64 r.0 r.1 10))
    × (parse_i64 (codes "--5 ") 3 10 ≡ parse_i64 (codes "-5 ") 2 10)
parse_i64_lem_example = parse_i64_lem (codes "-5 ") 2 10
