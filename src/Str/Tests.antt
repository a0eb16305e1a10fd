-- ===== src/Str/Tests.antt =====
-- Strings by evaluation, and the theorems at inputs that meet their hypotheses.
use ckit.Base.{
  ℕ, Option, take, length, ◌-◌, ◌≡◌, refl, [], none, List, ◌∷◌, ◌++◌, Bytes, codes, replicate, ret,
  fault, some, arith, ◌>>=◌,
}
use ckit.Base.Buffer.{poke}
use ckit.Base.Words.{max_u64}
use ckit.ParseInt.{parse_u64}
use ckit.Str.{Str, resize, grown_cap, new, cpy, makeroom, append, put_digits, appendu64, setlen}
use ckit.Str.Holds.{Holds, contents}
use ckit.Str.Examples.{zeros, abc, abc-Holds}
use ckit.Str.Append.{append_lem}
use ckit.Str.Format.{format_loop, appendfmtv, appendfmtv_lem}
use ckit.Hex.Read.{read_hex}
use ckit.Str.Hex.{appendhex, appendhex_lem}
use ckit.Str.Split.{split_all, splitn, scan, join, AllWithout, splitn_lem}
use ckit.Str.Number.{parse_u64-appendu64, appendu64-fault}

cpy-abc : cpy zeros (codes "abc") ≡ ret abc
unfolding cpy new setlen poke
cpy-abc = refl

-- Eight more bytes do not fit: the capacity goes to twice the size, rounded up to eight.
append_grows :
    append zeros abc (codes "defghijk")
    ≡ ret (record { len = 11; cap = 24; p = codes "abcdefghijk" ++ replicate 14 0 })
unfolding append makeroom grown_cap resize setlen poke
append_grows = refl

appendu64_hex : (do s ← appendu64 zeros abc 48879 16; ret (contents s)) ≡ ret (codes "abcBEEF")
unfolding appendu64 put_digits makeroom grown_cap resize setlen poke
appendu64_hex = refl

append_lem_example : (s : Str) × (append zeros abc (codes "de") ≡ ret s) × Holds s (codes "abcde")
append_lem_example = append_lem zeros abc (codes "abc") abc-Holds (codes "de") (omega arith)

parse_u64-appendu64_example :
    (s : Str) × (d : Bytes) × (appendu64 zeros abc max_u64 10 ≡ ret s)
    × Holds s (codes "abc" ++ d)
    × ((c : ℕ) (more : Bytes) → parse_u64 (d ++ c ∷ more) (length d) 10 ≡ ret (some max_u64))
parse_u64-appendu64_example =
    parse_u64-appendu64 zeros abc (codes "abc") max_u64 10 abc-Holds (omega arith) (omega arith)
      (omega arith) (omega arith) (omega arith)

-- 21 binary digits do not fit into `buf[20]`.
appendu64-fault_example : appendu64 zeros abc 1048576 2 ≡ fault
appendu64-fault_example = appendu64-fault zeros abc 1048576 2 (omega arith) (omega arith)

appendhex_lem_example :
    (s : Str) × (text : Bytes) × (appendhex zeros abc (0xBE ∷ 0xEF ∷ []) ≡ ret s)
    × Holds s (codes "abc" ++ text)
    × (read_hex text ≡ some (0xBE ∷ 0xEF ∷ []))
appendhex_lem_example =
    appendhex_lem zeros abc (codes "abc") (0xBE ∷ 0xEF ∷ []) abc-Holds
      (omega arith, (omega arith, tt)) (omega arith)

-- The example of the comment of str.h.
path_parts :
    split_all 20 47 (codes "/hello/foo/bar") (record { p = none; len = 0 })
    ≡ ret ([] ∷ codes "hello" ∷ codes "foo" ∷ codes "bar" ∷ [])
unfolding split_all splitn scan
path_parts = refl

splitn_lem_example :
    (part : Bytes) × (parts : List Bytes) × (split_all 6 58
        (codes "a::b")
        (record { p = none; len = 0 })
      ≡ ret (part ∷ parts))
    × (join 58 part parts ≡ codes "a::b")
    × AllWithout 58 (part ∷ parts)
splitn_lem_example = splitn_lem 58 (codes "a::b")

-- A format of two bytes, as "%s".
abbrev hello : Bytes
hello = codes "hello, world"

abbrev formatted : ℕ → Option ℕ × Bytes
formatted size = (some (length hello), take (size - 1) hello ++ 0 ∷ [])

-- The first turn has no room for it, the second one has.
appendfmtv_test :
    (do s ← appendfmtv zeros formatted abc 2; ret (contents s)) ≡ ret (codes "abchello, world")
unfolding appendfmtv format_loop makeroom grown_cap resize poke
appendfmtv_test = refl

-- When `vsnprintf` answers with -1, the last byte of the string is gone.
error_test :
    (do s ← appendfmtv zeros (λ n. (none, 0 ∷ [])) abc 2; ret (contents s)) ≡ ret (codes "ab")
unfolding appendfmtv format_loop makeroom grown_cap resize poke
error_test = refl

appendfmtv_lem_example :
    (s : Str) × (appendfmtv zeros formatted abc 2 ≡ ret s) × Holds s (codes "abchello, world")
appendfmtv_lem_example =
    appendfmtv_lem zeros formatted abc (codes "abc") hello 2 abc-Holds (λ size h k. refl)
      (omega arith) (omega arith) (omega arith) (omega arith)
