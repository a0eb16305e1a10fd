-- ===== src/Str/Examples.antt =====
-- Strings that the tests share.
use ckit.Base.{refl, ◌∷◌, ◌++◌, codes, replicate, length-replicate, arith}
use ckit.Str.{Str, Malloc}
use ckit.Str.Holds.{Holds}

-- An allocator that clears its blocks.
abbrev pub zeros : Malloc
zeros = record { bytes = λ n. replicate n 0; length-bytes = λ n. length-replicate n 0 }

-- "abc" in a block of eight bytes.
abbrev pub abc : Str
abc = record { len = 3; cap = 7; p = codes "abc" ++ 0 ∷ replicate 4 0 }

pub abc-Holds : Holds abc (codes "abc")
abc-Holds = record {
  rest = replicate 4 0;
  split = refl;
  count = refl;
  storage = refl;
  small = omega arith;
}
