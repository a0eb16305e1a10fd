-- ===== src/Hash/Tests.antt =====
-- Hashes by evaluation, against the published values.
use ckit.Base.{◌≡◌, refl, codes}
use ckit.Hash.{fnv1a32_loop, hash_fnv1a32, fnv1a64_loop, hash_fnv1a64}

hash32_test : hash_fnv1a32 (codes "foobar") ≡ 0xBF9CF968
unfolding hash_fnv1a32 fnv1a32_loop
hash32_test = refl

hash64_test : hash_fnv1a64 (codes "foobar") ≡ 0x85944171F73967E8
unfolding hash_fnv1a64 fnv1a64_loop
hash64_test = refl
