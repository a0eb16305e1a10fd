-- ===== src/Sha1/Tests.antt =====
-- The digest of a text by evaluation, and the theorems at inputs that meet their hypotheses.
use ckit.Base.{◌≡◌, refl, ◌∷◌, [], ◌++◌, Bytes, codes, replicate, Outcome, ret, ◌>>=◌, arith}
use ckit.Base.Buffer.{poke}
use ckit.Sha1.Spec.{digest}
use ckit.Sha1.Final.{update_all, sha1_lem}
use ckit.Sha1.{
  words, blk0, blk, mix, round, rounds, sha1_transform, sha1_init, sha1_update, sha1_final, counted,
  keep, take_blocks, update_loop, pad_loop,
}

abbrev digest_of : Bytes → Outcome Bytes
digest_of text = do c ← sha1_update (sha1_init (replicate 64 0)) text; sha1_final c

abc_digest :
    digest_of (codes "abc")
    ≡ ret (
        0xA9 ∷ 0x99 ∷ 0x3E ∷ 0x36 ∷ 0x47 ∷ 0x06 ∷ 0x81 ∷ 0x6A ∷ 0xBA ∷ 0x3E ∷ 0x25 ∷ 0x71 ∷ 0x78
        ∷ 0x50 ∷ 0xC2 ∷ 0x6C ∷ 0x9C ∷ 0xD0 ∷ 0xD8 ∷ 0x9D ∷ [])
unfolding poke words blk0 blk mix round rounds sha1_transform sha1_init sha1_update sha1_final
    counted keep take_blocks update_loop pad_loop
abc_digest = refl

sha1_lem_example :
    (update_all (sha1_init (replicate 64 0)) (replicate 100 1 ∷ codes "abc" ∷ []) >>= sha1_final)
    ≡ ret (digest (replicate 100 1 ++ codes "abc"))
sha1_lem_example =
    sha1_lem (replicate 64 0) (replicate 100 1 ∷ codes "abc" ∷ []) refl
      (omega arith, (omega arith, tt)) (omega arith)
