-- ===== src/Unicode/Tests.antt =====
-- Tests of `utf8decode` of pkg/rbase/unicode.c.
use ckit.Base.{◌≡◌, refl, [], ◌∷◌, ret, fault, arith}
use ckit.Unicode.{utf8decode, rune_err}
use ckit.Unicode.Roundtrip.{utf8, utf8decode-utf8}

-- The euro sign, and a text that is cut off behind two of its three bytes.
euro : utf8decode (0xE2 ∷ 0x82 ∷ 0xAC ∷ []) 3 ≡ ret (0x20AC, 3)
unfolding utf8decode
euro = refl

cut_off : utf8decode (0xE2 ∷ 0x82 ∷ []) 2 ≡ ret (rune_err, 3)
unfolding utf8decode
cut_off = refl

-- Nothing to read: the first byte is read before the length is looked at.
nothing : utf8decode [] 0 ≡ fault
unfolding utf8decode
nothing = refl

-- Continuation bytes are not checked: a letter stands for one.
letter : utf8decode (0xC2 ∷ 0x41 ∷ []) 2 ≡ ret (0x81, 2)
unfolding utf8decode
letter = refl

-- U+1F600 with a letter behind it.
utf8decode-utf8_example : utf8decode (0xF0 ∷ 0x9F ∷ 0x98 ∷ 0x80 ∷ 0x41 ∷ []) 5 ≡ ret (0x1F600, 4)
unfolding utf8
utf8decode-utf8_example = utf8decode-utf8 0x1F600 (0x41 ∷ []) (omega arith)
