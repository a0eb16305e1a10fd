-- ===== src/Base/Buffer.antt =====
-- Writes into a buffer of a fixed size: `memcpy`, `memset` and stores through a pointer.
use ckit.Base.{
  ℕ, suc, ◌>>=◌, length-drop, ◌+◌, ◌≤◌, ◌≡◌, refl, ap, ◌∙◌, [], ◌∷◌, ◌++◌, Bytes, length, take,
  drop, leb, if◌then◌else◌, Outcome, ret, fault, arith, take-append, length-append, append_assoc,
}

-- Stores the bytes of `d` from index `i` on; outside of the buffer that is not defined.
unfoldable pub poke : Bytes → ℕ → Bytes → Outcome Bytes
poke p i d =
    if leb (i + length d) (length p) then ret (take i p ++ (d ++ drop (i + length d) p)) else fault

drop-add-append : (a t : Bytes) (i n : ℕ) → i ≡ length a → drop (i + n) (a ++ t) ≡ drop n t
drop-add-append [] t i n h = let e : i + n ≡ n = omega arith in ap (λ k. drop k t) e
drop-add-append (x ∷ a) t i n h =
    let e : i + n ≡ suc (length a + n) = omega arith in
    ap (λ k. drop k (x ∷ (a ++ t))) e ∙ drop-add-append a t (length a) n refl

-- A store right behind `a`.
pub poke_lem :
    (a t d : Bytes) (i : ℕ)
    → i ≡ length a
    → length d ≤ length t
    → poke (a ++ t) i d ≡ ret (a ++ (d ++ drop (length d) t))
unfolding poke
poke_lem a t d i hi hd =
    ground (arith, length-append a t, take-append a t i hi, drop-add-append a t i (length d) hi)

-- A store of bytes behind `a`, and of a zero behind them.
pub poke_terminated :
    (a t d : Bytes) (i j : ℕ)
    → i ≡ length a
    → j ≡ length a + length d
    → length d + 1 ≤ length t
    → (poke (a ++ t) i d >>= λ p. poke p j (0 ∷ []))
      ≡ ret ((a ++ d) ++ 0 ∷ drop 1 (drop (length d) t))
poke_terminated a t d i j hi hj room = cc (
  poke_lem a t d i hi (omega arith),
  append_assoc a d (drop (length d) t),
  poke_lem (a ++ d) (drop (length d) t) (0 ∷ []) j (omega (arith, length-append a d))
      (omega (arith, length-drop (length d) t)),
)
