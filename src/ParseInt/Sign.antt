-- ===== src/ParseInt/Sign.antt =====
-- What `parsei64` does with a sign.
use ckit.Base.{
  ℕ, suc, ◌≡◌, ◌≢◌, refl, [], ◌∷◌, Bytes, arith, false, ret, ◌>>=◌, Outcome, Option, none, some,
  ◌⊎◌, inl, inr, zero, panic, fault, Bool-cases, ◌==◌,
}
use ckit.ParseInt.{
  skip_dashes, starts_with_dash, with_sign, parse_i64, parse_u64, parse_to, parse_loop, finish,
}

-- Where dashes are skipped, what is left is empty, or begins with another byte.
skip_dashes_lem :
    (s : Bytes) (z : ℕ) (ptr : Bytes) (rest : ℕ)
    → skip_dashes s z ≡ ret (ptr, rest)
    → (rest ≡ 0) ⊎ (starts_with_dash ptr ≡ ret false)
unfolding skip_dashes starts_with_dash
skip_dashes_lem s zero ptr rest e = inl (ground (arith, e))
skip_dashes_lem [] (suc z) ptr rest e = ground (arith, e)
skip_dashes_lem (c ∷ s) (suc z) ptr rest e = elim (Bool-cases (c == b'-')) [
  | inl t ↦ skip_dashes_lem s z ptr rest (ground (arith, e, t))
  | inr t ↦ inr (ground (arith, e, t))
]

parse_u64-empty : (s : Bytes) (base v : ℕ) → parse_u64 s 0 base ≢ ret (some v)
unfolding parse_u64 parse_to parse_loop finish
parse_u64-empty [] base v = ground arith
parse_u64-empty (c ∷ s) base v = ground arith

-- No sign is read where there is no number or no dash.
with_sign-plain :
    (ptr : Bytes) (o : Outcome (Option ℕ))
    → ((v : ℕ) → o ≢ ret (some v)) ⊎ (starts_with_dash ptr ≡ ret false)
    → (o >>= λ r. with_sign ptr r) ≡ o
unfolding with_sign
with_sign-plain ptr (ret none) how = refl
with_sign-plain ptr (ret (some v)) (inl no_number) = absurd (no_number v refl)
with_sign-plain ptr (ret (some v)) (inr no_dash) = rw no_dash refl
with_sign-plain ptr panic how = refl
with_sign-plain ptr fault how = refl

sign-skipped :
    (base : ℕ) (o : Outcome (Bytes × ℕ))
    → ((ptr : Bytes) (rest : ℕ)
        → o ≡ ret (ptr, rest)
        → (rest ≡ 0) ⊎ (starts_with_dash ptr ≡ ret false))
    → (o >>= λ r. parse_u64 r.0 r.1 base >>= λ v. with_sign r.0 v)
      ≡ (o >>= λ r. parse_u64 r.0 r.1 base)
sign-skipped base panic how = refl
sign-skipped base fault how = refl
sign-skipped base (ret (ptr, rest)) how =
    with_sign-plain ptr (parse_u64 ptr rest base)
      (elim (how ptr rest refl) [ inl e ↦ inl (rw e (parse_u64-empty ptr base)) | inr e ↦ inr e ])

-- `parsei64` drops every leading dash and never negates: it answers as `parseu64` does on the rest,
-- so a text and its negation are read as the same number.
pub parse_i64_lem :
    (s : Bytes) (z base : ℕ)
    → (parse_i64 s z base ≡ (skip_dashes s z >>= λ r. parse_u64 r.0 r.1 base))
      × (parse_i64 (b'-' ∷ s) (suc z) base ≡ parse_i64 s z base)
unfolding parse_i64 parse_u64 skip_dashes
parse_i64_lem s z base = (sign-skipped base (skip_dashes s z) (skip_dashes_lem s z), refl)
