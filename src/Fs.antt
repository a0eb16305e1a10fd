-- ===== src/Fs.antt =====
-- pkg/rbase/fs.c: `fs_mkdirs`, which makes a directory and those above it.
-- `stat`, `mkdir` and the C library's `dirname` are not part of the sources: they are the parameter
-- `FileSystem`, over what is outside, a `W`. A `char*` is the bytes of its block from there on, and the
-- string is what stands in front of the zero: a read past the block, or of a block that has been freed, is
-- not defined. The allocator has a block for each string.
mod Tests
use ckit.Base.{
  ℕ, zero, suc, ◌≡◌, ◌≢◌, ◌⊎◌, inl, inr, refl, Bool, true, false, Option, none, some, [], ◌∷◌, ◌++◌,
  Bytes, length, take, ◌==◌, if◌then◌else◌, Outcome, ret, fault, ◌>>=◌, arith, ap, ◌∙◌, take_all,
  ◌≤◌, Option-cases,
}

-- How a call of `mkdir` ends: with 0, or with -1 and ENOENT, or with -1 and something else in `errno`.
pub data Made : Type 0 where
  made : Made
  no_parent : Made
  refused : Made

-- `stat` answers whether the file is a directory, or with none. `dirname` may change its argument, and
-- answers with a pointer into it or elsewhere.
pub record FileSystem (W : Type 0) : Type 0 where
  pub stat : Bytes → W → Option Bool
  pub mkdir : Bytes → W → Made × W
  pub dirname : Bytes → Bytes × Bytes

-- The string at a `char*`.
pub c_string : Bytes → Outcome Bytes
c_string [] = fault
c_string (c ∷ block) =
    let rest = c_string block in if c == 0 then ret [] else (rest >>= λ s. ret (c ∷ s))

-- The string at a pointer to a block that may have been freed.
abbrev live : Option Bytes → Outcome Bytes
live none = fault
live (some block) = c_string block

module _ {W : Type 0} (fs : FileSystem W) where
  mutual
    -- `_mkdirs`. Fuel for its calls and for the turns of its loop.
    pub mkdirs : ℕ → Bytes → Bool → W → Outcome (Bool × W)
    mkdirs zero dir dirismut w = fault
    mkdirs (suc fuel) dir dirismut w = c_string dir >>= λ name. elim (fs.stat name w) [
      | some isdir ↦ ret (isdir, w)
      | none ↦ mkdir_loop fuel (some dir) dirismut false w
    ]

    -- The loop of `_mkdirs`.
    pub mkdir_loop : ℕ → Option Bytes → Bool → Bool → W → Outcome (Bool × W)
    mkdir_loop zero dir dirismut sub w = fault
    mkdir_loop (suc fuel) dir dirismut sub w = live dir >>= λ name.
        let (answer, w1) = fs.mkdir name w in
        elim answer [
          | made ↦ ret (true, w1)
          | refused ↦ ret (sub, w1)
          | no_parent ↦ elim sub [
            | true ↦ ret (true, w1)
            | false ↦ elim dirismut [
              | true ↦ parent_first fuel name true w1
              | false ↦
                  -- `memdup`, of `strlen` bytes
                  c_string (take (length name) name) >>= λ copy. parent_first fuel copy false w1
            ]
          ]
        ]

    -- The end of a turn: the directory above.
    pub parent_first : ℕ → Bytes → Bool → W → Outcome (Bool × W)
    parent_first zero name dirismut w = fault
    parent_first (suc fuel) name dirismut w =
        let (above, changed) = fs.dirname name in
        mkdirs fuel above true w >>= λ r.
        mkdir_loop fuel (if dirismut then some changed else none) dirismut r.0 r.1

  -- `fs_mkdirs`
  pub fs_mkdirs : ℕ → Bytes → W → Outcome (Bool × W)
  fs_mkdirs fuel dir w = mkdirs fuel dir false w

-- A name has no zero in it.
abbrev pub Name : Bytes → Type 0
Name [] = Unit
Name (c ∷ name) = (c ≢ 0) × Name name

c_string-terminated : (name rest : Bytes) → Name name → c_string (name ++ 0 ∷ rest) ≡ ret name
unfolding c_string
c_string-terminated [] rest n = refl
c_string-terminated (c ∷ name) rest (nz, n) = ground (arith, nz, c_string-terminated name rest n)

c_string-unterminated : (name : Bytes) → Name name → c_string name ≡ fault
unfolding c_string
c_string-unterminated [] n = refl
c_string-unterminated (c ∷ name) (nz, n) = ground (arith, nz, c_string-unterminated name n)

-- What `fs_mkdirs` answers for a name.
abbrev pub Answered : {W : Type 0} → FileSystem W → Bytes → W → Outcome (Bool × W) → Type 0
Answered fs name w r =
    ((isdir : Bool) × (fs.stat name w ≡ some isdir) × (r ≡ ret (isdir, w)))
    ⊎ ((fs.stat name w ≡ none)
        × ((((fs.mkdir name w).0 ≡ made) × (r ≡ ret (true, (fs.mkdir name w).1)))
            ⊎ ((((fs.mkdir name w).0 ≡ refused) × (r ≡ ret (false, (fs.mkdir name w).1)))
                ⊎ (((fs.mkdir name w).0 ≡ no_parent) × (r ≡ fault)))))

Made-cases : (a : Made) → (a ≡ made) ⊎ ((a ≡ refused) ⊎ (a ≡ no_parent))
Made-cases made = inl refl
Made-cases refused = inr (inl refl)
Made-cases no_parent = inr (inr refl)

-- `fs_mkdirs` of a file that exists returns whether it is a directory. Of one that does not, it makes the
-- directory, and returns whether that worked; but where the directory above is missing, its behaviour
-- is not defined, as the copy of the name that it hands on has no zero behind it.
pub fs_mkdirs_lem :
    {W : Type 0} (fs : FileSystem W) (fuel : ℕ) (name rest : Bytes) (w : W)
    → 2 ≤ fuel
    → Name name
    → Answered fs name w (fs_mkdirs fs fuel (name ++ 0 ∷ rest) w)
unfolding fs_mkdirs mkdirs mkdir_loop
fs_mkdirs_lem fs zero name rest w enough n = absurd (omega arith)
fs_mkdirs_lem fs (suc zero) name rest w enough n = absurd (omega arith)
fs_mkdirs_lem fs (suc (suc fuel)) name rest w enough n =
    let read = c_string-terminated name rest n in
    let copy : c_string (take (length name) name) ≡ fault =
      ap c_string (take_all (length name) name (omega arith)) ∙ c_string-unterminated name n in
    elim (Option-cases (fs.stat name w)) [
      | inr (isdir, e) ↦ inl (isdir, e, ground (arith, read, e))
      | inl e ↦ elim (Made-cases (fs.mkdir name w).0) [
        | inl m ↦ inr (e, inl (m, ground (arith, read, e, m)))
        | inr (inl m) ↦ inr (e, inr (inl (m, ground (arith, read, e, m))))
        | inr (inr m) ↦ inr (e, inr (inr (m, ground (arith, read, e, m, copy))))
      ]
    ]
