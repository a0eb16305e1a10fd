-- ===== src/Path/Ext.antt =====
-- pkg/rbase/path.c: `path_ext` finds the extension that path.h describes.
use ckit.Base.{
  ℕ, zero, suc, ◌+◌, ◌-◌, ◌≤◌, ◌<◌, ◌≡◌, refl, ap, sym, ◌⊎◌, append-nil, ◌∙◌, Bytes, [], ◌∷◌, ◌++◌,
  length, length-append, get_or, drop, drop-append, inl, inr, arith,
}
use native.Mathlib.Decide.{ℕ_discrete}
use ckit.Path.{separator, dot, ext_loop, path_ext}
use ckit.Path.Scan.{Lacks, get_or-behind, get_or-Lacks, get_or-front}

-- The loop stops at the last dot behind the last slash.
ext_loop-found :
    (path : Bytes) (i n : ℕ)
    → 0 < i
    → i ≤ n
    → get_or path i 0 ≡ dot
    → ¬ (get_or path (i - 1) 0 ≡ separator)
    → ((j : ℕ) → i < j → j ≤ n → ¬ (get_or path j 0 ≡ separator) × ¬ (get_or path j 0 ≡ dot))
    → ext_loop path n ≡ i
unfolding ext_loop
ext_loop-found path i zero pos h at front behind = absurd (omega arith)
ext_loop-found path i (suc n) pos h at front behind = elim (ℕ_discrete i (suc n)) [
  | yes e ↦
      let here : get_or path (suc n) 0 ≡ dot = ap (λ k. get_or path k 0) (sym e) ∙ at in
      let before : ¬ (get_or path n 0 ≡ separator) =
        λ q. front (ap (λ k. get_or path k 0) (omega arith) ∙ q) in
      ground (arith, e, here, before)
  | no other ↦
      rw (ext_loop-found path i n pos (omega arith) at front (λ j a b. behind j a (omega arith)))
        (ground (arith, behind (suc n) (omega arith) (omega arith)))
]

-- It stops at the last slash when there is no such dot, or at the start of the path.
ext_loop-none :
    (path : Bytes) (s n : ℕ)
    → s ≤ n
    → (s ≡ 0) ⊎ (get_or path s 0 ≡ separator)
    → ((j : ℕ)
        → s < j
        → j ≤ n
        → ¬ (get_or path j 0 ≡ separator)
          × (get_or path j 0 ≡ dot → get_or path (j - 1) 0 ≡ separator))
    → ext_loop path n ≡ length path
unfolding ext_loop
ext_loop-none path s zero h stop behind = refl
ext_loop-none path s (suc n) h stop behind = elim (ℕ_discrete s (suc n)) [
  | yes e ↦
      let here : get_or path (suc n) 0 ≡ separator = elim stop [
        | inl z ↦ absurd (omega arith)
        | inr q ↦ ap (λ k. get_or path k 0) (sym e) ∙ q
      ] in
      ground (arith, here)
  | no other ↦
      let rest = ext_loop-none path s n (omega arith) stop (λ j a b. behind j a (omega arith)) in
      let (plain, dotted) = behind (suc n) (omega arith) (omega arith) in
      elim (ℕ_discrete (get_or path (suc n) 0) dot) [
        | yes d ↦
            let before : get_or path n 0 ≡ separator =
              ap (λ k. get_or path k 0) (omega arith) ∙ dotted d in
            ground (arith, plain, d, before, rest)
        | no d ↦ ground (arith, plain, d, rest)
      ]
]

-- The extension of a path, as path.h describes it: the suffix from the last dot of the last element,
-- or nothing if the element has no dot or only one at its start.
pub data Extension : Bytes → Bytes → Type 0 where
  found :
      (stem ext : Bytes)
      → 0 < length stem
      → ¬ (get_or stem (length stem - 1) 0 ≡ separator)
      → Lacks separator ext
      → Lacks dot ext
      → Extension (stem ++ dot ∷ ext) (dot ∷ ext)
  alone : (base : Bytes) → Lacks separator base → Lacks dot (drop 1 base) → Extension base []
  under :
      (dir base : Bytes)
      → Lacks separator base
      → Lacks dot (drop 1 base)
      → Extension (dir ++ separator ∷ base) []

drop-length : (xs : Bytes) → drop (length xs) xs ≡ []
drop-length [] = refl
drop-length (x ∷ xs) = drop-length xs

get_or-Lacks_all : (c : ℕ) (xs : Bytes) (k : ℕ) → Lacks c xs → k < length xs → ¬ (get_or xs k 0 ≡ c)
get_or-Lacks_all c xs k l h e =
    get_or-Lacks c xs [] k l h (ap (λ w. get_or w k 0) (append-nil xs) ∙ e)

get_or-tail :
    (c : ℕ) (base : Bytes) (k : ℕ)
    → Lacks c (drop 1 base)
    → suc k < length base
    → ¬ (get_or base (suc k) 0 ≡ c)
get_or-tail c [] k l h = absurd (omega arith)
get_or-tail c (x ∷ xs) k l h = get_or-Lacks_all c xs k l (omega arith)

ext_loop-under :
    (dir base : Bytes)
    → Lacks separator base
    → Lacks dot (drop 1 base)
    → ext_loop (dir ++ separator ∷ base) (length dir + length base)
      ≡ length (dir ++ separator ∷ base)
ext_loop-under dir base plain bare =
    let path = dir ++ separator ∷ base in
    let back = get_or-behind dir (separator ∷ base) in
    let here : length dir ≡ length dir + 0 = omega arith in
    let at : get_or path (length dir) 0 ≡ separator = ap (λ k. get_or path k 0) here ∙ back 0 in
    ext_loop-none path (length dir) (length dir + length base) (omega arith) (inr at) (λ j low high.
      let k = j - length dir - 1 in
      let index : length dir + suc k ≡ j = omega arith in
      let same : get_or base k 0 ≡ get_or path j 0 =
        sym (back (suc k)) ∙ ap (λ i. get_or path i 0) index in
      (
        λ e. get_or-Lacks_all separator base k plain (omega arith) (same ∙ e),
        λ e. elim (ℕ_discrete k 0) [
          | yes z ↦ ap (λ i. get_or path i 0) (omega arith) ∙ at
          | no more ↦
              let next : suc (k - 1) ≡ k = omega arith in
              absurd (
                get_or-tail dot base (k - 1) bare (omega arith)
                  (ap (λ i. get_or base i 0) next ∙ same ∙ e))
        ],
      ))

ext_loop-dot :
    (stem ext : Bytes)
    → 0 < length stem
    → ¬ (get_or stem (length stem - 1) 0 ≡ separator)
    → Lacks separator ext
    → Lacks dot ext
    → ext_loop (stem ++ dot ∷ ext) (length stem + length ext) ≡ length stem
ext_loop-dot stem ext more front plain bare =
    let path = stem ++ dot ∷ ext in
    let back = get_or-behind stem (dot ∷ ext) in
    let here : length stem ≡ length stem + 0 = omega arith in
    ext_loop-found path (length stem) (length stem + length ext) more (omega arith)
      (ap (λ k. get_or path k 0) here ∙ back 0)
      (λ e. front (sym (get_or-front stem (dot ∷ ext) (length stem - 1) (omega arith)) ∙ e))
      (λ j low high.
        let k = j - length stem - 1 in
        let index : length stem + suc k ≡ j = omega arith in
        let same : get_or ext k 0 ≡ get_or path j 0 =
          sym (back (suc k)) ∙ ap (λ i. get_or path i 0) index in
        (
          λ e. get_or-Lacks_all separator ext k plain (omega arith) (same ∙ e),
          λ e. get_or-Lacks_all dot ext k bare (omega arith) (same ∙ e),
        ))

ext_loop-alone :
    (base : Bytes)
    → Lacks separator base
    → Lacks dot (drop 1 base)
    → ext_loop base (length base - 1) ≡ length base
unfolding ext_loop
ext_loop-alone [] plain bare = refl
ext_loop-alone (x ∷ xs) plain bare =
    ext_loop-none (x ∷ xs) 0 (length (x ∷ xs) - 1) (omega arith) (inl refl) (λ j low high. (
      get_or-Lacks_all separator (x ∷ xs) j plain (omega arith),
      λ e.
          let next : suc (j - 1) ≡ j = omega arith in
          absurd (
            get_or-tail dot (x ∷ xs) (j - 1) bare (omega arith)
              (ap (λ i. get_or (x ∷ xs) i 0) next ∙ e)),
    ))

path_ext-at :
    (path : Bytes) (n i : ℕ)
    → length path - 1 ≡ n
    → ext_loop path n ≡ i
    → path_ext path ≡ drop i path
unfolding path_ext
path_ext-at path n i last at = ap (λ k. drop (ext_loop path k) path) last ∙ ap (λ k. drop k path) at

-- `path_ext` answers with the extension of the path as path.h describes it: the suffix from the last dot
-- of the last element, or nothing if the element has no dot or only one at its start.
pub path_ext_lem : (path ext : Bytes) → Extension path ext → path_ext path ≡ ext
path_ext_lem path ext (found stem e more front plain bare) =
    path_ext-at (stem ++ dot ∷ e) (length stem + length e) (length stem)
      (omega (arith, length-append stem (dot ∷ e))) (ext_loop-dot stem e more front plain bare)
    ∙ drop-append stem (dot ∷ e) (length stem) refl
path_ext_lem path ext (alone base plain bare) =
    path_ext-at base (length base - 1) (length base) refl (ext_loop-alone base plain bare)
    ∙ drop-length base
path_ext_lem path ext (under dir base plain bare) =
    path_ext-at (dir ++ separator ∷ base) (length dir + length base)
      (length (dir ++ separator ∷ base)) (omega (arith, length-append dir (separator ∷ base)))
      (ext_loop-under dir base plain bare)
    ∙ drop-length (dir ++ separator ∷ base)
