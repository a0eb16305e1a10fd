-- ===== src/Path/Parts.antt =====
-- pkg/rbase/path.c: joining paths, the directory of a path and its last element.
use ckit.Base.{
  ℕ, suc, ◌+◌, ◌-◌, ◌^◌, ◌<◌, ◌≡◌, inl, inr, refl, sym, subst, ap, ◌∙◌, none, some, Bytes, [], ◌∷◌,
  ◌++◌, length, length-append, get_or, take, drop, take_all, take-append, drop-append, append_assoc,
  append-nil, replicate, length-replicate, ret, arith,
}
use ckit.Base.Words.{u32}
use ckit.Str.{Str, Malloc, cpy, append}
use ckit.Str.Holds.{Holds}
use ckit.Str.Append.{append_lem, appendc_lem, cpy_lem, new_lem}
use ckit.Path.{
  separator, dot, cut, last_slash, strip, path_join, path_dir, append_base, path_base_append,
}
use ckit.Path.Scan.{
  Lacks, get_or-behind, get_or-Lacks, last_slash-none, strip-to, last_slash-split, get_or-replicate,
}

cut-all : (s : Bytes) → length s < 2 ^ 32 → cut s ≡ s
cut-all s h = take_all (u32 (length s)) s (omega arith)

module _ (m : Malloc) where
  -- `path_join` returns a well-formed string of the first path, a separator and the second path, if
  -- the paths are together shorter than 2 ^ 32 - 16 bytes.
  pub path_join_lem :
      (path1 path2 : Bytes)
      → length path1 + length path2 + 16 < 2 ^ 32
      → (s : Str) × (path_join m path1 path2 ≡ ret s) × Holds s (path1 ++ separator ∷ path2)
  unfolding path_join
  path_join_lem path1 path2 fits =
      let (s0, e0, h0, _) = new_lem m (u32 (length path1 + length path2 + 1)) (omega arith) in
      let (s1, e1, h1) = append_lem m s0 [] h0 path1 (omega (arith, h0.count)) in
      let (s2, e2, h2) = appendc_lem m s1 path1 h1 separator (omega (arith, h1.count)) in
      let (s3, e3, h3) =
        append_lem m s2 (path1 ++ separator ∷ []) h2 path2
          (omega (arith, h2.count, length-append path1 (separator ∷ []))) in
      (
        s3,
        rw (cut-all path1 (omega arith), cut-all path2 (omega arith), e0, e1, e2) e3,
        subst (λ w. Holds s3 w) (append_assoc path1 (separator ∷ []) path2) h3,
      )

  path_dir-found :
      (filename : Bytes) {p : ℕ}
      → last_slash filename (length filename) ≡ some p
      → path_dir m filename ≡ cpy m (take (u32 p) filename)
  unfolding path_dir
  path_dir-found filename at = rw (path_dir, at) refl

  -- `path_dir` of a path shorter than 2 ^ 32 - 16 bytes returns a well-formed string: what stands in
  -- front of its last slash.
  pub path_dir_lem :
      (dir base : Bytes)
      → Lacks separator base
      → length dir + length base + 16 < 2 ^ 32
      → (s : Str) × (path_dir m (dir ++ separator ∷ base) ≡ ret s) × Holds s dir
  path_dir_lem dir base plain fits =
      let path = dir ++ separator ∷ base in
      let (s, e, h) = cpy_lem m dir (omega arith) in
      let size : length path ≡ length dir + 1 + length base =
        omega (arith, length-append dir (separator ∷ base)) in
      let at : last_slash path (length path) ≡ some (length dir) =
        ap (λ n. last_slash path n) size
        ∙ ap (λ w. last_slash (dir ++ (separator ∷ w)) (length dir + 1 + length base))
            (sym (append-nil base))
        ∙ last_slash-split dir base [] plain in
      let front : take (u32 (length dir)) path ≡ dir =
        take-append dir (separator ∷ base) (u32 (length dir)) (omega arith) in
      (s, path_dir-found path at ∙ ap (cpy m) front ∙ e, h)

-- The last element of a path, as path.h describes it.
pub data Element : Bytes → Bytes → Type 0 where
  empty : Element [] (dot ∷ [])
  slashes : (n : ℕ) → Element (replicate (suc n) separator) (separator ∷ [])
  alone :
      (b : Bytes) (n : ℕ)
      → Lacks separator b
      → 0 < length b
      → Element (b ++ replicate n separator) b
  under :
      (dir b : Bytes) (n : ℕ)
      → Lacks separator b
      → 0 < length b
      → Element (dir ++ (separator ∷ (b ++ replicate n separator))) b

module _ (m : Malloc) (s : Str) (path : Bytes) where
  append_base-part :
      (start len : ℕ) (b : Bytes)
      → 0 < len
      → take (u32 len) (drop start path) ≡ b
      → append_base m s path start len ≡ append m s b
  unfolding append_base
  append_base-part start len b more e = rw (e) (ground (arith, more))

  base-alone :
      (len : ℕ)
      → 0 < length path
      → strip path (length path) ≡ len
      → last_slash path len ≡ none
      → path_base_append m s path ≡ append_base m s path 0 len
  unfolding path_base_append
  base-alone len more e none_found = rw (e, none_found) (ground (arith, more))

  base-under :
      (len i : ℕ)
      → 0 < length path
      → strip path (length path) ≡ len
      → last_slash path len ≡ some i
      → path_base_append m s path ≡ append_base m s path (i + 1) (len - (i + 1))
  unfolding path_base_append
  base-under len i more e found = rw (e, found) (ground (arith, more))

-- `path_base_append` appends the last element of the path to a well-formed string: what stands behind
-- the last slash when trailing slashes are left out, one slash if there is nothing else, and a dot for
-- the empty path. The string and the path are together shorter than 2 ^ 32 - 16 bytes.
pub path_base_append_lem :
    (m : Malloc) (s : Str) (xs path b : Bytes)
    → Holds s xs
    → Element path b
    → s.len + length path + 16 < 2 ^ 32
    → (s' : Str) × (path_base_append m s path ≡ ret s') × Holds s' (xs ++ b)
unfolding path_base_append append_base
path_base_append_lem m s xs path b h empty fits = appendc_lem m s xs h dot (omega arith)
path_base_append_lem m s xs path b h (slashes n) fits =
    let all = replicate (suc n) separator in
    let none_left : strip all (length all) ≡ 0 =
      strip-to all 0 (length all) (omega arith) (inl refl) (λ j _ less.
        get_or-replicate separator (suc n) j (omega (arith, length-replicate (suc n) separator))) in
    let (s', e, h') = appendc_lem m s xs h separator (omega arith) in
    (
      s',
      base-alone m s all 0 (omega arith) none_left
            (last_slash-none all 0 (λ j a. absurd (omega arith)))
          ∙ e,
      h',
    )
path_base_append_lem m s xs path b h (alone _ n plain more) fits =
    let tail = replicate n separator in
    let whole = b ++ tail in
    let size : length whole ≡ length b + length tail = length-append b tail in
    let left : strip whole (length whole) ≡ length b =
      strip-to whole (length b) (length whole) (omega arith)
        (inr (get_or-Lacks separator b tail (length b - 1) plain (omega arith)))
        (λ j low less.
          let k = j - length b in
          let index : j ≡ length b + k = omega arith in
          ap (λ i. get_or whole i 0) index
          ∙ get_or-behind b tail k
          ∙ get_or-replicate separator n k (omega (arith, length-replicate n separator))) in
    let (s', e, h') = append_lem m s xs h b (omega arith) in
    (
      s',
      base-alone m s whole (length b) (omega arith) left
            (last_slash-none whole (length b) (λ j a. get_or-Lacks separator b tail j plain a))
          ∙ append_base-part m s whole 0 (length b) b more
              (take-append b tail (u32 (length b)) (omega arith))
          ∙ e,
      h',
    )
path_base_append_lem m s xs path b h (under dir _ n plain more) fits =
    let tail = replicate n separator in
    let back = separator ∷ (b ++ tail) in
    let whole = dir ++ back in
    let end = length dir + 1 + length b in
    let size : length whole ≡ end + length tail =
      omega (arith, length-append dir back, length-append b tail) in
    let left : strip whole (length whole) ≡ end =
      strip-to whole end (length whole) (omega arith)
        (inr (λ at.
          let index : length dir + suc (length b - 1) ≡ end - 1 = omega arith in
          get_or-Lacks separator b tail (length b - 1) plain (omega arith) (
            sym (get_or-behind dir back (suc (length b - 1)))
            ∙ ap (λ i. get_or whole i 0) index
            ∙ at)))
        (λ j low less.
          let k = j - end in
          let index : j ≡ length dir + suc (length b + k) = omega arith in
          ap (λ i. get_or whole i 0) index
          ∙ get_or-behind dir back (suc (length b + k))
          ∙ get_or-behind b tail k
          ∙ get_or-replicate separator n k (omega (arith, length-replicate n separator))) in
    let behind : drop (length dir + 1) whole ≡ b ++ tail =
      ap (drop (length dir + 1)) (sym (append_assoc dir (separator ∷ []) (b ++ tail)))
      ∙ drop-append (dir ++ separator ∷ []) (b ++ tail) (length dir + 1)
          (omega (arith, length-append dir (separator ∷ []))) in
    let len = end - (length dir + 1) in
    let part : take (u32 len) (drop (length dir + 1) whole) ≡ b =
      ap (take (u32 len)) behind ∙ take-append b tail (u32 len) (omega arith) in
    let (s', e, h') = append_lem m s xs h b (omega arith) in
    (
      s',
      base-under m s whole end (length dir) (omega arith) left (last_slash-split dir b tail plain)
          ∙ append_base-part m s whole (length dir + 1) len b (omega arith) part
          ∙ e,
      h',
    )
