-- ===== src/Path/Cwd.antt =====
-- pkg/rbase/path.c: what `path_cwdrel` takes for a path under the working directory.
use ckit.Base.{
  ℕ, ◌+◌, ◌<◌, ◌≡◌, refl, true, Bytes, [], ◌∷◌, ◌++◌, length, length-append, drop, drop-append,
  append_assoc, arith, sym, ap, ◌∙◌,
}
use ckit.Path.{separator, path_isabs, starts_with, path_cwdrel}

starts_with-append : (cwd rest : Bytes) → starts_with cwd (cwd ++ rest) ≡ true
unfolding starts_with
starts_with-append [] rest = refl
starts_with-append (c ∷ cwd) rest = ground (arith, starts_with-append cwd rest)

-- The path has the working directory in front of it.
cwdrel-prefix :
    (cwd path : Bytes)
    → path_isabs path ≡ true
    → 0 < length cwd
    → length cwd < length path
    → starts_with cwd path ≡ true
    → path_cwdrel cwd path ≡ drop (length cwd + 1) path
unfolding path_cwdrel
cwdrel-prefix cwd path abs some_cwd more prefix = ground (arith, abs, some_cwd, more, prefix)

-- `path_cwdrel` of a path that begins with the bytes of the working directory, which is absolute, drops
-- those and the byte behind them, whatever that byte is.
pub path_cwdrel_lem :
    (dir : Bytes) (c : ℕ) (rest : Bytes)
    → path_cwdrel (separator ∷ dir) (separator ∷ dir ++ c ∷ rest) ≡ rest
unfolding path_isabs
path_cwdrel_lem dir c rest =
    let cwd = separator ∷ dir in
    let path = cwd ++ (c ∷ rest) in
    cwdrel-prefix cwd path (ground arith) (omega arith)
      (omega (arith, length-append cwd (c ∷ rest))) (starts_with-append cwd (c ∷ rest))
    ∙ ap (drop (length cwd + 1)) (sym (append_assoc cwd (c ∷ []) rest))
    ∙ drop-append (cwd ++ c ∷ []) rest (length cwd + 1) (omega (arith, length-append cwd (c ∷ [])))
