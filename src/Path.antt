-- ===== src/Path.antt =====
-- pkg/rbase/path.c: taking paths apart and joining them, with '/' as `PATH_SEPARATOR`.
-- A C string is its bytes without the zero at its end, and a pointer into it is what it points to.
pub mod Scan
pub mod Parts
pub mod Ext
pub mod Cwd
mod Tests
use ckit.Base.{
  ℕ, zero, suc, ◌+◌, ◌-◌, ◌≡◌, Bool, true, false, not, ◌&&◌, ◌||◌, Option, none, some, Bytes, [],
  ◌∷◌, length, get_or, take, drop, ltb, ◌==◌, if◌then◌else◌, Outcome, ret, ◌>>=◌,
}
use ckit.Base.Words.{u32}
use ckit.Str.{Str, Malloc, new, cpy, append, appendc}

abbrev pub separator : ℕ
separator = 47

abbrev pub dot : ℕ
dot = 46

abbrev pub is_separator : Bytes → ℕ → Bool
is_separator s i = get_or s i 0 == separator

-- The bytes of a path that a length of type `u32` reaches.
abbrev pub cut : Bytes → Bytes
cut s = take (u32 (length s)) s

-- `path_isabs`
pub path_isabs : Bytes → Bool
path_isabs filename = length filename == 0 || is_separator filename 0

-- The loop of `path_ext`, at the index `i`: where the extension begins.
pub ext_loop : Bytes → ℕ → ℕ
ext_loop path zero = length path
ext_loop path (suc i) =
    let rest = ext_loop path i in
    if is_separator path (suc i)
    then length path
    else if get_or path (suc i) 0 == dot && not (is_separator path i)
    then suc i
    else rest

-- `path_ext`
pub path_ext : Bytes → Bytes
path_ext path = drop (ext_loop path (length path - 1)) path

-- `last_slash` of the first bytes, and `strrchr` of all.
pub last_slash : Bytes → ℕ → Option ℕ
last_slash s zero = none
last_slash s (suc i) = let rest = last_slash s i in if is_separator s i then some i else rest

-- The loop of `path_base_append` that strips trailing slashes.
pub strip : Bytes → ℕ → ℕ
strip path zero = zero
strip path (suc len) = let rest = strip path len in if is_separator path len then rest else suc len

module _ (m : Malloc) where
  -- `path_join`
  pub path_join : Bytes → Bytes → Outcome Str
  path_join path1 path2 = do
    s ← new m (u32 (length path1 + length path2 + 1))
    s1 ← append m s (cut path1)
    s2 ← appendc m s1 separator
    append m s2 (cut path2)

  -- `path_dir`
  pub path_dir : Bytes → Outcome Str
  path_dir filename = elim (last_slash filename (length filename)) [
    | none ↦ cpy m (dot ∷ [])
    | some p ↦ cpy m (take (u32 p) filename)
  ]

  -- The end of `path_base_append`, for `len` bytes from `start` on.
  pub append_base : Str → Bytes → ℕ → ℕ → Outcome Str
  append_base s path start len =
      if len == 0 then appendc m s separator else append m s (take (u32 len) (drop start path))

  -- `path_base_append`
  pub path_base_append : Str → Bytes → Outcome Str
  path_base_append s path =
      if length path == 0
      then appendc m s dot
      else let len = strip path (length path) in
        elim (last_slash path len) [
          | none ↦ append_base s path 0 len
          | some i ↦ append_base s path (i + 1) (len - (i + 1))
        ]

  -- `path_base`
  pub path_base : Bytes → Outcome Str
  path_base path = do s ← new m 0; path_base_append s path

-- `memcmp` of `cwd` with the first bytes of a path that is longer.
pub starts_with : Bytes → Bytes → Bool
starts_with [] path = true
starts_with (c ∷ cwd) [] = false
starts_with (c ∷ cwd) (p ∷ path) = c == p && starts_with cwd path

-- `path_cwdrel`, where `cwd` is what `os_getcwd_str` returns.
pub path_cwdrel : Bytes → Bytes → Bytes
path_cwdrel cwd path =
    let prefix = ltb 0 (length cwd) && (ltb (length cwd) (length path) && starts_with cwd path) in
    if not (path_isabs path) then path else if prefix then drop (length cwd + 1) path else path
