-- ===== src/Fs/Tests.antt =====
-- Directories by evaluation, and the theorem at a file system that is a list of its directories.
use ckit.Base.{
  ◌≡◌, refl, Bool, true, false, none, some, List, [], ◌∷◌, ◌++◌, Bytes, codes, ret, fault, ◌==◌,
  if◌then◌else◌, arith, ◌&&◌, ◌||◌,
}
use ckit.Fs.{
  made, no_parent, FileSystem, c_string, mkdirs, mkdir_loop, fs_mkdirs, Answered, fs_mkdirs_lem,
}

abbrev same : Bytes → Bytes → Bool
same [] [] = true
same [] (y ∷ b) = false
same (x ∷ a) [] = false
same (x ∷ a) (y ∷ b) = let rest = same a b in x == y && rest

abbrev among : Bytes → List Bytes → Bool
among name [] = false
among name (x ∷ dirs) = let rest = among name dirs in same name x || rest

-- Names of one letter lie in the root, which exists; others lie in "a".
abbrev above : Bytes → Bytes
above [] = codes "/"
above (x ∷ []) = codes "/"
above (x ∷ y ∷ name) = codes "a"

abbrev disk : FileSystem (List Bytes)
disk = record {
  stat = λ name w. if among name w then some true else none;
  mkdir = λ name w. if among (above name) w then (made, name ∷ w) else (no_parent, w);
  dirname = λ name. (above name ++ 0 ∷ [], name);
}

abbrev root : List Bytes
root = codes "/" ∷ []

mkdirs_test : fs_mkdirs disk 9 (codes "a" ++ 0 ∷ []) root ≡ ret (true, codes "a" ∷ root)
unfolding fs_mkdirs mkdirs mkdir_loop c_string
mkdirs_test = refl

-- The directory above is missing.
no_parent_test : fs_mkdirs disk 9 (codes "a/b" ++ 0 ∷ []) root ≡ fault
unfolding fs_mkdirs mkdirs mkdir_loop c_string
no_parent_test = refl

fs_mkdirs_lem_example :
    Answered disk (codes "a/b") root (fs_mkdirs disk 9 (codes "a/b" ++ 0 ∷ []) root)
fs_mkdirs_lem_example =
    fs_mkdirs_lem disk 9 (codes "a/b") [] root (omega arith)
      (ground arith, (ground arith, (ground arith, tt)))
