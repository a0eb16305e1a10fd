-- ===== src/Path/Tests.antt =====
-- Paths by evaluation, and the theorems at inputs that meet their hypotheses.
use ckit.Base.{◌≡◌, refl, [], ◌∷◌, ◌++◌, codes, replicate, length-replicate, ret, arith}
use ckit.Str.{Str, Malloc}
use ckit.Str.Holds.{Holds}
use ckit.Path.{separator, path_ext, ext_loop, path_base_append, path_cwdrel}
use ckit.Path.Scan.{Lacks}
use ckit.Path.Parts.{under, path_base_append_lem}
use ckit.Path.Ext.{found, path_ext_lem}
use ckit.Path.Cwd.{path_cwdrel_lem}

abbrev zeros : Malloc
zeros = record { bytes = λ n. replicate n 0; length-bytes = λ n. length-replicate n 0 }

abbrev three : Str
three = record { len = 3; cap = 7; p = codes "abc" ++ 0 ∷ replicate 4 0 }

three-Holds : Holds three (codes "abc")
three-Holds = record {
  rest = replicate 4 0;
  split = refl;
  count = refl;
  storage = refl;
  small = omega arith;
}

ext_test : path_ext (codes "/foo/bar/cat.xyz") ≡ codes ".xyz"
unfolding path_ext ext_loop
ext_test = refl

dotfile_test : path_ext (codes "/foo/bar/.xyz") ≡ []
unfolding path_ext ext_loop
dotfile_test = refl

bar-Lacks : Lacks separator (codes "bar")
bar-Lacks = (ground arith, (ground arith, (ground arith, tt)))

path_base_append_lem_example :
    (s : Str) × (path_base_append zeros three (codes "foo/bar//") ≡ ret s)
    × Holds s (codes "abcbar")
path_base_append_lem_example =
    path_base_append_lem zeros three (codes "abc") (codes "foo/bar//") (codes "bar") three-Holds
      (under (codes "foo") (codes "bar") 2 bar-Lacks (omega arith)) (omega arith)

path_ext_lem_example : path_ext (codes "/b.tar.gz") ≡ codes ".gz"
path_ext_lem_example = path_ext_lem (codes "/b.tar.gz") (codes ".gz") (
    found (codes "/b.tar") (codes "gz") (omega arith) (ground arith)
      (ground arith, (ground arith, tt)) (ground arith, (ground arith, tt)))

-- The directory /foobar is no part of /foo.
path_cwdrel_lem_example : path_cwdrel (codes "/foo") (codes "/foobar") ≡ codes "ar"
path_cwdrel_lem_example = path_cwdrel_lem (codes "foo") 98 (codes "ar")
