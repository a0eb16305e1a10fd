-- ===== src/Testing/Tests.antt =====
-- A run of three tests, and the theorem at it.
use ckit.Base.{
  ℕ, ◌≡◌, refl, Bool, false, Option, none, some, List, [], ◌∷◌, codes, ◌==◌, if◌then◌else◌, Outcome,
  ret, panic, fault,
}
use ckit.Testing.{
  TestList, testing_add_test, should_run_test, filter_prefix, run_tests, testing_main,
}
use ckit.Testing.Registered.{add_all}
use ckit.Testing.Main.{Main}
use ckit.Str.Compare.{same_bytes}

-- The tests 1, 2 and 3.
abbrev before : TestList
before = record {
  head = none;
  tail = 0;
  name = λ t. if t == 1 then codes "str" else if t == 2 then codes "strparse" else codes "chan";
  file = λ t. codes "a.c";
  failed = λ t. false;
  next = λ t. none;
}

-- The second one fails. What is outside is the list of those that ran, the last one first.
abbrev fn : ℕ → Bool → List ℕ → Bool × List ℕ
fn t failed ran = (t == 2, t ∷ ran)

abbrev three : List ℕ
three = 1 ∷ 2 ∷ 3 ∷ []

abbrev answer : Outcome (ℕ × TestList × List ℕ) → Option (ℕ × List ℕ)
answer (ret (status, s, ran)) = some (status, ran)
answer panic = none
answer fault = none

prefix_test :
    answer
      (testing_main fn 9 (add_all (codes "/") before three) none (codes "t" ∷ codes "str" ∷ []) [])
    ≡ some (1, 2 ∷ 1 ∷ [])
unfolding testing_main run_tests add_all testing_add_test should_run_test filter_prefix same_bytes
prefix_test = refl

-- The argument goes before the environment.
environment_test :
    answer (
      testing_main fn 9
        (add_all (codes "/") before three)
        (some (codes "str"))
        (codes "t" ∷ codes "c" ∷ [])
        [])
    ≡ some (0, 3 ∷ [])
unfolding testing_main run_tests add_all testing_add_test should_run_test filter_prefix same_bytes
environment_test = refl

-- Without `argv[0]`, tests run but do not come to an end.
no_arguments_test : testing_main fn 9 (add_all (codes "/") before three) none [] [] ≡ fault
unfolding testing_main run_tests add_all testing_add_test should_run_test filter_prefix same_bytes
no_arguments_test = refl
