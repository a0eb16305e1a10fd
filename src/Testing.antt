-- ===== src/Testing.antt =====
-- pkg/rbase/testing.c and testing.h: the list of tests, and the program that runs them.
-- A test is its address. What the function of a test does is not part of the sources: it is a parameter,
-- which gets the test's `failed`, gives it back, and changes what is outside, a `W`. What is printed, and
-- the clock, are left out. The strings are C strings, without their zeros.
pub mod Registered
pub mod Main
mod Tests
use ckit.Base.{
  ℕ, zero, suc, ◌+◌, Bool, true, false, ◌&&◌, not, Option, none, some, List, [], ◌∷◌, Bytes, length,
  leb, ltb, ◌==◌, if◌then◌else◌, Outcome, ret, fault, ◌>>=◌, ◌>>◌, assert,
}
use ckit.Base.Links.{update}
use ckit.Path.{path_cwdrel}
use ckit.Str.Compare.{same_bytes}

-- `testlist_head` and `testlist_tail`, and the fields of every `Testing`. `tail` is read only behind the
-- first test.
pub record TestList : Type 0 where
  pub head : Option ℕ
  pub tail : ℕ
  pub name : ℕ → Bytes
  pub file : ℕ → Bytes
  pub failed : ℕ → Bool
  pub next : ℕ → Option ℕ

-- `testing_add_test`, in the working directory `cwd`.
pub testing_add_test : Bytes → TestList → ℕ → TestList
testing_add_test cwd s t = record s {
  file = update s.file t (path_cwdrel cwd (s.file t));
  head = elim s.head [ none ↦ some t | some first ↦ some first ];
  next = elim s.head [ none ↦ s.next | some first ↦ update s.next s.tail (some t) ];
  tail = t;
}

-- `should_run_test`
pub should_run_test : Bytes → Option Bytes → Bool
should_run_test name none = true
should_run_test name (some prefix) =
    leb (length prefix) (length name) && same_bytes (length prefix) prefix name

-- `filter_prefix` of `testing_main`: the first argument if there is one that is not empty, or else the
-- variable R_TEST_FILTER of the environment.
pub filter_prefix : Option Bytes → List Bytes → Option Bytes
filter_prefix env (progname ∷ arg ∷ args) = if ltb 0 (length arg) then some arg else env
filter_prefix env _ = env

-- Whether a pointer is not NULL.
abbrev pub is_given : Option Bytes → Bool
is_given none = false
is_given (some p) = true

module _ {W : Type 0} (fn : ℕ → Bool → W → Bool × W) where
  -- The loop of `testing_main` over the tests from a link on. Fuel for its turns. The answer is the list,
  -- what is outside, `runcount` and `failcount`.
  pub run_tests :
      ℕ → TestList → Option Bytes → Option ℕ → W → ℕ → ℕ → Outcome (TestList × W × ℕ × ℕ)
  run_tests zero s prefix link w runcount failcount = fault
  run_tests (suc fuel) s prefix none w runcount failcount = ret (s, w, runcount, failcount)
  run_tests (suc fuel) s prefix (some t) w runcount failcount =
      let (failed, w1) = fn t (s.failed t) w in
      let s1 = record s { failed = update s.failed t failed } in
      let ran =
        run_tests fuel s1 prefix (s1.next t) w1 (runcount + 1)
          (if failed then failcount + 1 else failcount) in
      let skipped = run_tests fuel s prefix (s.next t) w runcount failcount in
      if should_run_test (s.name t) prefix then ran else skipped

  -- `testing_main`. Behind a run it gives `argv[0]` to `path_base_append`, which reads through it: without
  -- arguments it is the null pointer. What `path_base_append` makes of it is only printed.
  pub testing_main : ℕ → TestList → Option Bytes → List Bytes → W → Outcome (ℕ × TestList × W)
  testing_main fuel s env argv w =
      let prefix = filter_prefix env argv in
      elim s.head [
        | none ↦ ret (0, s, w)
        | some first ↦ run_tests fuel s prefix (some first) w 0 0 >>= λ r.
            if r.2 == 0 then (assert (is_given prefix) >> ret (0, r.0, r.1)) else elim argv [
              | [] ↦ fault
              | progname ∷ args ↦ ret (if ltb 0 r.3 then 1 else 0, r.0, r.1)
            ]
      ]
