-- ===== src/Base/Tables.antt =====
-- A property of all numbers under a bound, decided by evaluation.
use ckit.Base.{ℕ, zero, suc, ◌<◌, ◌≡◌, Bool, true, false, if◌then◌else◌, arith}

module _ (test : ℕ → Bool) where
  unfoldable pub every : ℕ → Bool
  every zero = true
  every (suc k) = if test k then every k else false

  pub test-of-every : (bound i : ℕ) → i < bound → every bound ≡ true → test i ≡ true
  unfolding every
  test-of-every zero i below passed = absurd (omega arith)
  test-of-every (suc k) i below passed = ground (arith, test-of-every k i)
