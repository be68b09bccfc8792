-- ===== src/Base/Ranges.antt =====
-- Statements over a small range of numbers, checked by evaluation.
use Prim.Native.Nat.{ℕ, zero, suc, ◌<◌}
use mathlib.Core.Path.{◌≡◌}
use mathlib.Core.Bool.{Bool, true, false}
use native.Mathlib.Omega.{arith}
use libks.Base.Tests.{if◌then◌else◌}

-- The test passes at every number under the bound.
unfoldable pub passes_under : (ℕ → Bool) → ℕ → Bool
passes_under test zero = true
passes_under test (suc k) = if test k then passes_under test k else false

pub passes_under_at :
    (test : ℕ → Bool) (k i : ℕ) → i < k → passes_under test k ≡ true → test i ≡ true
unfolding passes_under
passes_under_at test zero i under h = absurd (omega arith)
passes_under_at test (suc k) i under h = ground (arith, passes_under_at test k i)
