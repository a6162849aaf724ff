-- ===== src/Prelude/Loops.antt =====
-- Finite checks by evaluation, for facts about tables.
use Prim.Native.Nat.{ℕ, zero, suc, ◌<◌}
use mathlib.Core.Path.{◌≡◌}
use mathlib.Core.Bool.{Bool, true, ◌&&◌}
use native.Mathlib.Omega.{arith}

-- The test at 0, 1, and on, `n` times.
unfoldable pub all_below : ℕ → (ℕ → Bool) → Bool
all_below zero test = true
all_below (suc n) test = test zero && all_below n (λ i. test (suc i))

-- A check that passes speaks of each number below the bound.
pub all_below_sound :
    (n : ℕ) (test : ℕ → Bool) (i : ℕ) → all_below n test ≡ true → i < n → test i ≡ true
unfolding all_below
all_below_sound zero test i passed small = absurd (omega arith)
all_below_sound (suc n) test zero passed small = ground (arith, passed)
all_below_sound (suc n) test (suc i) passed small =
    all_below_sound n (λ j. test (suc j)) i (ground (arith, passed)) (omega arith)
