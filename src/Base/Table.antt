-- ===== src/Base/Table.antt =====
-- Facts about all values below a bound, by evaluation.
use Prim.Native.Nat.{ℕ, zero, suc, ◌+◌, ◌≤◌, ◌<◌}
use mathlib.Core.Path.{◌≡◌}
use mathlib.Core.Bool.{Bool, true, ◌&&◌}
use native.Mathlib.Omega.{arith}
use native.Mathlib.Decide.{ℕ_discrete}

-- the test holds of the `rounds` values from `i` on
abbrev table : (rounds i : ℕ) → (ℕ → Bool) → Bool
table zero i test = true
table (suc rounds) i test = test i && table rounds (i + 1) test

unfoldable pub all_below : ℕ → (ℕ → Bool) → Bool
all_below bound test = table bound 0 test

table_entry :
    (rounds i : ℕ) (test : ℕ → Bool) (entry : ℕ)
    → i ≤ entry
    → entry < i + rounds
    → table rounds i test ≡ true
    → test entry ≡ true
table_entry zero i test entry lo hi passed = absurd (omega arith)
table_entry (suc rounds) i test entry lo hi passed = elim (ℕ_discrete i entry) [
  | yes here ↦ (let first : test i ≡ true = ground (arith, passed) in rw here at first)
  | no later ↦
      table_entry rounds (i + 1) test entry (omega (arith, later)) (omega arith)
        (ground (arith, passed))
]

-- A test that holds of all values below the bound holds of each.
pub all_below_sound :
    (bound : ℕ) (test : ℕ → Bool) (entry : ℕ)
    → all_below bound test ≡ true
    → entry < bound
    → test entry ≡ true
unfolding all_below
all_below_sound bound test entry passed small =
    table_entry bound 0 test entry (omega arith) (omega arith) passed
