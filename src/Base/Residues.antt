-- ===== src/Base/Residues.antt =====
-- The residues of a number.
use Prim.Native.Nat.{ℕ, ◌+◌, ◌-◌, ◌*◌, ◌/◌, ◌%◌, ◌<◌}
use mathlib.Core.Path.{◌≡◌, ap, ◌∙◌}
use native.Mathlib.Nat.{mod-eq_of_lt, mod-lt, mod-add-mod, mod-add-div', add-mul-mod_self_right}
use native.Mathlib.Omega.{arith}

-- Every slot is reached from any start within one round.
pub reach_slot : {n : ℕ} (j start : ℕ) → j < n → (r : ℕ) × (r < n) × ((r + start) % n ≡ j)
reach_slot {n} j start h = ((j + n - start % n) % n, mod-lt _ (omega arith), back)
  where
    rounds : j + n - start % n + start ≡ j + (1 + start / n) * n
    rounds = omega (arith, mod-add-div' start n, mod-lt start {m = n} (omega arith))

    back : ((j + n - start % n) % n + start) % n ≡ j
    back =
        mod-add-mod (j + n - start % n) n start
        ∙ ap (λ x. x % n) rounds
        ∙ add-mul-mod_self_right j (1 + start / n) n
        ∙ mod-eq_of_lt h
