-- ===== src/Plan/Bounds.antt =====
-- The writes of `make_child_layout` (include/yorch/plan/layout.hpp) stay inside its arrays: `indices`
-- has N - 1 entries.
use yorch.Base.{ℕ, zero, suc, ◌+◌, ◌-◌, ◌<◌, ◌≡◌, ◌∙◌, refl, ltb, if◌then◌else◌, update, arith}
use yorch.Plan.Layout.{count_rounds, offset_rounds, scatter_rounds}
use yorch.Plan.Children.{off, next_at, off_apart, count_le, count_step_self}

-- One more count moves the end of the ranges by one.
off-update :
    (c : ℕ → ℕ) (q n : ℕ)
    → off (update c q (c q + 1)) n ≡ (if ltb q n then off c n + 1 else off c n)
unfolding offset_rounds
off-update c q zero = ground arith
off-update c q (suc n) = ground (arith, off-update c q n)

off_zero : (n : ℕ) → off (λ _. 0) n ≡ 0
unfolding offset_rounds
off_zero zero = refl
off_zero (suc n) = omega (arith, off_zero n)

module _ (n : ℕ) (parents : ℕ → ℕ)
    (in_range : (node : ℕ) → 0 < node → node < n → parents node < n) where
  -- The counts of `k` nodes add up to `k`.
  off-count_rounds : (k : ℕ) → k < n → off (count_rounds parents k) n ≡ k
  unfolding count_rounds
  off-count_rounds zero h = off_zero n
  off-count_rounds (suc k) h =
      off-update (count_rounds parents k) (parents (suc k)) n
      ∙ ground (arith, in_range (suc k) (omega arith) h, off-count_rounds k (omega arith))

  -- When each node behind the root has its parent in range, every round of the third loop writes
  -- `indices` inside its N - 1 entries.
  pub scatter_position_lt :
      (k : ℕ)
      → suc k < n
      → (parents (suc k) < n)
        × ((scatter_rounds parents
                (offset_rounds (count_rounds parents (n - 1)) n).offsets
                k).next_offsets
              (parents (suc k))
            < n - 1)
  scatter_position_lt k h =
      let q = parents (suc k) in
      let b = in_range (suc k) (omega arith) h in
      (
        b,
        omega (
          arith,
          next_at n parents in_range k q b,
          count_step_self parents k,
          count_le parents q (suc k) (n - 1) (omega arith),
          off_apart (count_rounds parents (n - 1)) q n b,
          off-count_rounds (n - 1) (omega arith),
        ),
      )
