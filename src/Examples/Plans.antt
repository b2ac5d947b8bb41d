-- ===== src/Examples/Plans.antt =====
-- Plans compiled from the example tree, and a plan that is rejected.
use yorch.Base.{ℕ, ◌<◌, arith}
use yorch.Plan.Layout.{count_rounds, offset_rounds, scatter_rounds}
use yorch.Plan.Bounds.{scatter_position_lt}
use yorch.Plan.Compiled.{compile}
use yorch.Plan.Compiled.Structure.{IsTree, compile-IsTree}
use yorch.Examples.Data.{four_nodes, four_levels}

compile-IsTree_example : IsTree (compile four_nodes)
compile-IsTree_example = compile-IsTree four_nodes four_levels (omega arith)

abbrev root_of_all : ℕ → ℕ
root_of_all i = 0

in_range : (i : ℕ) → 0 < i → i < 4 → root_of_all i < 4
in_range i pos h = omega arith

scatter_position_lt_example :
    (root_of_all 3 < 4)
    × ((scatter_rounds root_of_all
            (offset_rounds (count_rounds root_of_all 3) 4).offsets
            2).next_offsets
          (root_of_all 3)
        < 3)
scatter_position_lt_example = scatter_position_lt 4 root_of_all in_range 2 (omega arith)
