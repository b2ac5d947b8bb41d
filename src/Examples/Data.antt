-- ===== src/Examples/Data.antt =====
-- A tree of four nodes. The root returns a value of type 5. Its first child copies the value and may
-- return a value of type 7, which the grandchild borrows; its second child consumes the root's value.
use yorch.Base.{ℕ, ◌≡◌, refl, none, some, List, [], ◌∷◌}
use yorch.Tree.{
  TaskTreeNode, FanoutPolicy, auto, consume_with_copies, last_level, append_level_valid,
  append_node, build,
}
use yorch.Tree.Levels.{HasLevelSequence, build-HasLevelSequence}
use yorch.Task.{TaskType, RawResult, void_result, task_result, value_result, no_declared_output}
use yorch.Task.Access.{
  Spec, borrow_prev, copy_prev, consume_prev, ArgType, by_value, const_lvalue, TaskForm, custom,
  bound,
}

abbrev pub one_argument : Spec → ArgType → TaskForm
one_argument spec arg = bound (record { receiver = none; specs = (spec, arg) ∷ [] })

abbrev pub tree_node : ℕ → FanoutPolicy → TaskForm → RawResult → TaskTreeNode TaskType
tree_node level policy form raw = record {
  level = level;
  fanout_policy = policy;
  task = record {
    form = form;
    raw_result = raw;
    output_type = none;
    output_protocol = no_declared_output;
  };
}

abbrev pub four_nodes : List (TaskTreeNode TaskType)
four_nodes =
    tree_node 0 consume_with_copies custom (value_result 5)
    ∷ tree_node 1 auto (one_argument (copy_prev 5) (by_value 5)) (task_result 7)
    ∷ tree_node 2 auto (one_argument (borrow_prev 7) (const_lvalue 7)) void_result
    ∷ tree_node 1 auto (one_argument (consume_prev 5) (by_value 5)) void_result
    ∷ []

pub four_nodes_built : build [] four_nodes ≡ some four_nodes
unfolding build append_node append_level_valid last_level
four_nodes_built = refl

pub four_levels : HasLevelSequence four_nodes
four_levels = (build-HasLevelSequence four_nodes four_nodes_built).0
