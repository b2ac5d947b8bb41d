-- ===== src/Validation/Plans.antt =====
-- The members of `compiled_plan` (include/yorch/plan/compiled_plan.hpp) that the checks read.
use yorch.Base.{ℕ, Option, none, some, get_elem?}
use yorch.Tree.{TaskTreeNode, FanoutPolicy, auto}
use yorch.Task.{TaskType, void_result, no_declared_output, task_output}
use yorch.Task.Access.{custom}
use yorch.Plan.Compiled.{CompiledPlan}

-- An index out of range does not compile; this stands for it.
abbrev no_node : TaskTreeNode TaskType
no_node = record {
  level = 0;
  fanout_policy = auto;
  task = record {
    form = custom;
    raw_result = void_result;
    output_type = none;
    output_protocol = no_declared_output;
  };
}

abbrev pub node_or : Option (TaskTreeNode TaskType) → TaskTreeNode TaskType
node_or none = no_node
node_or (some node) = node

-- `node_type<I>`, and the types that it has.
unfoldable pub node_type : CompiledPlan TaskType → ℕ → TaskTreeNode TaskType
node_type plan i = node_or (get_elem? plan.nodes i)

unfoldable pub task_type : CompiledPlan TaskType → ℕ → TaskType
unfolding node_type
task_type plan i = (node_type plan i).task

unfoldable pub output_type : CompiledPlan TaskType → ℕ → Option ℕ
unfolding task_output
output_type plan i = task_output (task_type plan i)

unfoldable pub fanout_policy_type : CompiledPlan TaskType → ℕ → FanoutPolicy
unfolding node_type
fanout_policy_type plan i = (node_type plan i).fanout_policy
