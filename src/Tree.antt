-- ===== src/Tree.antt =====
-- The task tree builder: include/yorch/detail/task_tree/metadata.hpp and the `root`, `node` and
-- `node_into` operations of include/yorch/detail/task_tree/builder_root_core_ordinary.hpp and
-- builder_node_core_ordinary.hpp, which append one node when its level is valid.
pub mod Levels
use yorch.Base.{
  ℕ, zero, suc, ◌+◌, Bool, true, false, not, Option, none, some, List, [], ◌∷◌, ◌++◌, ◌==◌, ◌&&◌,
  ltb, leb, if◌then◌else◌,
}

-- include/yorch/task_tree/policies.hpp
pub data FanoutPolicy : Type 0 where
  auto shared_readonly consume_with_copies : FanoutPolicy

-- `task_tree_node<Level, Task, FanoutPolicy>`.
pub record TaskTreeNode {ℓ} (Task : Type ℓ) : Type ℓ where
  pub level : ℕ
  pub fanout_policy : FanoutPolicy
  pub task : Task

module _ {ℓ} {Task : Type ℓ} where
  -- `max_level_v`
  unfoldable pub max_level : List (TaskTreeNode Task) → ℕ
  max_level [] = 0
  max_level (node ∷ []) = node.level
  max_level (node ∷ next ∷ rest) =
      let below = max_level (next ∷ rest) in if ltb below node.level then node.level else below

  -- `last_node_t<Nodes...>::level`
  unfoldable pub last_level : TaskTreeNode Task → List (TaskTreeNode Task) → ℕ
  last_level node [] = node.level
  last_level node (next ∷ rest) = last_level next rest

  -- `append_level_valid_v<Level, Nodes...>`
  unfoldable pub append_level_valid : ℕ → List (TaskTreeNode Task) → Bool
  unfolding last_level
  append_level_valid level [] = level == 0
  append_level_valid level (node ∷ nodes) =
      not (level == 0) && leb level (last_level node nodes + 1)

  -- The call does not compile where its `requires` clause fails.
  unfoldable pub append_node :
      TaskTreeNode Task → List (TaskTreeNode Task) → Option (List (TaskTreeNode Task))
  unfolding append_level_valid
  append_node node nodes =
      if append_level_valid node.level nodes then some (nodes ++ node ∷ []) else none

  -- A chain of builder calls.
  unfoldable pub build :
      List (TaskTreeNode Task) → List (TaskTreeNode Task) → Option (List (TaskTreeNode Task))
  unfolding append_node
  build nodes [] = some nodes
  build nodes (node ∷ calls) = elim (append_node node nodes) [
    | none ↦ none
    | some nodes' ↦ build nodes' calls
  ]
