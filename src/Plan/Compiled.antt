-- ===== src/Plan/Compiled.antt =====
-- include/yorch/plan/compiled_plan.hpp: the plan compiled from the nodes of a task tree.
pub mod Structure
use yorch.Base.{ℕ, ◌+◌, Bool, List, [], ◌∷◌, map, length, get_elem?, Option}
use yorch.Tree.{TaskTreeNode, max_level}
use yorch.Plan.Layout.{
  make_level_array, make_slot_index_array, make_parent_index_array, ChildLayout, make_child_layout,
}

pub record CompiledPlan {ℓ} (Task : Type ℓ) : Type ℓ where
  pub nodes : List (TaskTreeNode Task)
  pub node_count : ℕ
  pub max_level : ℕ
  pub no_parent : ℕ
  pub levels : ℕ → ℕ
  pub parent_indices : ℕ → ℕ
  pub child_counts : ℕ → ℕ
  pub child_offsets : ℕ → ℕ
  pub child_indices : ℕ → ℕ
  pub slot_indices : ℕ → ℕ

module _ {ℓ} {Task : Type ℓ} where
  abbrev pub node_levels : List (TaskTreeNode Task) → List ℕ
  node_levels = map λ node. node.level

  -- The static members of `compiled_plan<Nodes...>`.
  unfoldable pub compile : List (TaskTreeNode Task) → CompiledPlan Task
  unfolding make_level_array make_slot_index_array make_parent_index_array make_child_layout
  compile nodes =
      let n = length nodes in
      let levels = make_level_array (node_levels nodes) in
      let parents = make_parent_index_array n levels in
      let layout = make_child_layout n parents in
      record {
        nodes = nodes;
        node_count = n;
        max_level = max_level nodes;
        no_parent = n;
        levels = levels;
        parent_indices = parents;
        child_counts = layout.counts;
        child_offsets = layout.offsets;
        child_indices = layout.indices;
        slot_indices = make_slot_index_array n;
      }

  -- `child_index<I, ChildOrdinal>`
  abbrev pub child_index : CompiledPlan Task → ℕ → ℕ → ℕ
  child_index plan i ordinal = plan.child_indices (plan.child_offsets i + ordinal)
