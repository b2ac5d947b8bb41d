-- ===== src/Plan/Compiled/Structure.antt =====
-- The tables of a compiled plan (include/yorch/plan/compiled_plan.hpp) for nodes that the builder
-- admitted.
use yorch.Base.{ℕ, ◌-◌, ◌≤◌, ◌<◌, ◌≡◌, refl, List, length, arith}
use yorch.Tree.{TaskTreeNode}
use yorch.Tree.Levels.{HasLevelSequence}
use yorch.Plan.Layout.{size_max, make_level_array, make_parent_index_array, make_child_layout}
use yorch.Plan.Parents.{IsParent, parent_root, make_parent_index_array-IsParent}
use yorch.Plan.ChildTable.{IsChildTable, make_child_layout-IsChildTable}
use yorch.Plan.Compiled.{CompiledPlan, node_levels, compile, child_index}

module _ {ℓ} {Task : Type ℓ} where
  -- The tables of a plan fit one tree, in preorder: the root has no parent, the parent of another
  -- node is the last node before it that is one level up, and the children of a node are listed in
  -- order, each once.
  pub record IsTree (plan : CompiledPlan Task) : Type ℓ where
    pub root : plan.parent_indices 0 ≡ plan.no_parent
    pub sentinel : plan.no_parent ≡ plan.node_count
    pub parent :
        (i : ℕ) → 0 < i → i < plan.node_count → IsParent plan.levels i (plan.parent_indices i)
    pub child_sound :
        (p ord : ℕ)
        → p < plan.node_count
        → ord < plan.child_counts p
        → (p < child_index plan p ord)
          × (child_index plan p ord < plan.node_count)
          × (plan.parent_indices (child_index plan p ord) ≡ p)
    pub child_complete :
        (i : ℕ)
        → 0 < i
        → i < plan.node_count
        → (ord : ℕ) × (ord < plan.child_counts (plan.parent_indices i))
          × (child_index plan (plan.parent_indices i) ord ≡ i)
    pub child_order :
        (p i j : ℕ)
        → p < plan.node_count
        → i < j
        → j < plan.child_counts p
        → child_index plan p i < child_index plan p j
    pub child_count_le : (p : ℕ) → p < plan.node_count → plan.child_counts p ≤ plan.node_count - 1

module _ {ℓ} {Task : Type ℓ} (nodes : List (TaskTreeNode Task)) (valid : HasLevelSequence nodes)
    (small : length nodes ≤ size_max) where
  parents_in_range :
      (i : ℕ)
      → 0 < i
      → i < length nodes
      → make_parent_index_array (length nodes) (make_level_array (node_levels nodes)) i
        < length nodes
  parents_in_range i pos h = omega (
    arith,
    (make_parent_index_array-IsParent (length nodes) (make_level_array (node_levels nodes)) valid
        small i pos h).before,
  )

  child_table :
      IsChildTable
        (length nodes)
        (make_parent_index_array (length nodes) (make_level_array (node_levels nodes)))
        (make_child_layout
          (length nodes)
          (make_parent_index_array (length nodes) (make_level_array (node_levels nodes))))
  child_table = make_child_layout-IsChildTable (length nodes) _ parents_in_range

  -- The plan that is compiled from nodes with a valid sequence of levels, at most 2^64 of them, has
  -- tables that fit one tree.
  pub compile-IsTree : IsTree (compile nodes)
  unfolding compile
  compile-IsTree = record {
    root = parent_root (length nodes) (make_level_array (node_levels nodes));
    sentinel = refl;
    parent =
        make_parent_index_array-IsParent (length nodes) (make_level_array (node_levels nodes)) valid
          small;
    child_sound = λ p ord h b.
        let (pos, less, e) = child_table.sound p ord h b in
        let q =
          make_parent_index_array-IsParent (length nodes) (make_level_array (node_levels nodes))
            valid small _ pos less in
        (omega (arith, q.before, e), less, e);
    child_complete = child_table.complete;
    child_order = child_table.ordered;
    child_count_le = child_table.count_le;
  }
