-- ===== src/Examples/Arguments.antt =====
-- Arguments of the tasks in the tree of five nodes: the node 2 borrows a value mutably, the node 1 reads a
-- staged copy.
use yorch.Base.{◌≡◌, refl, true, false, not, some, none, [], ◌∷◌, ◌&&◌, ◌||◌, ◌==◌, arith}
use yorch.Task.Access.{
  borrow_prev_mut, consume_prev, lvalue, by_value, TaskBinding, is_prev_access, is_exclusive,
  matches_arg,
}
use yorch.Task.{task_output}
use yorch.Plan.Layout.{make_level_array, make_parent_index_array, scan_back, parent_rounds}
use yorch.Plan.Compiled.{compile}
use yorch.Validation.Plans.{node_type, task_type, output_type}
use yorch.Validation.Sources.{is_root}
use yorch.Resolve.{
  TypeRelations, slot_type, mutable_reference, prev_contains, is_mutable_source, resolve_as,
  resolve_borrow_prev_mut,
}
use yorch.Resolve.Rules.{
  requested, is_makeable, is_resolved, can_change_source, can_move_source, resolve_as_iff,
  resolve_as-protects,
}
use yorch.Resolve.Bindings.{binding_of}
use yorch.Resolve.Plans.{node_prev_view_type, validated-is_resolved}
use yorch.Examples.Flow.{five_nodes, five_valid}

-- Types that are constructible from and convertible to themselves only.
abbrev plain : TypeRelations
plain = record {
  from_const = λ t u. t == u;
  from_mutable = λ t u. t == u;
  from_rvalue = λ t u. t == u;
  const_ref_to_const = λ t u. t == u;
  const_ref_to_mutable = λ t u. t == u;
  mutable_ref = λ t u. t == u;
}

-- A view that is const admits no consumption.
resolve_as_iff_example :
    is_resolved (resolve_as plain none (slot_type true 5) (consume_prev 5) (by_value 5)) ≡ (
      matches_arg (consume_prev 5) (by_value 5)
      && prev_contains (requested (consume_prev 5)) (slot_type true 5)
      && (not (is_exclusive (consume_prev 5)) || is_mutable_source (slot_type true 5))
      && is_makeable plain (consume_prev 5) (by_value 5))
unfolding is_prev_access
resolve_as_iff_example =
    resolve_as_iff plain none (slot_type true 5) (consume_prev 5) (by_value 5) refl

resolve_as-protects_example :
    (is_prev_access (borrow_prev_mut 7) ≡ true
      → can_change_source (mutable_reference 7) ≡ true
      → is_exclusive (borrow_prev_mut 7) ≡ true)
    × (can_move_source (mutable_reference 7) ≡ true
        → borrow_prev_mut 7 ≡ consume_prev (requested (borrow_prev_mut 7)))
unfolding resolve_as resolve_borrow_prev_mut prev_contains is_mutable_source
resolve_as-protects_example =
    resolve_as-protects plain none (slot_type false 7) (borrow_prev_mut 7) (lvalue 7)
      (mutable_reference 7) refl

abbrev mutable_borrower : TaskBinding
mutable_borrower = record { receiver = none; specs = (borrow_prev_mut 7, lvalue 7) ∷ [] }

inner_node : is_root (compile five_nodes) 2 ≡ false
unfolding is_root compile make_parent_index_array make_level_array parent_rounds scan_back
inner_node = refl

parent_output : output_type (compile five_nodes) ((compile five_nodes).parent_indices 2) ≡ some 7
unfolding output_type task_output task_type node_type compile make_parent_index_array
    make_level_array parent_rounds scan_back
parent_output = refl

validated-is_resolved_example :
    is_resolved (
      resolve_as plain none
        (node_prev_view_type (compile five_nodes) 2)
        (borrow_prev_mut 7)
        (lvalue 7))
    ≡ true
unfolding compile binding_of task_type node_type is_prev_access requested is_makeable
validated-is_resolved_example =
    validated-is_resolved (compile five_nodes) 2 inner_node plain none mutable_borrower 0
      (borrow_prev_mut 7) (lvalue 7) five_valid (omega arith) refl refl refl parent_output refl
