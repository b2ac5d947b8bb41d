-- ===== src/Task/Access.antt =====
-- How a task reads its direct parent's output: include/yorch/specs.hpp,
-- include/yorch/detail/executor/prev_access_specs.hpp and
-- include/yorch/detail/executor/prev_access_task_traits.hpp.
pub mod Laws
use yorch.Base.{ℕ, ◌+◌, Bool, true, false, not, Option, none, some, List, [], ◌∷◌, ◌==◌, ◌&&◌, ◌||◌}

-- The argument specs; a type is a number.
pub data Spec : Type 0 where
  from_ctx value borrow_prev borrow_prev_mut copy_prev consume_prev : ℕ → Spec

-- A parameter's type, up to what the binding rules tell apart: T, const T&, T&, T&& and the rest.
pub data ArgType : Type 0 where
  by_value const_lvalue lvalue rvalue : ℕ → ArgType
  other_arg : ArgType

unfoldable pub is_prev_access : Spec → Bool
is_prev_access (from_ctx t) = false
is_prev_access (value t) = false
is_prev_access _ = true

unfoldable pub is_exclusive : Spec → Bool
is_exclusive (borrow_prev_mut t) = true
is_exclusive (consume_prev t) = true
is_exclusive _ = false

-- `prev_access_spec_traits<Spec>::matches_arg<Arg>`
unfoldable pub matches_arg : Spec → ArgType → Bool
matches_arg (borrow_prev t) (const_lvalue a) = a == t
matches_arg (borrow_prev_mut t) (lvalue a) = a == t
matches_arg (copy_prev t) (by_value a) = a == t
matches_arg (consume_prev t) (by_value a) = a == t
matches_arg (consume_prev t) (rvalue a) = a == t
matches_arg _ _ = false

-- A member function pointer: its class, and whether it is const.
pub record MemberFunction : Type 0 where
  pub class_type : ℕ
  pub is_const : Bool

-- `prev_access_spec_traits<Spec>::matches_member_receiver<F>`
unfoldable pub matches_member_receiver : Spec → MemberFunction → Bool
matches_member_receiver (borrow_prev t) f = t == f.class_type && f.is_const
matches_member_receiver (borrow_prev_mut t) f = t == f.class_type
matches_member_receiver (copy_prev t) f = t == f.class_type
matches_member_receiver (consume_prev t) f = t == f.class_type
matches_member_receiver _ f = false

pub record PrevAccessSummary : Type 0 where
  pub prev_access_count : ℕ
  pub exclusive_prev_access_count : ℕ
  pub borrow_prev_count : ℕ
  pub borrow_prev_mut_count : ℕ
  pub copy_prev_count : ℕ
  pub consume_prev_count : ℕ

abbrev pub no_access : PrevAccessSummary
no_access = record {
  prev_access_count = 0;
  exclusive_prev_access_count = 0;
  borrow_prev_count = 0;
  borrow_prev_mut_count = 0;
  copy_prev_count = 0;
  consume_prev_count = 0;
}

unfoldable pub merge_prev_access_summary : PrevAccessSummary → PrevAccessSummary → PrevAccessSummary
merge_prev_access_summary lhs rhs = record {
  prev_access_count = lhs.prev_access_count + rhs.prev_access_count;
  exclusive_prev_access_count = lhs.exclusive_prev_access_count + rhs.exclusive_prev_access_count;
  borrow_prev_count = lhs.borrow_prev_count + rhs.borrow_prev_count;
  borrow_prev_mut_count = lhs.borrow_prev_mut_count + rhs.borrow_prev_mut_count;
  copy_prev_count = lhs.copy_prev_count + rhs.copy_prev_count;
  consume_prev_count = lhs.consume_prev_count + rhs.consume_prev_count;
}

abbrev pub shared_access : PrevAccessSummary
shared_access = record no_access { prev_access_count = 1 }

abbrev pub exclusive_access : PrevAccessSummary
exclusive_access = record no_access { prev_access_count = 1; exclusive_prev_access_count = 1 }

unfoldable pub summarize_prev_access_spec : Spec → PrevAccessSummary
summarize_prev_access_spec (from_ctx t) = no_access
summarize_prev_access_spec (value t) = no_access
summarize_prev_access_spec (borrow_prev t) = record shared_access { borrow_prev_count = 1 }
summarize_prev_access_spec (borrow_prev_mut t) = record exclusive_access {
  borrow_prev_mut_count = 1;
}
summarize_prev_access_spec (copy_prev t) = record shared_access { copy_prev_count = 1 }
summarize_prev_access_spec (consume_prev t) = record exclusive_access { consume_prev_count = 1 }

unfoldable pub is_locally_valid : PrevAccessSummary → Bool
is_locally_valid s =
    s.exclusive_prev_access_count == 0
    || s.exclusive_prev_access_count == 1 && s.prev_access_count == 1

-- `task_binding_view`: the receiver's spec, if the callable is a member, and each argument's spec.
pub record TaskBinding : Type 0 where
  pub receiver : Option (Spec × MemberFunction)
  pub specs : List (Spec × ArgType)

unfoldable pub specs_valid : List (Spec × ArgType) → Bool
specs_valid [] = true
specs_valid ((spec, arg) ∷ specs) =
    (not (is_prev_access spec) || matches_arg spec arg) && specs_valid specs

unfoldable pub receiver_valid : Option (Spec × MemberFunction) → Bool
receiver_valid none = true
receiver_valid (some (spec, f)) = not (is_prev_access spec) || matches_member_receiver spec f

-- `task_binding_prev_access_bindings_valid_impl`
unfoldable pub bindings_valid : TaskBinding → Bool
unfolding specs_valid receiver_valid
bindings_valid b = receiver_valid b.receiver && specs_valid b.specs

unfoldable pub summarize_specs : PrevAccessSummary → List (Spec × ArgType) → PrevAccessSummary
unfolding merge_prev_access_summary summarize_prev_access_spec
summarize_specs summary [] = summary
summarize_specs summary ((spec, arg) ∷ specs) =
    summarize_specs (merge_prev_access_summary summary (summarize_prev_access_spec spec)) specs

-- `summarize_task_binding_impl`
unfoldable pub summarize_task_binding : TaskBinding → PrevAccessSummary
unfolding summarize_specs
summarize_task_binding b = elim b.receiver [
  | none ↦ summarize_specs no_access b.specs
  | some (spec, f) ↦
      summarize_specs (merge_prev_access_summary no_access (summarize_prev_access_spec spec))
        b.specs
]

-- A user's own task type, a bound task, and the adapters around a task.
pub data TaskForm : Type 0 where
  custom : TaskForm
  bound : TaskBinding → TaskForm
  catch_failure catch_failure_with_policy retry : TaskForm → TaskForm

-- `task_prev_access_traits_impl<Task>::summary` and `::valid`
unfoldable pub access_summary : TaskForm → PrevAccessSummary
unfolding summarize_task_binding
access_summary custom = no_access
access_summary (bound b) = summarize_task_binding b
access_summary (catch_failure t) = access_summary t
access_summary (catch_failure_with_policy t) = access_summary t
access_summary (retry t) = access_summary t

unfoldable pub access_valid : TaskForm → Bool
unfolding bindings_valid summarize_task_binding is_locally_valid access_summary
access_valid custom = true
access_valid (bound b) = bindings_valid b && is_locally_valid (summarize_task_binding b)
access_valid (catch_failure t) = access_valid t
access_valid (catch_failure_with_policy t) = access_valid t
access_valid (retry t) = access_valid t && (access_summary t).consume_prev_count == 0

module _ (form : TaskForm) where
  unfoldable pub uses_prev_access : Bool
  uses_prev_access = not ((access_summary form).prev_access_count == 0)

  unfoldable pub uses_exclusive_prev_access : Bool
  uses_exclusive_prev_access = not ((access_summary form).exclusive_prev_access_count == 0)

  unfoldable pub uses_borrow_prev : Bool
  uses_borrow_prev = not ((access_summary form).borrow_prev_count == 0)

  unfoldable pub uses_borrow_prev_mut : Bool
  uses_borrow_prev_mut = not ((access_summary form).borrow_prev_mut_count == 0)

  unfoldable pub uses_copy_prev : Bool
  uses_copy_prev = not ((access_summary form).copy_prev_count == 0)

  unfoldable pub uses_consume_prev : Bool
  uses_consume_prev = not ((access_summary form).consume_prev_count == 0)
