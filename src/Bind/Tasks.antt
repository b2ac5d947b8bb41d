-- ===== src/Bind/Tasks.antt =====
-- include/yorch/bind/tasks/factories.hpp: `bind`, `bind_into`, `bind_member`, `bind_forward_prev` and their
-- like. A call is `none` where its diagnostic fires; otherwise it gives the type of the bound task
-- (include/yorch/bind/tasks/types.hpp).
use yorch.Base.{ℕ, Option, none, some, List, [], ◌∷◌, length, if◌then◌else◌}
use yorch.Task.{
  TaskType, RawResult, step_result, no_declared_output, direct_output, forward_prev_output,
}
use yorch.Task.Access.{Spec, ArgType, other_arg, TaskBinding, bound}
use yorch.Bind.{
  Param, input, out_param, Callable, member, OutputArg, void_type, reference_to, object, params_of,
}
use yorch.Bind.Validate.{
  validate_bind, validate_bind_into, validate_bind_member, validate_bind_into_member, bind_ok,
  bind_into_ok, bind_member_ok, bind_into_member_ok,
}
use yorch.Bind.ForwardPrev.{
  result_of, validate_bind_forward_prev, validate_bind_forward_prev_member, forward_prev_ok,
  forward_prev_member_ok,
}

-- `nth_arg_t<I, F>` as the type that a spec is resolved to
abbrev pub arg_type : Param → ArgType
arg_type (input a) = a
arg_type (out_param t plain) = other_arg

-- Each spec with the parameter at its index; `std::index_sequence_for<Specs...>` leaves a trailing sink out.
unfoldable pub with_args : List Spec → List Param → List (Spec × ArgType)
with_args [] params = []
with_args (spec ∷ specs) [] = []
with_args (spec ∷ specs) (p ∷ params) = (spec, arg_type p) ∷ with_args specs params

-- What a bound task stores.
unfoldable pub bindings : Callable → List Spec → TaskBinding
unfolding with_args
bindings f specs = record { receiver = none; specs = with_args specs (params_of f) }

unfoldable pub member_bindings : Callable → Spec → List Spec → TaskBinding
unfolding with_args
member_bindings (member g s) receiver specs = record {
  receiver = some (receiver, g);
  specs = with_args specs s.params;
}
member_bindings _ receiver specs = record { receiver = none; specs = [] }

-- The output types; `T` is an object type wherever a task is made.
abbrev pub output_of : OutputArg → Option ℕ
output_of void_type = none
output_of (reference_to t) = none
output_of (object t) = some t

-- `bound_task`, `bound_member_task`
unfoldable pub bound_task : RawResult → TaskBinding → TaskType
bound_task result b = record {
  form = bound b;
  raw_result = result;
  output_type = none;
  output_protocol = no_declared_output;
}

-- `bound_output_task`, `bound_member_output_task`
unfoldable pub bound_output_task : OutputArg → TaskBinding → TaskType
bound_output_task t b = record {
  form = bound b;
  raw_result = step_result;
  output_type = output_of t;
  output_protocol = direct_output;
}

-- `bound_forward_prev_task`, `bound_member_forward_prev_task`
unfoldable pub bound_forward_prev_task : OutputArg → TaskBinding → TaskType
bound_forward_prev_task t b = record {
  form = bound b;
  raw_result = step_result;
  output_type = output_of t;
  output_protocol = forward_prev_output;
}

module _ (f : Callable) where
  unfoldable pub bind : List Spec → Option TaskType
  unfolding bind_ok validate_bind bound_task bindings
  bind specs =
      if bind_ok (validate_bind f (length specs))
      then some (bound_task (result_of f) (bindings f specs))
      else none

  unfoldable pub bind_member : Spec → List Spec → Option TaskType
  unfolding bind_member_ok validate_bind_member bound_task member_bindings
  bind_member receiver specs =
      if bind_member_ok (validate_bind_member f (length specs))
      then some (bound_task (result_of f) (member_bindings f receiver specs))
      else none

  module _ (t : OutputArg) where
    unfoldable pub bind_into : List Spec → Option TaskType
    unfolding bind_into_ok validate_bind_into bound_output_task bindings
    bind_into specs =
        if bind_into_ok (validate_bind_into f (length specs) t)
        then some (bound_output_task t (bindings f specs))
        else none

    unfoldable pub bind_into_member : Spec → List Spec → Option TaskType
    unfolding bind_into_member_ok validate_bind_into_member bound_output_task member_bindings
    bind_into_member receiver specs =
        if bind_into_member_ok (validate_bind_into_member f (length specs) t)
        then some (bound_output_task t (member_bindings f receiver specs))
        else none

    unfoldable pub bind_forward_prev : List Spec → Option TaskType
    unfolding forward_prev_ok validate_bind_forward_prev bound_forward_prev_task bindings
    bind_forward_prev specs =
        if forward_prev_ok (validate_bind_forward_prev t f specs)
        then some (bound_forward_prev_task t (bindings f specs))
        else none

    unfoldable pub bind_forward_prev_member : Spec → List Spec → Option TaskType
    unfolding forward_prev_member_ok validate_bind_forward_prev_member bound_forward_prev_task
        member_bindings
    bind_forward_prev_member receiver specs =
        if forward_prev_member_ok (validate_bind_forward_prev_member t f receiver specs)
        then some (bound_forward_prev_task t (member_bindings f receiver specs))
        else none
