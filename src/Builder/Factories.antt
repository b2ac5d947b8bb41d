-- ===== src/Builder/Factories.antt =====
-- The overloads of `task`, `task_into`, `task_member` and their like, outside of a builder:
-- include/yorch/bind/builders/core.hpp and include/yorch/bind/builders/diagnostics.hpp.
pub mod Selection
use yorch.Base.{Bool, true, false, not, Option, none, some, List, [], ◌∷◌, ◌++◌, ◌&&◌, ◌||◌}
use yorch.Task.{uses_direct_output}
use yorch.Task.Access.{Spec}
use yorch.Bind.{
  bind_callable, member_bind_callable, ordinary_bind_callable, inferable_direct_output_callable,
  inferable_forward_prev_callable, ordinary_member_bind_callable,
  inferable_direct_output_member_callable,
}
use yorch.Bind.Adapters.{AdapterDesc}
use yorch.Bind.Binders.{
  BinderKind, task, into, forward_prev, task_member, into_member, forward_prev_member,
}
use yorch.Builder.{Argument}

pub data Factory : Type 0 where
  of_task of_into of_forward_prev of_member of_into_member of_forward_prev_member : Factory

-- An argument behind the first one: `adapters(...)`, or a spec for the receiver.
pub data FactoryExtra : Type 0 where
  adapters : List AdapterDesc → FactoryExtra
  spec : Spec → FactoryExtra

-- A binder with the adapters that it stores, or a compile error in words.
pub data FactoryChoice : Type 0 where
  returns_binder : BinderKind → List AdapterDesc → FactoryChoice
  explains : FactoryChoice

-- `task(f)` and `task(f, adapters)`
unfoldable pub stores : BinderKind → List FactoryExtra → Option FactoryChoice
stores kind [] = some (returns_binder kind [])
stores kind (adapters chain ∷ []) = some (returns_binder kind chain)
stores kind _ = none

-- `task_member(f, receiver)` and `task_member(f, receiver, adapters)`
unfoldable pub member_stores : (Spec → BinderKind) → List FactoryExtra → Option FactoryChoice
unfolding stores
member_stores kind (spec receiver ∷ extras) = stores (kind receiver) extras
member_stores kind _ = none

abbrev pub guarded : Bool → Option FactoryChoice → List FactoryChoice
guarded true (some choice) = choice ∷ []
guarded true none = []
guarded false choice = []

-- The parameters of the diagnostics behind the first one
unfoldable pub alone : List FactoryExtra → Bool
alone [] = true
alone _ = false

unfoldable pub with_adapters : List FactoryExtra → Bool
with_adapters (adapters chain ∷ []) = true
with_adapters _ = false

unfoldable pub with_any : List FactoryExtra → Bool
with_any (x ∷ []) = true
with_any _ = false

unfoldable pub with_any_and_adapters : List FactoryExtra → Bool
with_any_and_adapters (x ∷ adapters chain ∷ []) = true
with_any_and_adapters _ = false

module _ (a : Argument) (extras : List FactoryExtra) where
  -- The overloads that return a binder and apply
  unfoldable pub factory_core : Factory → List FactoryChoice
  unfolding stores member_stores ordinary_bind_callable inferable_direct_output_callable
      inferable_forward_prev_callable ordinary_member_bind_callable
      inferable_direct_output_member_callable
  factory_core of_task = guarded (ordinary_bind_callable a.callable) (stores task extras)
  factory_core of_into = guarded (inferable_direct_output_callable a.callable) (stores into extras)
  factory_core of_forward_prev =
      guarded (inferable_forward_prev_callable a.callable) (stores forward_prev extras)
  factory_core of_member =
      guarded (ordinary_member_bind_callable a.callable) (member_stores task_member extras)
  factory_core of_into_member =
      guarded (inferable_direct_output_member_callable a.callable)
        (member_stores into_member extras)
  factory_core of_forward_prev_member =
      guarded (ordinary_member_bind_callable a.callable) (member_stores forward_prev_member extras)

  abbrev pub explained : Bool → List FactoryChoice
  explained holds = guarded holds (some explains)

  -- The diagnostics that apply to a task object, a `bind_task_object`
  unfoldable pub object_diagnostics : Factory → List FactoryChoice
  unfolding alone with_adapters uses_direct_output
  object_diagnostics of_task = explained (a.plannable && uses_direct_output a.type && alone extras)
  object_diagnostics of_into =
      explained (a.plannable && alone extras) ++ explained (a.plannable && with_adapters extras)
  object_diagnostics of_forward_prev =
      explained (a.plannable && alone extras) ++ explained (a.plannable && with_adapters extras)
  object_diagnostics _ = []

  -- A diagnostic for a callable of the wrong kind, alone and with adapters
  unfoldable pub wrong_kind : Bool → List FactoryChoice
  unfolding alone with_adapters
  wrong_kind kind = explained (kind && alone extras) ++ explained (kind && with_adapters extras)

  -- The diagnostics of the functions for members: the receiver is missing, or the member function is of the wrong
  -- kind.
  unfoldable pub member_mistakes : Bool → Bool → List FactoryChoice
  unfolding wrong_kind with_any with_any_and_adapters
  member_mistakes kind wrong =
      wrong_kind kind
      ++ (wrong_kind wrong
          ++ (explained (wrong && with_any extras)
              ++ explained (wrong && with_any_and_adapters extras)))

  -- The diagnostics that apply to a callable
  unfoldable pub callable_diagnostics : Factory → List FactoryChoice
  unfolding wrong_kind member_mistakes member_bind_callable ordinary_bind_callable
      inferable_direct_output_callable ordinary_member_bind_callable
      inferable_direct_output_member_callable
  callable_diagnostics of_task =
      wrong_kind (inferable_direct_output_callable a.callable)
      ++ wrong_kind (member_bind_callable a.callable)
  callable_diagnostics of_into =
      wrong_kind (ordinary_bind_callable a.callable) ++ wrong_kind (member_bind_callable a.callable)
  callable_diagnostics of_forward_prev =
      wrong_kind (inferable_direct_output_callable a.callable)
      ++ wrong_kind (member_bind_callable a.callable)
  callable_diagnostics of_member =
      member_mistakes (ordinary_member_bind_callable a.callable)
        (inferable_direct_output_member_callable a.callable)
  callable_diagnostics of_into_member =
      member_mistakes (inferable_direct_output_member_callable a.callable)
        (ordinary_member_bind_callable a.callable)
  callable_diagnostics of_forward_prev_member =
      member_mistakes (ordinary_member_bind_callable a.callable)
        (inferable_direct_output_member_callable a.callable)
