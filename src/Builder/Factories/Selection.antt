-- ===== src/Builder/Factories/Selection.antt =====
-- Which overload of `task`, `task_into`, `task_member` and their like applies.
use yorch.Base.{◌≡◌, true, false, List, [], ◌∷◌, ◌&&◌, arith}
use yorch.Bind.{
  bind_callable, ordinary_bind_callable, inferable_direct_output_callable,
  inferable_forward_prev_callable, ordinary_member_bind_callable,
  inferable_direct_output_member_callable,
}
use yorch.Bind.Adapters.{AdapterDesc}
use yorch.Bind.Binders.{BinderKind, makes_binder}
use yorch.Builder.{Argument}
use yorch.Builder.Factories.{
  Factory, FactoryExtra, adapters, spec, FactoryChoice, returns_binder, stores, member_stores,
  alone, with_adapters, with_any, with_any_and_adapters, factory_core, object_diagnostics,
  callable_diagnostics, wrong_kind, member_mistakes,
}

-- An overload that returns a binder, and the only one that applies.
pub record IsSelected (a : Argument) (m : Factory) (extras : List FactoryExtra) (kind : BinderKind)
    (rest : List FactoryChoice) : Type 0 where
  pub constraint : makes_binder kind a.callable ≡ true
  pub sole : rest ≡ []
  pub no_object : object_diagnostics a extras m ≡ []
  pub no_mistake : callable_diagnostics a extras m ≡ []

-- When an overload of `task`, `task_into`, `task_member` and their like returns a binder, for an argument that is
-- not a callable and a task object at once: the callable meets the constraint of the binder, and no
-- other overload and no diagnostic applies.
pub factory_core-IsSelected :
    (m : Factory) (a : Argument) (extras : List FactoryExtra) {kind : BinderKind}
    {chain : List AdapterDesc} {rest : List FactoryChoice}
    → (bind_callable a.callable && a.plannable) ≡ false
    → factory_core a extras m ≡ returns_binder kind chain ∷ rest
    → IsSelected a m extras kind rest
unfolding factory_core object_diagnostics callable_diagnostics wrong_kind member_mistakes stores
    member_stores alone with_adapters with_any with_any_and_adapters makes_binder
    inferable_forward_prev_callable ordinary_bind_callable inferable_direct_output_callable
    ordinary_member_bind_callable inferable_direct_output_member_callable
factory_core-IsSelected m a [] one e = ground arith
factory_core-IsSelected m a (adapters c ∷ []) one e = ground arith
factory_core-IsSelected m a (adapters c ∷ x ∷ more) one e = ground arith
factory_core-IsSelected m a (spec r ∷ []) one e = ground arith
factory_core-IsSelected m a (spec r ∷ adapters c ∷ []) one e = ground arith
factory_core-IsSelected m a (spec r ∷ spec q ∷ more) one e = ground arith
factory_core-IsSelected m a (spec r ∷ adapters c ∷ x ∷ more) one e = ground arith
