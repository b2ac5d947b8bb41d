-- ===== src/Builder/Trees.antt =====
-- The trees that chains of builder calls make.
use yorch.Base.{
  ℕ, ◌≡◌, refl, true, Option, none, some, List, sym, subst, >>=-eq-some, Option-cases, inl, inr,
}
use yorch.Task.Access.{Spec}
use yorch.Tree.{TaskTreeNode, append_node}
use yorch.Run.Contract.{protocol_fits}
use yorch.Bind.Binders.{call_binder}
use yorch.Bind.Calls.{call_binder-protocol_fits}
use yorch.Builder.{Argument, Extra, task_object}
use yorch.Builder.Overloads.{Method, Choice, append, make_binder, diagnostic}
use yorch.Builder.Calls.{
  Nodes, select, node_overloads, root_overloads, append_object, append_call, append_method,
  policy_extra, append_task, binder_call, BuilderCall, root_call, node_call, builder_call,
}

-- A call appends one node, whose task has the property.
abbrev pub Appends : (Argument → Type 0) → Nodes → Nodes → Type 0
Appends P nodes nodes' =
    (n : TaskTreeNode Argument) × (append_node n nodes ≡ some nodes') × P n.task

append_object-Appends :
    (nodes : Nodes) (level : ℕ) (a : Argument) (c : Choice) {nodes' : Nodes}
    → append_object nodes level a c ≡ some nodes'
    → Appends (λ b. b ≡ a) nodes nodes'
unfolding append_object
append_object-Appends nodes level a (append p) e =
    (record { level = level; fanout_policy = p; task = a }, e, refl)
append_object-Appends nodes level a (make_binder k p c) e = cc
append_object-Appends nodes level a diagnostic e = cc

append_call-Appends :
    (nodes : Nodes) (level : ℕ) (m : Method) (a : Argument) (extras : List Extra) {nodes' : Nodes}
    → append_call nodes level m a extras ≡ some nodes'
    → Appends (λ b. b ≡ a) nodes nodes'
unfolding append_call
append_call-Appends nodes level m a extras e =
    let (c, _, last) =
      >>=-eq-some (select (node_overloads level nodes m a extras)) (append_object nodes level a)
        e in
    append_object-Appends nodes level a c last

abbrev pub Fits : Argument → Type 0
Fits a = protocol_fits a.type ≡ true

binder_call-Appends :
    (nodes : Nodes) (level : ℕ) (a : Argument) (specs : List Spec) (c : Choice) {nodes' : Nodes}
    → binder_call nodes level a specs c ≡ some nodes'
    → Appends Fits nodes nodes'
unfolding binder_call append_task
binder_call-Appends nodes level a specs (make_binder kind stored adapters) e =
    let (made, called, last) =
      >>=-eq-some (call_binder a.callable adapters kind specs) (append_task nodes level kind stored)
        e in
    let (n, appended, same) =
      append_call-Appends nodes level (append_method kind) (task_object made) (policy_extra stored)
        last in
    (
      n,
      appended,
      subst Fits (sym same) (call_binder-protocol_fits a.callable adapters kind specs called),
    )
binder_call-Appends nodes level a specs (append p) e = cc
binder_call-Appends nodes level a specs diagnostic e = cc

-- A task object that a call appends is to fit its protocol; a task that a call binds need not.
abbrev pub ObjectFits : BuilderCall → Type 0
ObjectFits c = c.specs ≡ none → Fits c.argument

module _ (nodes : Nodes) (m : Method) (a : Argument) (extras : List Extra) {nodes' : Nodes} where
  root_call-Appends :
      (specs : Option (List Spec))
      → root_call nodes m a extras specs ≡ some nodes'
      → (specs ≡ none → Fits a)
      → Appends Fits nodes nodes'
  unfolding root_call
  root_call-Appends none e fits =
      let (_, _, last) =
        >>=-eq-some (select (root_overloads nodes m a extras)) (λ _. append_call nodes 0 m a extras)
          e in
      let (n, appended, same) = append_call-Appends nodes 0 m a extras last in
      (n, appended, subst Fits (sym same) (fits refl))
  root_call-Appends (some specs) e fits =
      let (c, _, last) =
        >>=-eq-some (select (root_overloads nodes m a extras)) (binder_call nodes 0 a specs) e in
      binder_call-Appends nodes 0 a specs c last

  node_call-Appends :
      (level : ℕ) (specs : Option (List Spec))
      → node_call nodes level m a extras specs ≡ some nodes'
      → (specs ≡ none → Fits a)
      → Appends Fits nodes nodes'
  unfolding node_call
  node_call-Appends level none e fits =
      let (n, appended, same) = append_call-Appends nodes level m a extras e in
      (n, appended, subst Fits (sym same) (fits refl))
  node_call-Appends level (some specs) e fits =
      let (c, _, last) =
        >>=-eq-some (select (node_overloads level nodes m a extras))
          (binder_call nodes level a specs) e in
      binder_call-Appends nodes level a specs c last

pub builder_call-Appends :
    (nodes : Nodes) (c : BuilderCall) {nodes' : Nodes}
    → builder_call nodes c ≡ some nodes'
    → ObjectFits c
    → Appends Fits nodes nodes'
unfolding builder_call
builder_call-Appends nodes c e fits = elim (Option-cases c.level) [
  | inl at_root ↦
      root_call-Appends nodes c.method c.argument c.extras c.specs (rw at_root at e) fits
  | inr (level, at_level) ↦
      node_call-Appends nodes c.method c.argument c.extras level c.specs (rw at_level at e) fits
]
