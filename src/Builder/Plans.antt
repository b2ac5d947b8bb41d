-- ===== src/Builder/Plans.antt =====
-- The plan of a tree that builder calls have made, `compiled_plan<Nodes...>`
-- (include/yorch/plan/compiled_plan.hpp), and what is known of it.
use yorch.Base.{
  ℕ, zero, suc, ◌<◌, ◌≡◌, refl, Bool, true, false, Option, none, some, List, [], ◌∷◌, length, map,
  ◌&&◌, arith, ap, sym, ◌∙◌, ◌>>=◌, >>=-eq-some, if-eq-some, if◌then◌else◌,
}
use mathlib.Core.List.{map-append}
use yorch.Task.{TaskType}
use yorch.Tree.{TaskTreeNode, last_level, append_level_valid, append_node, build}
use yorch.Tree.Levels.{HasLevelSequence, build-HasLevelSequence}
use yorch.Plan.Compiled.{CompiledPlan, compile}
use yorch.Validation.Plans.{node_type, task_type}
use yorch.Validation.Sources.{is_void}
use yorch.Validation.Errors
use yorch.Validation.Errors.{PlanValidationError, validate_plan}
use yorch.Run.Contract.{protocol_fits}
use yorch.Builder.{Argument}
use yorch.Builder.Calls.{Nodes, BuilderCall, builder_call, builder_calls}
use yorch.Builder.Trees.{ObjectFits, builder_call-Appends}

abbrev pub plan_node : TaskTreeNode Argument → TaskTreeNode TaskType
plan_node n = record { level = n.level; fanout_policy = n.fanout_policy; task = n.task.type }

abbrev pub plan_nodes : Nodes → List (TaskTreeNode TaskType)
plan_nodes = map plan_node

-- `plannable_plan_nodes`
unfoldable pub plannable_plan_nodes : Nodes → Bool
plannable_plan_nodes [] = true
plannable_plan_nodes (n ∷ nodes) = n.task.plannable && plannable_plan_nodes nodes

-- Whether `emit_plan_diagnostic` returns
unfoldable pub plan_ok : PlanValidationError → Bool
plan_ok Errors.ok = true
plan_ok _ = false

-- `compile_plan`, which does not compile for an empty tree, a tree with a node that is no task, and a plan in which
-- `validate_plan` finds an error
unfoldable pub compile_tree : Nodes → Option (CompiledPlan TaskType)
unfolding plannable_plan_nodes compile plan_ok validate_plan
compile_tree [] = none
compile_tree (n ∷ nodes) =
    if plannable_plan_nodes (n ∷ nodes)
      && plan_ok (validate_plan (compile (plan_nodes (n ∷ nodes))))
    then some (compile (plan_nodes (n ∷ nodes)))
    else none

last_level-plan :
    (n : TaskTreeNode Argument) (nodes : Nodes)
    → last_level (plan_node n) (plan_nodes nodes) ≡ last_level n nodes
unfolding last_level
last_level-plan n [] = refl
last_level-plan n (next ∷ rest) = last_level-plan next rest

append_level_valid-plan :
    (level : ℕ) (nodes : Nodes)
    → append_level_valid level (plan_nodes nodes) ≡ append_level_valid level nodes
unfolding append_level_valid
append_level_valid-plan level [] = refl
append_level_valid-plan level (n ∷ nodes) = rw (last_level-plan n nodes) refl

append_node-plan :
    (n : TaskTreeNode Argument) (nodes : Nodes) {nodes' : Nodes}
    → append_node n nodes ≡ some nodes'
    → append_node (plan_node n) (plan_nodes nodes) ≡ some (plan_nodes nodes')
unfolding append_node
append_node-plan n nodes e =
    let (valid, same) = if-eq-some (append_level_valid n.level nodes) e in
    rw (append_level_valid-plan n.level nodes, valid)
      (ap some (sym (map-append plan_node nodes (n ∷ [])))
        ∙ ap (λ o. o >>= λ ns. some (plan_nodes ns)) same)

-- The tasks of these nodes fit their protocols.
abbrev AllFit : List (TaskTreeNode TaskType) → Type 0
AllFit [] = Unit
AllFit (n ∷ nodes) = (protocol_fits n.task ≡ true) × AllFit nodes

abbrev pub ObjectsFit : List BuilderCall → Type 0
ObjectsFit [] = Unit
ObjectsFit (c ∷ calls) = ObjectFits c × ObjectsFit calls

build_step :
    (n : TaskTreeNode TaskType) (nodes ns : List (TaskTreeNode TaskType))
    {nodes' : List (TaskTreeNode TaskType)}
    → append_node n nodes ≡ some nodes'
    → build nodes (n ∷ ns) ≡ build nodes' ns
unfolding build
build_step n nodes ns e = rw (build, e) refl

-- The nodes that a chain of calls appends, in the plan's types.
builder_calls-build :
    (calls : List BuilderCall) (nodes : Nodes) {built : Nodes}
    → builder_calls nodes calls ≡ some built
    → ObjectsFit calls
    → (ns : List (TaskTreeNode TaskType)) × (build (plan_nodes nodes) ns ≡ some (plan_nodes built))
      × AllFit ns
      × (length ns ≡ length calls)
unfolding builder_calls build
builder_calls-build [] nodes e fits = ([], ap (λ o. o >>= λ ns. some (plan_nodes ns)) e, tt, refl)
builder_calls-build (c ∷ calls) nodes e (fit, fits) =
    let (nodes', called, rest) =
      >>=-eq-some (builder_call nodes c) (λ nodes'. builder_calls nodes' calls) e in
    let (n, appended, task_fits) = builder_call-Appends nodes c called fit in
    let (ns, built, all, same) = builder_calls-build calls nodes' rest fits in
    (
      plan_node n ∷ ns,
      build_step (plan_node n) (plan_nodes nodes) ns (append_node-plan n nodes appended) ∙ built,
      (task_fits, all),
      ap suc same,
    )

task_type-AllFit :
    (nodes : List (TaskTreeNode TaskType)) (i : ℕ)
    → AllFit nodes
    → protocol_fits (task_type (compile nodes) i) ≡ true
unfolding task_type node_type compile protocol_fits is_void
task_type-AllFit [] i fits = refl
task_type-AllFit (n ∷ nodes) zero fits = fits.0
task_type-AllFit (n ∷ nodes) (suc i) fits = task_type-AllFit nodes i fits.1

-- What `compile_plan` returns.
record IsAccepted (built : Nodes) (plan : CompiledPlan TaskType) : Type 0 where
  compiled : plan ≡ compile (plan_nodes built)
  inhabited : 0 < length (plan_nodes built)
  valid : validate_plan plan ≡ Errors.ok

compile_tree-IsAccepted :
    (built : Nodes) {plan : CompiledPlan TaskType}
    → compile_tree built ≡ some plan
    → IsAccepted built plan
unfolding compile_tree plan_ok
compile_tree-IsAccepted [] e = cc
compile_tree-IsAccepted (n ∷ nodes) e =
    let (checked, same) =
      if-eq-some
        (plannable_plan_nodes (n ∷ nodes)
          && plan_ok (validate_plan (compile (plan_nodes (n ∷ nodes)))))
        e in
    record { compiled = cc; inhabited = omega arith; valid = ground (arith, checked, same) }

-- A tree that a chain of calls has built and that `compile_plan` accepts.
pub record IsPlanned (calls : List BuilderCall) (built : Nodes) (plan : CompiledPlan TaskType)
    : Type 0 where
  pub compiled : plan ≡ compile (plan_nodes built)
  pub levels : HasLevelSequence (plan_nodes built)
  pub inhabited : 0 < length (plan_nodes built)
  pub one_each : length (plan_nodes built) ≡ length calls
  pub valid : validate_plan plan ≡ Errors.ok
  pub protocols : (i : ℕ) → protocol_fits (task_type plan i) ≡ true

-- A chain of calls of `root`, `node` and their like, with callables, member functions and task objects, on the empty
-- builder, each of which compiles, and whose tree `compile_plan` accepts: the tree has one node for each
-- call and at least one, its levels begin with 0, stay above 0 after it and grow by at most 1, the plan passes
-- `validate_plan`, and in it every task fits its output protocol, when the task objects among the arguments do.
pub builder_calls-plan :
    (calls : List BuilderCall) {built : Nodes} {plan : CompiledPlan TaskType}
    → builder_calls [] calls ≡ some built
    → compile_tree built ≡ some plan
    → ObjectsFit calls
    → IsPlanned calls built plan
builder_calls-plan calls {built} {plan} e compiled fits =
    let (ns, made, all, same) = builder_calls-build calls [] e fits in
    let (levels, order) = build-HasLevelSequence ns made in
    let accepted = compile_tree-IsAccepted built compiled in
    record {
      compiled = accepted.compiled;
      levels = levels;
      inhabited = accepted.inhabited;
      one_each = ap length order ∙ same;
      valid = accepted.valid;
      protocols = λ i. rw (accepted.compiled, order) (task_type-AllFit ns i all);
    }
