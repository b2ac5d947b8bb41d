-- ===== src/Builder/Runs.antt =====
-- Runs of the plans of trees that builder calls have made.
use yorch.Base.{◌≡◌, ◌≤◌, some, List, [], length, subst, sym}
use yorch.Task.{TaskType}
use yorch.Tree.{TaskTreeNode}
use yorch.SlotLayout.{no_physical_slot}
use yorch.SlotLayout.Plans.{is_payload_node}
use yorch.Slots.Cleanup.{IsPending}
use yorch.Storage.Compact.{compact_ops, compact_view}
use yorch.Plan.Compiled.{CompiledPlan}
use yorch.Validation.Errors
use yorch.Validation.Errors.{validate_plan}
use yorch.Run.{TaskBodies}
use yorch.Run.Contract.{KeepsContract, KeepsTypes, KeepsTypes-KeepsContract}
use yorch.Run.Safety.{EndsIdle}
use yorch.Run.Layouts.{compact_index, compact_policies, fresh_compact, compact_run-IsIdle}
use yorch.Builder.Calls.{Nodes, BuilderCall, builder_calls}
use yorch.Builder.Plans.{plan_nodes, compile_tree, ObjectsFit, builder_calls-plan}

-- A run on the compact storage of a plan, from default-constructed slots and stages, ends idle.
abbrev pub EndsCompact :
    {V World : Type 0} (nodes : List (TaskTreeNode TaskType)) (plan : CompiledPlan TaskType)
    (bodies : TaskBodies V World) (world : World)
    → Type 0
EndsCompact nodes plan bodies world =
    EndsIdle nodes (compact_ops (is_payload_node plan) (compact_index plan) (compact_policies plan))
      bodies
      (IsPending (is_payload_node plan) (compact_index plan) (compact_policies plan) plan.node_count
        0)
      (compact_view (is_payload_node plan) (compact_index plan)) (fresh_compact world)

-- From builder calls to the end of a run: when each of at most 2^64 - 1 calls compiles, `compile_plan` accepts
-- their tree, and the task objects among the arguments fit their protocols, then a run of the plan on the
-- compact storage, from default-constructed slots and stages, with task bodies that keep
-- their contract (results of the declared types, a value in a `task_result` that succeeds, in a sink one payload
-- at most and one after a success):
-- the recursive executor returns, the heap-stack executor, given enough fuel, ends with the same status and
-- state, no assertion fails, no object's lifetime is started or ended twice, and in the end every
-- payload and every staged copy is destroyed.
pub builder_calls-EndsIdle :
    {V World : Type 0} (calls : List BuilderCall) {built : Nodes} {plan : CompiledPlan TaskType}
    (bodies : TaskBodies V World) (world : World)
    → builder_calls [] calls ≡ some built
    → compile_tree built ≡ some plan
    → ObjectsFit calls
    → length calls ≤ no_physical_slot
    → KeepsTypes plan bodies
    → EndsCompact (plan_nodes built) plan bodies world
builder_calls-EndsIdle calls {built} {plan} bodies world e compiled fits small keeps =
    let planned = builder_calls-plan calls e compiled fits in
    let contract = KeepsTypes-KeepsContract planned.protocols keeps in
    let same = planned.compiled in
    subst (λ p. EndsCompact (plan_nodes built) p bodies world) (sym same)
      (compact_run-IsIdle (plan_nodes built) bodies world planned.levels planned.inhabited
        (rw planned.one_each small) (subst (λ p. validate_plan p ≡ Errors.ok) same planned.valid)
        (subst (λ p. KeepsContract p bodies) same contract))
