-- ===== src/Lib.antt =====
-- YOrch builds a tree of tasks, compiles it into a plan and runs the plan depth first: a task may read
-- the output of its direct parent, and a status that it returns decides how the run goes on. This
-- library models the parts that decide correctness.
--
-- - Result: include/yorch/result.hpp, the statuses and results of tasks.
-- - Task, Task/Access, Task/Policy, Task/Output: the traits of task types in
--   include/yorch/detail/task/traits.hpp, plan/traits.hpp, detail/executor/prev_access_specs.hpp and
--   prev_access_task_traits.hpp. A C++ type is a number, `none` is void, and a task's type is a record
--   that says how it is bound and adapted, what it returns and which output protocol it declares.
-- - Tree, Tree/Levels: the nodes of the builder and the levels at which one may be appended
--   (include/yorch/detail/task_tree/metadata.hpp).
-- - Bind and its children: include/yorch/detail/bind/traits.hpp, detail/bind/tasks/validate.hpp and
--   forward_prev.hpp, bind/tasks/factories.hpp, bind/builders/core.hpp and bind/adapters.hpp. A callable is
--   its signature; `bind`, a binder and a chain of adapters are functions to the type of the task that
--   they make, and a call that does not compile is `none`; ForwardingCalls describes the calls of
--   `task_forward_prev` that do by their specs and parameters.
-- - Builder and its children: the overloads of `node`, `root` and their like and those that word compile
--   errors (include/yorch/detail/task_tree/builder_node_core_ordinary.hpp, builder_node_core_member.hpp,
--   builder_node_core_forward.hpp, builder_node_diagnostics.hpp and the files of `root`), the binders
--   in node_binder.hpp, and `compile_plan`. Overload resolution is the list of the overloads that apply,
--   of which there has to be one. Binder calls use Bind; Builder/Runs puts trees that are built this way
--   together with Run. Builder/Factories has the overloads of `task` and its like
--   (include/yorch/bind/builders/core.hpp, diagnostics.hpp).
-- - Plan and its children: include/yorch/plan/layout.hpp and compiled_plan.hpp. An array is a function
--   on indices, and a loop is a recursion on its rounds, so that `make_parent_index_array`,
--   `make_child_layout` and their loops are translated one by one. `size_t` wraps at 2^64 where the code
--   subtracts; the theorems take trees of at most 2^64 nodes.
-- - SlotLayout and its children: include/yorch/detail/slots/layout.hpp, the one-to-one and the compact
--   assignment of slots, and the size, alignment and policy of each physical slot.
-- - Slots and its children: include/yorch/detail/slots/erased_slot.hpp, slot_view.hpp and
--   include/yorch/slots/plan_exec_slots.hpp, the storage of the compact layout, and what the entry of a
--   node does with a result (detail/executor/result.hpp, node_entry.hpp). The bytes of a slot are
--   the object that lives in them, and an operation is `none` where an assertion fails or an object's
--   lifetime would begin or end twice.
-- - Storage and its children: what plan_exec_slots.hpp promises to the executor, as a record of operations
--   on nodes (`SlotOps`) with its laws over a map from nodes to payloads (`IsStorage`). Compact and
--   Typed are the two implementations, by erased and by typed slots (detail/slots/typed_slot.hpp);
--   Maybe is detail/storage/maybe_storage.hpp.
-- - Run and its children: a whole run of a plan. The state (`RunState`) holds the slots, the staged copies of
--   `plan_fanout_state` (detail/executor/fanout.hpp) and the world that tasks act on; `Run.Nodes` is
--   detail/executor/node_entry.hpp and the operations that both executors call on a node. Tasks are
--   parameters (`TaskBodies`): what they return, do to their sink and leave in a mutable reference is
--   arbitrary, up to `KeepsContract`: their output protocols fit, their results have the declared types,
--   a `task_result` that succeeds carries a value, and a sink holds at most one payload, which a
--   success has constructed. Where the program
--   would have no defined behaviour, the state is marked `faulted`. Tasks do not throw, since the
--   executors take `noexcept` tasks only; copying a payload into its stage and moving payloads, of which
--   the code does not ask that they are `noexcept`, are taken not to throw.
-- - Validation and its children: include/yorch/detail/executor/plan_validation.hpp,
--   prev_access_plan_validation.hpp and fanout.hpp, the conditions under which `run_plan` compiles.
--   Accepted, Accesses and Policies describe the plans that pass by their nodes, specs and children,
--   without the checks.
-- - Executor and its children: include/yorch/detail/executor/serial_dfs.hpp (Recursive) and
--   serial_dfs_explicit_heap_stack.hpp (HeapStack). Both take the per-node operations as the record
--   `Invokers`, as the loop of the second one does; the laws they need of it are `IsLawful`, which the
--   operations of Run fill. The
--   recursion runs on fuel, of which `n * (n + 2)` is enough for a plan of `n` nodes; the loop runs
--   on a number of rounds, of which some number is always enough. Destructors of guards are calls at the
--   end of the scope.
-- - Resolve and its children: include/yorch/resolve.hpp and what it asks of context.hpp: which argument a spec
--   gives from the view of the parent's output, the context or a stored value, and on which object a member
--   function is called (detail/bind/member_receiver.hpp). What the compiler says
--   of two types (`TypeRelations`) is a parameter. Values of type `std::reference_wrapper<T>` have a
--   function of their own, `resolve_reference`.
-- - Adapters and its children: include/yorch/task_adapters/retry.hpp and catch_as_failure.hpp. The retry
--   loops run on fuel, one unit for each attempt, and their counters wrap at 2^64; DirectRetry relates the
--   loop of a task with a sink to that on raw results.
-- - Examples: the theorems at concrete trees, plans and tasks, and whole runs, computed.
--
-- Not modelled: the tuple of a context's objects, how callables are stored and moved, what a bound task does
-- with the arguments it has resolved (task bodies are parameters), and what is computed of `noexcept`; and the examples, benchmarks and tests of the repository.
pub mod Base
pub mod Result
pub mod Task
pub mod Tree
pub mod Plan
pub mod SlotLayout
pub mod Slots
pub mod Storage
pub mod Resolve
pub mod Run
pub mod Bind
pub mod Builder
pub mod Adapters
pub mod Executor
pub mod Validation
pub mod Examples
