-- ===== src/Executor/Recursive.antt =====
-- include/yorch/detail/executor/serial_dfs.hpp: depth-first execution by recursion. The C++
-- functions recurse over template indices; here each call costs one unit of fuel.
use yorch.Base.{ℕ, zero, suc, Bool, not, Option, none, some, ◌==◌, if◌then◌else◌, ◌>>=◌}
use yorch.Result.{StepStatus, success, ok, is_abort_branch}
use yorch.Executor.Interface.{Invokers}

module _ {S : Type 0} (inv : Invokers S) where
  open inv use {
    child_count, child_index, enter_node, destroy_payload, prepare_fanout, destroy_fanout,
  }

  -- The destructor of `node_slot_guard`, armed when the payload is live.
  abbrev pub release_slot : ℕ → Bool → StepStatus × S → StepStatus × S
  release_slot i armed (r, s) = (r, if armed then destroy_payload i s else s)

  -- The destructor of `node_fanout_guard`, armed in the call with ordinal 0.
  abbrev pub release_fanout : ℕ → ℕ → StepStatus × S → StepStatus × S
  release_fanout i ord (r, s) = (r, if ord == 0 then destroy_fanout i s else s)

  abbrev pub begin_children : ℕ → ℕ → S → S
  begin_children i ord s = if ord == 0 then prepare_fanout i s else s

  -- What `run_children` does with a child's result: `rest` is the call for the next ordinal.
  abbrev pub after_child : (S → Option (StepStatus × S)) → StepStatus × S → Option (StepStatus × S)
  after_child rest (r, s) =
      if is_abort_branch r then rest s else if not (ok r) then some (r, s) else rest s

  unfoldable mutual
    pub run_node : ℕ → ℕ → S → Option (StepStatus × S)
    run_node zero i s = none
    run_node (suc f) i s =
        let (entered, s') = enter_node i s in
        let children = run_children f i 0 s' in
        if not (ok entered.step)
        then some (entered.step, s')
        else (children >>= λ r. some (release_slot i entered.payload_live r))

    pub run_children : ℕ → ℕ → ℕ → S → Option (StepStatus × S)
    run_children zero i ord s = none
    run_children (suc f) i ord s =
        let s' = begin_children i ord s in
        let child = run_node f (child_index i ord) s' in
        let visited = child >>= after_child (run_children f i (suc ord)) in
        (if ord == child_count i then some (success, s') else visited) >>= λ r.
        some (release_fanout i ord r)
