-- ===== src/Executor/Interface.antt =====
-- What the two depth-first executors ask of a plan: the child tables of `compiled_plan`, and the
-- per-node operations that both reach through templates or dispatch tables
-- (include/yorch/detail/executor/serial_dfs_explicit_heap_stack.hpp, the parameters of
-- `run_explicit_heap_stack_loop`; include/yorch/detail/executor/node_entry.hpp).
use yorch.Base.{ℕ, ◌≡◌, Bool, false}
use yorch.Result.{StepStatus, ok}

pub record NodeEnterResult : Type 0 where
  pub step : StepStatus
  pub payload_live : Bool

-- `S` is all that the operations can change: slots, staging, task objects and context.
pub record Invokers (S : Type 0) : Type 0 where
  pub child_count : ℕ → ℕ
  pub child_index : ℕ → ℕ → ℕ
  pub requires_fanout_staging : ℕ → Bool
  pub enter_node : ℕ → S → NodeEnterResult × S
  pub destroy_payload : ℕ → S → S
  pub prepare_fanout : ℕ → S → S
  pub destroy_fanout : ℕ → S → S

-- What the executors rely on: a node that does not succeed leaves no live payload, and staging
-- does nothing at a node that requires none.
pub record IsLawful {S : Type 0} (inv : Invokers S) : Type 0 where
  pub live_ok :
      (i : ℕ) (s : S)
      → ok (inv.enter_node i s).0.step ≡ false
      → (inv.enter_node i s).0.payload_live ≡ false
  pub prepare_unstaged :
      (i : ℕ) (s : S) → inv.requires_fanout_staging i ≡ false → inv.prepare_fanout i s ≡ s
  pub destroy_unstaged :
      (i : ℕ) (s : S) → inv.requires_fanout_staging i ≡ false → inv.destroy_fanout i s ≡ s
