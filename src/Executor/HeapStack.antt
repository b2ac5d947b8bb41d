-- ===== src/Executor/HeapStack.antt =====
-- include/yorch/detail/executor/serial_dfs_explicit_heap_stack.hpp: depth-first execution with the
-- frames of the active path on a heap-backed vector. The head of the list is the vector's back.
use yorch.Base.{
  ℕ, zero, suc, Bool, true, false, not, List, [], ◌∷◌, Option, none, some, ◌==◌, ◌&&◌, ◌||◌,
  if◌then◌else◌,
}
use yorch.Result.{StepStatus, success, ok, is_abort_branch}
use yorch.Executor.Interface.{Invokers}

pub record DfsStackFrame : Type 0 where
  pub node_index : ℕ
  pub next_child_ordinal : ℕ
  pub entered : Bool
  pub payload_live : Bool
  pub requires_fanout_staging : Bool
  pub fanout_prepared : Bool

-- The local variables of the loop, and the state that the invokers change.
pub record Config (S : Type 0) : Type 0 where
  pub frames : List DfsStackFrame
  pub current_step : StepStatus
  pub subtree_complete : Bool
  pub state : S

-- What one round of the loop does: go on, or return.
pub data Outcome (S : Type 0) : Type 0 where
  continue : Config S → Outcome S
  returned : StepStatus → S → Outcome S

module _ {S : Type 0} (inv : Invokers S) where
  open inv use {
    child_count, child_index, requires_fanout_staging, enter_node, destroy_payload, prepare_fanout,
    destroy_fanout,
  }

  -- `dfs_stack_frame {.node_index = i, .requires_fanout_staging = ...[i]}`.
  abbrev pub new_frame : ℕ → DfsStackFrame
  new_frame i = record {
    node_index = i;
    next_child_ordinal = 0;
    entered = false;
    payload_live = false;
    requires_fanout_staging = requires_fanout_staging i;
    fanout_prepared = false;
  }

  -- The end of the descending half: complete the subtree, or push the frame of the next child.
  unfoldable pub descend : DfsStackFrame → List DfsStackFrame → StepStatus → S → Outcome S
  descend frame below current s =
      if frame.next_child_ordinal == child_count frame.node_index
      then continue (record {
        frames = frame ∷ below;
        current_step = success;
        subtree_complete = true;
        state = s;
      })
      else continue (record {
        frames = new_frame (child_index frame.node_index frame.next_child_ordinal) ∷ frame ∷ below;
        current_step = current;
        subtree_complete = false;
        state = s;
      })

  -- The descending half from the staging on, for a frame whose node has been entered.
  unfoldable pub visit : DfsStackFrame → List DfsStackFrame → StepStatus → S → Outcome S
  unfolding descend
  visit frame below current s =
      if frame.requires_fanout_staging && not frame.fanout_prepared
      then descend (record frame { fanout_prepared = true }) below current
          (prepare_fanout frame.node_index s)
      else descend frame below current s

  -- The descending half on a new frame: run the node first.
  unfoldable pub enter_frame : DfsStackFrame → List DfsStackFrame → StepStatus → S → Outcome S
  unfolding visit
  enter_frame frame below current s =
      let (result, s') = enter_node frame.node_index s in
      let frame' = record frame { entered = true; payload_live = result.payload_live } in
      if not (ok result.step)
      then continue (record {
        frames = frame' ∷ below;
        current_step = result.step;
        subtree_complete = true;
        state = s';
      })
      else visit frame' below current s'

  -- What the frame that leaves the stack owns is destroyed: the staging first.
  unfoldable pub destroy_frame : DfsStackFrame → S → S
  destroy_frame finished s =
      let s' =
        if finished.requires_fanout_staging && finished.fanout_prepared
        then destroy_fanout finished.node_index s
        else s in
      if finished.payload_live then destroy_payload finished.node_index s' else s'

  -- After `pop_back`: the parent consumes the result of the finished subtree.
  unfoldable pub resume : List DfsStackFrame → StepStatus → S → Outcome S
  resume [] current s = returned current s
  resume (parent ∷ below) current s =
      let next = suc parent.next_child_ordinal in
      let parent' = record parent { next_child_ordinal = next } in
      if ok current || is_abort_branch current
      then (if next == child_count parent.node_index
          then continue (record {
            frames = parent' ∷ below;
            current_step = success;
            subtree_complete = true;
            state = s;
          })
          else continue (record {
            frames = parent' ∷ below;
            current_step = current;
            subtree_complete = false;
            state = s;
          }))
      else continue (record {
        frames = parent ∷ below;
        current_step = current;
        subtree_complete = true;
        state = s;
      })

  -- One evaluation of the loop's condition and body.
  round_on : List DfsStackFrame → Bool → StepStatus → S → Outcome S
  unfolding resume destroy_frame enter_frame
  round_on [] complete current s = returned current s
  round_on (frame ∷ below) true current s = resume below current (destroy_frame frame s)
  round_on (frame ∷ below) false current s =
      if frame.entered then visit frame below current s else enter_frame frame below current s

  unfoldable pub loop_round : Config S → Outcome S
  unfolding round_on
  loop_round c = round_on c.frames c.subtree_complete c.current_step c.state

  -- The `while` loop, `none` when the fuel has run out.
  unfoldable pub loop : ℕ → Outcome S → Option (StepStatus × S)
  unfolding loop_round
  loop fuel (returned current s) = some (current, s)
  loop zero (continue c) = none
  loop (suc fuel) (continue c) = loop fuel (loop_round c)

  -- The frame of the root, with which the loop begins.
  abbrev pub start : S → Outcome S
  start s = continue (record {
    frames = new_frame 0 ∷ [];
    current_step = success;
    subtree_complete = false;
    state = s;
  })

  -- `run_explicit_heap_stack_loop` on `fuel` rounds.
  unfoldable pub run_explicit_heap_stack : ℕ → S → Option (StepStatus × S)
  unfolding loop
  run_explicit_heap_stack fuel s = loop fuel (start s)
