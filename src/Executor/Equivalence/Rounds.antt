-- ===== src/Executor/Equivalence/Rounds.antt =====
-- Rounds of `run_explicit_heap_stack_loop` (serial_dfs_explicit_heap_stack.hpp), frame by frame.
use yorch.Base.{
  ℕ, suc, ◌≡◌, refl, Bool, true, false, inl, inr, List, ◌∷◌, some, ◌==◌, ◌||◌, Bool-cases, arith,
}
use yorch.Result.{StepStatus, success, ok, is_abort_branch}
use yorch.Executor.Interface.{Invokers, IsLawful}
use yorch.Executor.HeapStack.{
  DfsStackFrame, Config, Outcome, continue, returned, new_frame, descend, visit, enter_frame,
  destroy_frame, resume, loop_round, loop,
}
use yorch.Executor.Equivalence.Runs.{cleanup}

-- Rounds of the loop lead from one outcome to another.
pub data Leads {S : Type 0} (inv : Invokers S) : Outcome S → Outcome S → Type 0 where
  here : {o : Outcome S} → Leads inv o o
  more : {c : Config S} {o : Outcome S} → Leads inv (loop_round inv c) o → Leads inv (continue c) o

pub Leads-trans :
    {S : Type 0} {inv : Invokers S} {a b c : Outcome S}
    → Leads inv a b
    → Leads inv b c
    → Leads inv a c
Leads-trans here q = q
Leads-trans (more p) q = more (Leads-trans p q)

-- A run of the loop that ends is a fuel with which `loop` returns.
pub Leads-loop :
    {S : Type 0} {inv : Invokers S} {o : Outcome S} (r : StepStatus) (s : S)
    → Leads inv o (returned r s)
    → (fuel : ℕ) × (loop inv fuel o ≡ some (r, s))
unfolding loop
Leads-loop r s here = (0, refl)
Leads-loop r s (more p) = let (fuel, e) = Leads-loop r s p in (suc fuel, e)

module _ {S : Type 0} (inv : Invokers S) where
  open inv use {
    child_count, child_index, requires_fanout_staging, enter_node, destroy_payload, prepare_fanout,
    destroy_fanout,
  }

  -- A frame whose node has been entered and whose staging, if any, is prepared.
  abbrev pub frame_at : ℕ → ℕ → Bool → DfsStackFrame
  frame_at i ord live = record {
    node_index = i;
    next_child_ordinal = ord;
    entered = true;
    payload_live = live;
    requires_fanout_staging = requires_fanout_staging i;
    fanout_prepared = requires_fanout_staging i;
  }

  abbrev pub config : List DfsStackFrame → StepStatus → Bool → S → Config S
  config frames current complete s = record {
    frames = frames;
    current_step = current;
    subtree_complete = complete;
    state = s;
  }

  abbrev pub going : List DfsStackFrame → StepStatus → Bool → S → Outcome S
  going frames current complete s = continue (config frames current complete s)

  complete-Leads :
      (frame : DfsStackFrame) (below : List DfsStackFrame) (r : StepStatus) (s : S)
      → Leads inv (going (frame ∷ below) r true s) (resume inv below r (destroy_frame inv frame s))
  unfolding loop_round
  complete-Leads frame below r s = more here

  visit-frame_at :
      (i ord : ℕ) (live : Bool) (below : List DfsStackFrame) (current : StepStatus) (s : S)
      → visit inv (frame_at i ord live) below current s
        ≡ descend inv (frame_at i ord live) below current s
  unfolding visit
  visit-frame_at i ord live below current s = elim (Bool-cases (requires_fanout_staging i)) [
    | inl e ↦ rw e
    | inr e ↦ rw e
  ]

  pub step-Leads :
      {c : Config S} {a o : Outcome S}
      → loop_round inv c ≡ a
      → Leads inv a o
      → Leads inv (continue c) o
  step-Leads e p = more (rw e p)

  round-frame_at :
      (i ord : ℕ) (live : Bool) (below : List DfsStackFrame) (current : StepStatus) (s : S)
      → loop_round inv (config (frame_at i ord live ∷ below) current false s)
        ≡ descend inv (frame_at i ord live) below current s
  unfolding loop_round
  round-frame_at = visit-frame_at

  -- A child that succeeds or aborts its branch hands over to the next ordinal.
  resume_last :
      (i ord : ℕ) (live : Bool) (below : List DfsStackFrame) (r : StepStatus) (s : S)
      → (ok r || is_abort_branch r) ≡ true
      → (suc ord == child_count i) ≡ true
      → resume inv (frame_at i ord live ∷ below) r s
        ≡ descend inv (frame_at i (suc ord) live) below r s
  unfolding resume descend
  resume_last i ord live below r s goes_on last = rw (goes_on, last)

  resume_inner :
      (i ord : ℕ) (live : Bool) (below : List DfsStackFrame) (r : StepStatus) (s : S)
      → (ok r || is_abort_branch r) ≡ true
      → (suc ord == child_count i) ≡ false
      → resume inv (frame_at i ord live ∷ below) r s
        ≡ going (frame_at i (suc ord) live ∷ below) r false s
  unfolding resume
  resume_inner i ord live below r s goes_on inner = rw (goes_on, inner)

  pub resume-Leads :
      (i ord : ℕ) (live : Bool) (below : List DfsStackFrame) (r : StepStatus) (s : S)
      (o : Outcome S)
      → (ok r || is_abort_branch r) ≡ true
      → Leads inv (descend inv (frame_at i (suc ord) live) below r s) o
      → Leads inv (resume inv (frame_at i ord live ∷ below) r s) o
  resume-Leads i ord live below r s o goes_on next = elim (Bool-cases (suc ord == child_count i)) [
    | inl last ↦ rw (resume_last i ord live below r s goes_on last) next
    | inr inner ↦
        rw (resume_inner i ord live below r s goes_on inner)
          (step-Leads (round-frame_at i (suc ord) live below r s) next)
  ]

  pub resume_stop :
      (frame : DfsStackFrame) (below : List DfsStackFrame) (r : StepStatus) (s : S)
      → (ok r || is_abort_branch r) ≡ false
      → resume inv (frame ∷ below) r s ≡ going (frame ∷ below) r true s
  unfolding resume
  resume_stop frame below r s stops = rw stops

  destroy-frame_at :
      (i ord : ℕ) (live : Bool) (s : S)
      → destroy_frame inv (frame_at i ord live) s ≡ cleanup inv i live s
  unfolding destroy_frame cleanup
  destroy-frame_at i ord live s = elim (Bool-cases (requires_fanout_staging i)) [
    | inl e ↦ rw e
    | inr e ↦ rw e
  ]

  pub finish-Leads :
      (i ord : ℕ) (live : Bool) (below : List DfsStackFrame) (r : StepStatus) (s : S)
      → Leads inv
          (going (frame_at i ord live ∷ below) r true s)
          (resume inv below r (cleanup inv i live s))
  finish-Leads i ord live below r s =
      rw (← destroy-frame_at i ord live s) (complete-Leads (frame_at i ord live) below r s)

  -- The first round on a frame, for a node that fails and for one that succeeds.
  abbrev failed_frame : ℕ → DfsStackFrame
  failed_frame i = record (new_frame inv i) { entered = true }

  round_failed :
      (lawful : IsLawful inv) (i : ℕ) (below : List DfsStackFrame) (current : StepStatus) (s : S)
      → ok (enter_node i s).0.step ≡ false
      → loop_round inv (config (new_frame inv i ∷ below) current false s)
        ≡ going (failed_frame i ∷ below) (enter_node i s).0.step true (enter_node i s).1
  unfolding loop_round enter_frame
  round_failed lawful i below current s failed = rw (failed, lawful.live_ok i s failed)

  destroy-failed_frame : (i : ℕ) (s : S) → destroy_frame inv (failed_frame i) s ≡ s
  unfolding destroy_frame
  destroy-failed_frame i s = ground arith

  pub round_passed :
      (lawful : IsLawful inv) (i : ℕ) (below : List DfsStackFrame) (current : StepStatus) (s : S)
      → ok (enter_node i s).0.step ≡ true
      → loop_round inv (config (new_frame inv i ∷ below) current false s)
        ≡ descend inv
            (frame_at i 0 (enter_node i s).0.payload_live)
            below
            current
            (prepare_fanout i (enter_node i s).1)
  unfolding loop_round enter_frame visit
  round_passed lawful i below current s passed = elim (Bool-cases (requires_fanout_staging i)) [
    | inl e ↦ rw (passed, e)
    | inr e ↦ rw (passed, e, lawful.prepare_unstaged i (enter_node i s).1 e)
  ]

  pub descend_last :
      (i ord : ℕ) (live : Bool) (below : List DfsStackFrame) (current : StepStatus) (s : S)
      → (ord == child_count i) ≡ true
      → descend inv (frame_at i ord live) below current s
        ≡ going (frame_at i ord live ∷ below) success true s
  unfolding descend
  descend_last i ord live below current s last = rw last

  pub descend_inner :
      (i ord : ℕ) (live : Bool) (below : List DfsStackFrame) (current : StepStatus) (s : S)
      → (ord == child_count i) ≡ false
      → descend inv (frame_at i ord live) below current s
        ≡ going (new_frame inv (child_index i ord) ∷ frame_at i ord live ∷ below) current false s
  unfolding descend
  descend_inner i ord live below current s inner = rw inner

  pub failed-Leads :
      (lawful : IsLawful inv) (i : ℕ) (below : List DfsStackFrame) (current : StepStatus) (s : S)
      → ok (enter_node i s).0.step ≡ false
      → Leads inv
          (going (new_frame inv i ∷ below) current false s)
          (resume inv below (enter_node i s).0.step (enter_node i s).1)
  failed-Leads lawful i below current s failed =
      step-Leads (round_failed lawful i below current s failed) (
        rw (destroy-failed_frame i (enter_node i s).1) at
          (complete-Leads (failed_frame i) below (enter_node i s).0.step (enter_node i s).1))
