-- ===== src/Task/Access/Laws.antt =====
-- What the summary of a task's accesses tells (prev_access_task_traits.hpp).
use yorch.Base.{Option, ◌<◌, ◌+◌, ◌≡◌, true, none, some, List, [], ◌∷◌, arith}
use yorch.Task.Access.{
  Spec, ArgType, MemberFunction, PrevAccessSummary, no_access, summarize_specs,
  summarize_prev_access_spec, merge_prev_access_summary, summarize_task_binding, TaskBinding,
  TaskForm, bound, custom, catch_failure, catch_failure_with_policy, retry, access_summary,
  access_valid, from_ctx,
}

-- The counters fit together: every access is of one kind, and the exclusive ones are two kinds.
pub record IsConsistent (s : PrevAccessSummary) : Type 0 where
  pub total :
      s.prev_access_count
      ≡ s.borrow_prev_count + s.borrow_prev_mut_count + s.copy_prev_count + s.consume_prev_count
  pub exclusive : s.exclusive_prev_access_count ≡ s.borrow_prev_mut_count + s.consume_prev_count

merge-spec-IsConsistent :
    (s : PrevAccessSummary) (spec : Spec)
    → IsConsistent s
    → IsConsistent (merge_prev_access_summary s (summarize_prev_access_spec spec))
unfolding merge_prev_access_summary summarize_prev_access_spec
merge-spec-IsConsistent s (from_ctx t) c = omega arith
merge-spec-IsConsistent s _ c = omega arith

summarize_specs-IsConsistent :
    (specs : List (Spec × ArgType)) (s : PrevAccessSummary)
    → IsConsistent s
    → IsConsistent (summarize_specs s specs)
unfolding summarize_specs
summarize_specs-IsConsistent [] s c = c
summarize_specs-IsConsistent ((spec, arg) ∷ specs) s c =
    summarize_specs-IsConsistent specs _ (merge-spec-IsConsistent s spec c)

no_access-IsConsistent : IsConsistent no_access
no_access-IsConsistent = omega arith

binding-IsConsistent : (b : TaskBinding) → IsConsistent (summarize_task_binding b)
unfolding summarize_task_binding
binding-IsConsistent b = from_receiver b.receiver
  where
    from_receiver :
        (r : Option (Spec × MemberFunction))
        → IsConsistent (summarize_task_binding (record b { receiver = r }))
    from_receiver none = summarize_specs-IsConsistent b.specs no_access no_access-IsConsistent
    from_receiver (some (spec, f)) =
        summarize_specs-IsConsistent b.specs _
          (merge-spec-IsConsistent no_access spec no_access-IsConsistent)

-- The counters of a task's accesses, through all adapters: the total is the sum over the four kinds,
-- and the exclusive ones are those that borrow mutably or consume.
pub access_summary-IsConsistent : (form : TaskForm) → IsConsistent (access_summary form)
unfolding access_summary
access_summary-IsConsistent custom = no_access-IsConsistent
access_summary-IsConsistent (bound b) = binding-IsConsistent b
access_summary-IsConsistent (catch_failure t) = access_summary-IsConsistent t
access_summary-IsConsistent (catch_failure_with_policy t) = access_summary-IsConsistent t
access_summary-IsConsistent (retry t) = access_summary-IsConsistent t

-- A valid task with exclusive access to its parent's output has this one access only: it neither
-- borrows nor copies the output besides.
access_valid-exclusive :
    (form : TaskForm)
    → access_valid form ≡ true
    → 0 < (access_summary form).exclusive_prev_access_count
    → ((access_summary form).prev_access_count ≡ 1)
      × ((access_summary form).borrow_prev_count ≡ 0)
      × ((access_summary form).copy_prev_count ≡ 0)
unfolding access_valid access_summary
access_valid-exclusive custom v h = absurd (omega arith)
access_valid-exclusive (bound b) v h =
    ground (arith, (binding-IsConsistent b).total, (binding-IsConsistent b).exclusive)
access_valid-exclusive (catch_failure t) v h = access_valid-exclusive t v h
access_valid-exclusive (catch_failure_with_policy t) v h = access_valid-exclusive t v h
access_valid-exclusive (retry t) v h = access_valid-exclusive t (ground arith) h

-- A task that is valid under a retry adapter consumes nothing.
pub access_valid-retry :
    (form : TaskForm)
    → access_valid (retry form) ≡ true
    → (access_summary form).consume_prev_count ≡ 0
unfolding access_valid
access_valid-retry form v = ground arith
