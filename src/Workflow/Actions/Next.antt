-- ===== src/Workflow/Actions/Next.antt =====
-- The next action against the guards.
use trinetra_systems.Common.{true, false, [], none, some, ◌≡◌, ◌≢◌, ◌⊎◌, arith}
use trinetra_systems.Transaction.Status.{TransactionStatus, status_eq}
use trinetra_systems.Workflow.Snapshot.{WorkflowSnapshot}
use trinetra_systems.Workflow.Steps.{
  UnloadingStatus, WorkflowProgressContext, remaining_approval_steps,
}
use trinetra_systems.Workflow.Steps.Approvals.{remaining-eq-nil_iff}
use trinetra_systems.Workflow.Guards.{
  needs_material_review, assert_can_assign_unloading, assert_can_start_unloading,
  assert_can_finalize,
}
use trinetra_systems.Workflow.Guards.Finalize.{
  needs_material_review-eq-false_iff, assert_can_finalize-eq-none_iff,
}
use trinetra_systems.Workflow.Guards.Unloading.{
  IsClearedForUnloading, assert_can_assign_unloading-eq-none_iff,
  assert_can_start_unloading-eq-none_iff,
}
use trinetra_systems.Workflow.Actions.{
  ActionCode, next_after_approval, next_in_workflow, resolve_next_action,
}

-- The branch that is reached once nothing before the unloading is missing.
record IsPastApproval (context : WorkflowProgressContext) : Type 0 where
  still_open : context.is_completed ≡ false
  not_completed : context.status ≢ TransactionStatus.completed
  not_arrived : context.status ≢ TransactionStatus.arrived
  unrejected : context.status ≢ TransactionStatus.rejected
  not_rejected : context.rejected_step_sort_orders ≡ []
  vehicle : context.has_vehicle ≡ true
  gross : context.has_gross ≡ true
  snapshot : WorkflowSnapshot
  applied : context.snapshot ≡ some snapshot
  reviewed : needs_material_review snapshot ≡ false
  remaining : remaining_approval_steps context.snapshot context ≡ []

resolve_next_action_past_approval :
    (context : WorkflowProgressContext)
    → IsPastApproval context
    → resolve_next_action context ≡ next_after_approval context
unfolding resolve_next_action next_in_workflow
resolve_next_action_past_approval context p = ground arith

IsCleared-IsPastApproval :
    (context : WorkflowProgressContext)
    → IsClearedForUnloading context
    → context.is_completed ≡ false
    → (context.status ≡ TransactionStatus.approved)
      ⊎ (context.status ≡ TransactionStatus.first_weighment)
    → IsPastApproval context
IsCleared-IsPastApproval context c o s = record {
  still_open = o;
  not_completed = ground arith;
  not_arrived = ground arith;
  unrejected = ground arith;
  not_rejected = c.not_rejected;
  vehicle = c.vehicle;
  gross = c.gross;
  snapshot = c.snapshot;
  applied = c.applied;
  reviewed = (needs_material_review-eq-false_iff c.snapshot).1 c.reviewed;
  remaining = simp c.applied ((remaining-eq-nil_iff c.snapshot context).1 c.approved);
}

next_after_approval_start :
    (context : WorkflowProgressContext)
    → context.status ≢ TransactionStatus.exception
    → context.tare_exceeds_gross ≡ false
    → context.has_unloading_point ≡ true
    → context.unloading_status ≢ some UnloadingStatus.in_progress
    → context.unloading_status ≢ some UnloadingStatus.completed
    → (next_after_approval context).code ≡ ActionCode.start_unloading
unfolding next_after_approval
next_after_approval_start context e t p i c = ground arith

next_after_approval_assign :
    (context : WorkflowProgressContext)
    → context.status ≢ TransactionStatus.exception
    → context.tare_exceeds_gross ≡ false
    → context.has_unloading_point ≡ false
    → (next_after_approval context).code ≡ ActionCode.assign_unloading
unfolding next_after_approval
next_after_approval_assign context e t p = ground arith

next_after_approval_finalize :
    (context : WorkflowProgressContext)
    → context.status ≢ TransactionStatus.exception
    → context.tare_exceeds_gross ≡ false
    → context.has_unloading_point ≡ true
    → context.has_tare ≡ true
    → context.unloading_status ≡ some UnloadingStatus.completed
    → (next_after_approval context).code ≡ ActionCode.finalize
unfolding next_after_approval
next_after_approval_finalize context e t p h c = ground arith

-- An open transaction without a weight exception whose unloading may start is told to start it.
pub next_of_start :
    (context : WorkflowProgressContext)
    → assert_can_start_unloading context ≡ none
    → context.is_completed ≡ false
    → context.tare_exceeds_gross ≡ false
    → (resolve_next_action context).code ≡ ActionCode.start_unloading
next_of_start context h o t =
    let (s, c, p, i, d) = (assert_can_start_unloading-eq-none_iff context).0 h in
    rw (resolve_next_action_past_approval context (IsCleared-IsPastApproval context c o s))
      (next_after_approval_start context (ground arith) t p i d)

-- An open transaction without a weight exception that may be assigned a point and has none is told
-- to assign one.
pub next_of_assign :
    (context : WorkflowProgressContext)
    → assert_can_assign_unloading context ≡ none
    → context.is_completed ≡ false
    → context.tare_exceeds_gross ≡ false
    → context.has_unloading_point ≡ false
    → (resolve_next_action context).code ≡ ActionCode.assign_unloading
next_of_assign context h o t p =
    let (s, c, i, d) = (assert_can_assign_unloading-eq-none_iff context).0 h in
    rw (resolve_next_action_past_approval context (IsCleared-IsPastApproval context c o s))
      (next_after_approval_assign context (ground arith) t p)

-- A transaction with an unloading point that may be finalized is told to finalize.
pub next_of_finalize :
    (context : WorkflowProgressContext)
    → assert_can_finalize context ≡ none
    → context.has_unloading_point ≡ true
    → (resolve_next_action context).code ≡ ActionCode.finalize
next_of_finalize context h p =
    let r = (assert_can_finalize-eq-none_iff context).0 h in
    let status : context.status ≡ TransactionStatus.second_weighment = r.status in
    let past : IsPastApproval context = record {
      still_open = r.still_open;
      not_completed = ground arith;
      not_arrived = ground arith;
      unrejected = ground arith;
      not_rejected = r.not_rejected;
      vehicle = r.vehicle;
      gross = r.gross;
      snapshot = r.snapshot;
      applied = r.applied;
      reviewed = (needs_material_review-eq-false_iff r.snapshot).1 r.reviewed;
      remaining = simp r.applied ((remaining-eq-nil_iff r.snapshot context).1 r.approved);
    } in
    rw (resolve_next_action_past_approval context past)
      (next_after_approval_finalize context (ground arith) r.no_exception p r.tare r.unloaded)
