-- ===== src/Workflow/Guards/Unloading.antt =====
-- When unloading may be assigned, started and completed, and the tare recorded.
use trinetra_systems.Common.{
  includes_of_nil, true, false, [], none, some, ◌≡◌, ◌≢◌, ◌↔◌, ◌⊎◌, arith,
}
use trinetra_systems.Transaction.Status.{TransactionStatus, status_eq}
use trinetra_systems.Workflow.Snapshot.{
  WorkflowCapability, capability_eq, identification_eq, WorkflowSnapshot,
}
use trinetra_systems.Workflow.Steps.{
  UnloadingStatus, WorkflowProgressContext, remaining_approval_steps, unmet_required_steps,
}
use trinetra_systems.Workflow.Steps.Unmet.{StepsDoneBefore, unmet-eq-nil_iff}
use trinetra_systems.Workflow.Steps.Approvals.{remaining-eq-nil_iff}
use trinetra_systems.Workflow.Guards.{
  needs_material_review, unloading_steps_blockers, pre_unloading_blockers,
  assert_can_assign_unloading, assert_can_start_unloading,
}
use trinetra_systems.Workflow.Guards.Finalize.{
  IsReviewed, IsApproved, needs_material_review-eq-false_iff,
}

-- What unloading needs before it can start.
pub record IsClearedForUnloading (context : WorkflowProgressContext) : Type 0 where
  pub not_rejected : context.rejected_step_sort_orders ≡ []
  pub vehicle : context.has_vehicle ≡ true
  pub gross : context.has_gross ≡ true
  pub snapshot : WorkflowSnapshot
  pub applied : context.snapshot ≡ some snapshot
  pub reviewed : IsReviewed snapshot
  pub approved : IsApproved snapshot context
  pub steps_done : StepsDoneBefore snapshot WorkflowCapability.unload context

abbrev pub IsBeforeUnloading : WorkflowProgressContext → Type 0
IsBeforeUnloading context =
    (context.status ≡ TransactionStatus.approved)
    ⊎ (context.status ≡ TransactionStatus.first_weighment)

record Checks (context : WorkflowProgressContext) (snapshot : WorkflowSnapshot) : Type 0 where
  reviewed : needs_material_review snapshot ≡ false
  unmet : unmet_required_steps snapshot WorkflowCapability.unload context ≡ []
  remaining : remaining_approval_steps context.snapshot context ≡ []
  gross : context.has_gross ≡ true

unloading_steps_blockers-Checks :
    (context : WorkflowProgressContext) (snapshot : WorkflowSnapshot)
    → unloading_steps_blockers context snapshot ≡ none
    → Checks context snapshot
unfolding unloading_steps_blockers
unloading_steps_blockers-Checks context snapshot h = ground arith

Checks-unloading_steps_blockers :
    (context : WorkflowProgressContext) (snapshot : WorkflowSnapshot)
    → IsBeforeUnloading context
    → Checks context snapshot
    → unloading_steps_blockers context snapshot ≡ none
unfolding unloading_steps_blockers
Checks-unloading_steps_blockers context snapshot s h =
    let none_unmet =
      includes_of_nil (unmet_required_steps snapshot WorkflowCapability.unload context) in
    ground (
      arith,
      none_unmet WorkflowCapability.verify_documents h.unmet,
      none_unmet WorkflowCapability.capture_documents h.unmet,
      none_unmet WorkflowCapability.classify_material h.unmet,
      none_unmet WorkflowCapability.first_weighment h.unmet,
      none_unmet WorkflowCapability.approval h.unmet,
    )

record Opening (context : WorkflowProgressContext) : Type 0 where
  not_rejected : context.rejected_step_sort_orders ≡ []
  vehicle : context.has_vehicle ≡ true
  applied :
      (snapshot : WorkflowSnapshot) × (context.snapshot ≡ some snapshot)
      × (unloading_steps_blockers context snapshot ≡ none)

pre_unloading_blockers-Opening :
    (context : WorkflowProgressContext) → pre_unloading_blockers context ≡ none → Opening context
unfolding pre_unloading_blockers
pre_unloading_blockers-Opening context h = ground arith

Opening-pre_unloading_blockers :
    (context : WorkflowProgressContext)
    → IsBeforeUnloading context
    → Opening context
    → pre_unloading_blockers context ≡ none
unfolding pre_unloading_blockers
Opening-pre_unloading_blockers context s h = ground arith

pre_unloading_blockers-IsCleared :
    (context : WorkflowProgressContext)
    → pre_unloading_blockers context ≡ none
    → IsClearedForUnloading context
pre_unloading_blockers-IsCleared context h =
    let o = pre_unloading_blockers-Opening context h in
    let (snapshot, applied, passed) = o.applied in
    let c = unloading_steps_blockers-Checks context snapshot passed in
    let remaining : remaining_approval_steps (some snapshot) context ≡ [] =
      rw (← applied) c.remaining in
    record {
      not_rejected = o.not_rejected;
      vehicle = o.vehicle;
      gross = c.gross;
      snapshot = snapshot;
      applied = applied;
      reviewed = (needs_material_review-eq-false_iff snapshot).0 c.reviewed;
      approved = (remaining-eq-nil_iff snapshot context).0 remaining;
      steps_done = (unmet-eq-nil_iff snapshot WorkflowCapability.unload context).0 c.unmet;
    }

IsCleared-pre_unloading_blockers :
    (context : WorkflowProgressContext)
    → IsBeforeUnloading context
    → IsClearedForUnloading context
    → pre_unloading_blockers context ≡ none
IsCleared-pre_unloading_blockers context s r =
    let checks : Checks context r.snapshot = record {
      reviewed = (needs_material_review-eq-false_iff r.snapshot).1 r.reviewed;
      unmet = (unmet-eq-nil_iff r.snapshot WorkflowCapability.unload context).1 r.steps_done;
      remaining = simp r.applied ((remaining-eq-nil_iff r.snapshot context).1 r.approved);
      gross = r.gross;
    } in
    Opening-pre_unloading_blockers context s (record {
      not_rejected = r.not_rejected;
      vehicle = r.vehicle;
      applied =
          (r.snapshot, r.applied, Checks-unloading_steps_blockers context r.snapshot s checks);
    })

abbrev pub StartParts : WorkflowProgressContext → Type 0
StartParts context =
    IsBeforeUnloading context
    × (pre_unloading_blockers context ≡ none)
    × (context.has_unloading_point ≡ true)
    × (context.unloading_status ≢ some UnloadingStatus.in_progress)
    × (context.unloading_status ≢ some UnloadingStatus.completed)

pub start-StartParts :
    (context : WorkflowProgressContext)
    → assert_can_start_unloading context ≡ none
    → StartParts context
unfolding assert_can_start_unloading
start-StartParts context h = ground arith

StartParts-start :
    (context : WorkflowProgressContext)
    → StartParts context
    → assert_can_start_unloading context ≡ none
unfolding assert_can_start_unloading
StartParts-start context h = ground arith

-- Unloading may start exactly when the transaction is approved or first weighed, is cleared for
-- unloading, has an unloading point, and its unloading is neither in progress nor completed.
pub assert_can_start_unloading-eq-none_iff :
    (context : WorkflowProgressContext)
    → (assert_can_start_unloading context ≡ none) ↔ (
        IsBeforeUnloading context
        × IsClearedForUnloading context
        × (context.has_unloading_point ≡ true)
        × (context.unloading_status ≢ some UnloadingStatus.in_progress)
        × (context.unloading_status ≢ some UnloadingStatus.completed))
assert_can_start_unloading-eq-none_iff context = (
  (λ h.
      let (s, blockers, p, i, c) = start-StartParts context h in
      (s, pre_unloading_blockers-IsCleared context blockers, p, i, c)),
  (λ (s, r, p, i, c).
      StartParts-start context (s, IsCleared-pre_unloading_blockers context s r, p, i, c)),
)

abbrev pub AssignParts : WorkflowProgressContext → Type 0
AssignParts context =
    IsBeforeUnloading context
    × (pre_unloading_blockers context ≡ none)
    × (context.unloading_status ≢ some UnloadingStatus.in_progress)
    × (context.unloading_status ≢ some UnloadingStatus.completed)

pub assign-AssignParts :
    (context : WorkflowProgressContext)
    → assert_can_assign_unloading context ≡ none
    → AssignParts context
unfolding assert_can_assign_unloading
assign-AssignParts context h = ground arith

AssignParts-assign :
    (context : WorkflowProgressContext)
    → AssignParts context
    → assert_can_assign_unloading context ≡ none
unfolding assert_can_assign_unloading
AssignParts-assign context h = ground arith

-- A point may be assigned exactly when the transaction is approved or first weighed, is cleared
-- for unloading, and its unloading is neither in progress nor completed.
pub assert_can_assign_unloading-eq-none_iff :
    (context : WorkflowProgressContext)
    → (assert_can_assign_unloading context ≡ none) ↔ (
        IsBeforeUnloading context
        × IsClearedForUnloading context
        × (context.unloading_status ≢ some UnloadingStatus.in_progress)
        × (context.unloading_status ≢ some UnloadingStatus.completed))
assert_can_assign_unloading-eq-none_iff context = (
  (λ h.
      let (s, blockers, i, c) = assign-AssignParts context h in
      (s, pre_unloading_blockers-IsCleared context blockers, i, c)),
  (λ (s, r, i, c).
      AssignParts-assign context (s, IsCleared-pre_unloading_blockers context s r, i, c)),
)
