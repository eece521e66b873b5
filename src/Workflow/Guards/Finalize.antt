-- ===== src/Workflow/Guards/Finalize.antt =====
-- When a transaction may be finalized.
use trinetra_systems.Common.{
  includes_of_nil, true, false, [], none, some, ◌≡◌, ◌≢◌, ◌↔◌, ◌⊎◌, arith,
}
use trinetra_systems.Transaction.Status.{TransactionStatus, status_eq}
use trinetra_systems.Workflow.Snapshot.{
  WorkflowCapability, capability_eq, IdentificationStatus, identification_eq, WorkflowSnapshot,
}
use trinetra_systems.Workflow.Steps.{
  UnloadingStatus, WorkflowProgressContext, remaining_approval_steps, unmet_required_steps,
}
use trinetra_systems.Workflow.Steps.Unmet.{StepsDoneBefore, unmet-eq-nil_iff}
use trinetra_systems.Workflow.Steps.Approvals.{
  ContinuesAutomatically, ApprovalsGranted, remaining-eq-nil_iff,
}
use trinetra_systems.Workflow.Guards.{
  needs_material_review, finalize_steps_blockers, assert_can_finalize,
}

-- The material has been identified with certainty, or a person has verified it.
abbrev pub IsReviewed : WorkflowSnapshot → Type 0
IsReviewed snapshot =
    (snapshot.identification_status ≡ IdentificationStatus.matched) ⊎ (snapshot.verified ≡ true)

-- No approval is outstanding.
abbrev pub IsApproved : WorkflowSnapshot → WorkflowProgressContext → Type 0
IsApproved snapshot context =
    ContinuesAutomatically snapshot.config context.gross_weight
    ⊎ ApprovalsGranted snapshot context.approved_step_sort_orders

pub record IsReadyToFinalize (context : WorkflowProgressContext) : Type 0 where
  pub status : context.status ≡ TransactionStatus.second_weighment
  pub still_open : context.is_completed ≡ false
  pub no_exception : context.tare_exceeds_gross ≡ false
  pub not_rejected : context.rejected_step_sort_orders ≡ []
  pub vehicle : context.has_vehicle ≡ true
  pub gross : context.has_gross ≡ true
  pub tare : context.has_tare ≡ true
  pub net : context.net_weight ≢ none
  pub unloaded : context.unloading_status ≡ some UnloadingStatus.completed
  pub snapshot : WorkflowSnapshot
  pub applied : context.snapshot ≡ some snapshot
  pub reviewed : IsReviewed snapshot
  pub approved : IsApproved snapshot context
  pub steps_done : StepsDoneBefore snapshot WorkflowCapability.complete context

pub needs_material_review-eq-false_iff :
    (snapshot : WorkflowSnapshot) → (needs_material_review snapshot ≡ false) ↔ IsReviewed snapshot
needs_material_review-eq-false_iff snapshot = grind arith

-- what the part below the snapshot's test checks
record Checks (context : WorkflowProgressContext) (snapshot : WorkflowSnapshot) : Type 0 where
  reviewed : needs_material_review snapshot ≡ false
  unmet : unmet_required_steps snapshot WorkflowCapability.complete context ≡ []
  remaining : remaining_approval_steps context.snapshot context ≡ []
  unloaded : context.unloading_status ≡ some UnloadingStatus.completed
  gross : context.has_gross ≡ true
  tare : context.has_tare ≡ true
  net : context.net_weight ≢ none
  status : context.status ≡ TransactionStatus.second_weighment

finalize_steps_blockers-Checks :
    (context : WorkflowProgressContext) (snapshot : WorkflowSnapshot)
    → finalize_steps_blockers context snapshot ≡ none
    → Checks context snapshot
unfolding finalize_steps_blockers
finalize_steps_blockers-Checks context snapshot h = ground arith

Checks-finalize_steps_blockers :
    (context : WorkflowProgressContext) (snapshot : WorkflowSnapshot)
    → Checks context snapshot
    → finalize_steps_blockers context snapshot ≡ none
unfolding finalize_steps_blockers
Checks-finalize_steps_blockers context snapshot h =
    let none_unmet =
      includes_of_nil (unmet_required_steps snapshot WorkflowCapability.complete context) in
    ground (
      arith,
      none_unmet WorkflowCapability.verify_documents h.unmet,
      none_unmet WorkflowCapability.capture_documents h.unmet,
      none_unmet WorkflowCapability.approval h.unmet,
      none_unmet WorkflowCapability.unload h.unmet,
    )

record Opening (context : WorkflowProgressContext) : Type 0 where
  still_open : context.is_completed ≡ false
  no_exception : context.tare_exceeds_gross ≡ false
  not_rejected : context.rejected_step_sort_orders ≡ []
  vehicle : context.has_vehicle ≡ true
  applied :
      (snapshot : WorkflowSnapshot) × (context.snapshot ≡ some snapshot)
      × (finalize_steps_blockers context snapshot ≡ none)

assert_can_finalize-Opening :
    (context : WorkflowProgressContext) → assert_can_finalize context ≡ none → Opening context
unfolding assert_can_finalize
assert_can_finalize-Opening context h = ground arith

Opening-assert_can_finalize :
    (context : WorkflowProgressContext)
    → context.status ≡ TransactionStatus.second_weighment
    → Opening context
    → assert_can_finalize context ≡ none
unfolding assert_can_finalize
Opening-assert_can_finalize context s h = ground arith

Opening-IsReadyToFinalize :
    (context : WorkflowProgressContext) → Opening context → IsReadyToFinalize context
Opening-IsReadyToFinalize context o =
    let (snapshot, applied, passed) = o.applied in
    let c = finalize_steps_blockers-Checks context snapshot passed in
    let remaining : remaining_approval_steps (some snapshot) context ≡ [] =
      rw (← applied) c.remaining in
    record {
      status = c.status;
      still_open = o.still_open;
      no_exception = o.no_exception;
      not_rejected = o.not_rejected;
      vehicle = o.vehicle;
      gross = c.gross;
      tare = c.tare;
      net = c.net;
      unloaded = c.unloaded;
      snapshot = snapshot;
      applied = applied;
      reviewed = (needs_material_review-eq-false_iff snapshot).0 c.reviewed;
      approved = (remaining-eq-nil_iff snapshot context).0 remaining;
      steps_done = (unmet-eq-nil_iff snapshot WorkflowCapability.complete context).0 c.unmet;
    }

IsReadyToFinalize-Opening :
    (context : WorkflowProgressContext) → IsReadyToFinalize context → Opening context
IsReadyToFinalize-Opening context r =
    let remaining : remaining_approval_steps context.snapshot context ≡ [] =
      simp r.applied ((remaining-eq-nil_iff r.snapshot context).1 r.approved) in
    let checks : Checks context r.snapshot = record {
      reviewed = (needs_material_review-eq-false_iff r.snapshot).1 r.reviewed;
      unmet = (unmet-eq-nil_iff r.snapshot WorkflowCapability.complete context).1 r.steps_done;
      remaining = remaining;
      unloaded = r.unloaded;
      gross = r.gross;
      tare = r.tare;
      net = r.net;
      status = r.status;
    } in
    record {
      still_open = r.still_open;
      no_exception = r.no_exception;
      not_rejected = r.not_rejected;
      vehicle = r.vehicle;
      applied = (r.snapshot, r.applied, Checks-finalize_steps_blockers context r.snapshot checks);
    }

-- Finalization is allowed exactly when the transaction stands at its second weighment, is open,
-- has no weight exception and no rejected approval, has a vehicle, both weighments and a net
-- weight, its unloading is completed, its material is matched or verified, no approval is
-- outstanding, and every required step before completion is satisfied.
pub assert_can_finalize-eq-none_iff :
    (context : WorkflowProgressContext)
    → (assert_can_finalize context ≡ none) ↔ IsReadyToFinalize context
assert_can_finalize-eq-none_iff context = (
  (λ h. Opening-IsReadyToFinalize context (assert_can_finalize-Opening context h)),
  (λ r. Opening-assert_can_finalize context r.status (IsReadyToFinalize-Opening context r)),
)
