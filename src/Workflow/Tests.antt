-- ===== src/Workflow/Tests.antt =====
-- A workflow with an approval by the store, and the theorems at its contexts.
use trinetra_systems.Common.{
  ℕ, true, false, [], ◌∷◌, Option, none, some, ◌≡◌, ◌≢◌, ◌↔◌, ◌⊎◌, refl, includes, find, filter,
  Memᴰ, arith,
}
use trinetra_systems.Transaction.Status.{TransactionStatus, TransactionStatus-discrete}
use trinetra_systems.Workflow.Snapshot.{
  WorkflowCapability, WorkflowCapability-discrete, IdentificationStatus,
  IdentificationStatus-discrete, MaterialSource, ApprovalDepartment, WorkflowStep, WorkflowSnapshot,
  required_approval_departments,
}
use trinetra_systems.Workflow.Steps.{
  UnloadingStatus, UnloadingStatus-discrete, WorkflowProgressContext, is_capability_satisfied,
  is_step_satisfied, is_unmet, is_remaining, remaining_approval_steps, resolve_approval_requirement,
  unmet_required_steps,
}
use trinetra_systems.Workflow.Steps.Approvals.{
  ContinuesAutomatically, ApprovalsGranted, remaining-eq-nil_iff,
}
use trinetra_systems.Workflow.Guards.{
  unloading_steps_blockers, finalize_steps_blockers, pre_unloading_blockers,
  assert_can_start_unloading, assert_can_assign_unloading, assert_can_finalize,
}
use trinetra_systems.Workflow.Guards.Refusals.{Refusal}
use trinetra_systems.Workflow.Guards.Finalize.{IsReadyToFinalize, assert_can_finalize-eq-none_iff}
use trinetra_systems.Workflow.Guards.Unloading.{
  IsBeforeUnloading, IsClearedForUnloading, assert_can_assign_unloading-eq-none_iff,
  assert_can_start_unloading-eq-none_iff,
}
use trinetra_systems.Workflow.Actions.{
  ActionCode, next_in_workflow, next_after_approval, TransactionAction, TransactionAction-discrete,
  resolve_allowed_actions, resolve_next_action,
}
use trinetra_systems.Workflow.Actions.Allowed.{resolve_allowed_actions_iff}
use trinetra_systems.Workflow.Actions.Next.{next_of_start, next_of_assign, next_of_finalize}

abbrev store : ApprovalDepartment
store = record { id = "d1"; code = "STORE"; name = "Store" }

abbrev step : ℕ → WorkflowCapability → Option ApprovalDepartment → WorkflowStep
step order capability department = record {
  sort_order = order;
  capability = capability;
  name = "step";
  is_required = true;
  approval_department = department;
}

abbrev pub limestone : WorkflowSnapshot
limestone = record {
  captured_at = "2026-01-01T00:00:00.000Z";
  assignment_id = none;
  material = record { id = "m1"; code = "LIME"; name = "Limestone"; unit_of_measure = "MT" };
  workflow = record { id = "w1"; code = "TYPE-1"; name = "Type 1" };
  config = record { auto_continue = true; approval_threshold = some 1000000 };
  steps =
      step 1 WorkflowCapability.identify_vehicle none
      ∷ step 2 WorkflowCapability.first_weighment none
      ∷ step 3 WorkflowCapability.approval (some store)
      ∷ step 4 WorkflowCapability.unload none
      ∷ step 5 WorkflowCapability.second_weighment none
      ∷ step 6 WorkflowCapability.complete none
      ∷ [];
  source = MaterialSource.manual;
  ocr_material_name = none;
  ocr_confidence = none;
  identification_status = IdentificationStatus.matched;
  verified = false;
  verified_at = none;
  verified_by_user_id = none;
}

-- weighed at 40 t, so that the store has to approve
abbrev weighed : WorkflowProgressContext
weighed = record {
  status = TransactionStatus.pending_approval;
  has_vehicle = true;
  has_gross = true;
  has_tare = false;
  has_document = false;
  has_verified_document = false;
  snapshot = some limestone;
  gross_weight = some 40000000;
  net_weight = none;
  tare_exceeds_gross = false;
  has_unloading_point = false;
  unloading_status = none;
  is_completed = false;
  approved_step_sort_orders = [];
  rejected_step_sort_orders = [];
  pending_approval = none;
}

abbrev unassigned : WorkflowProgressContext
unassigned = record weighed {
  status = TransactionStatus.approved;
  approved_step_sort_orders = 3 ∷ [];
}

abbrev assigned : WorkflowProgressContext
assigned = record unassigned {
  has_unloading_point = true;
  unloading_status = some UnloadingStatus.not_started;
}

abbrev tared : WorkflowProgressContext
tared = record assigned {
  status = TransactionStatus.second_weighment;
  has_tare = true;
  net_weight = some (b'2' ∷ b'5' ∷ []);
  unloading_status = some UnloadingStatus.completed;
}

-- The code at these contexts, with all that it calls.
unfoldable pub evaluated : Unit {0}
unfolding includes find filter TransactionStatus-discrete WorkflowCapability-discrete
    IdentificationStatus-discrete UnloadingStatus-discrete TransactionAction-discrete
    required_approval_departments is_capability_satisfied is_step_satisfied is_unmet is_remaining
    remaining_approval_steps resolve_approval_requirement unmet_required_steps
    unloading_steps_blockers finalize_steps_blockers pre_unloading_blockers
    assert_can_start_unloading assert_can_assign_unloading assert_can_finalize
    resolve_allowed_actions resolve_next_action next_in_workflow next_after_approval
evaluated = tt

weighed_waits :
    (assert_can_assign_unloading weighed ≡ some Refusal.approval_incomplete)
    × ((resolve_next_action weighed).code ≡ ActionCode.await_approval)
unfolding evaluated
weighed_waits = (refl, refl)

start_allowed : assert_can_start_unloading assigned ≡ none
unfolding evaluated
start_allowed = refl

assign_allowed : assert_can_assign_unloading unassigned ≡ none
unfolding evaluated
assign_allowed = refl

finalize_allowed : assert_can_finalize tared ≡ none
unfolding evaluated
finalize_allowed = refl

assert_can_finalize-eq-none_iff_example :
    (assert_can_finalize tared ≡ none) ↔ IsReadyToFinalize tared
assert_can_finalize-eq-none_iff_example = assert_can_finalize-eq-none_iff tared

next_of_start_example : (resolve_next_action assigned).code ≡ ActionCode.start_unloading
next_of_start_example = next_of_start assigned start_allowed refl refl

next_of_assign_example : (resolve_next_action unassigned).code ≡ ActionCode.assign_unloading
next_of_assign_example = next_of_assign unassigned assign_allowed refl refl refl

next_of_finalize_example : (resolve_next_action tared).code ≡ ActionCode.finalize
next_of_finalize_example = next_of_finalize tared finalize_allowed refl

resolve_allowed_actions_iff_example :
    Memᴰ TransactionAction.finalize (resolve_allowed_actions tared)
    ↔ (assert_can_finalize tared ≡ none)
resolve_allowed_actions_iff_example =
    resolve_allowed_actions_iff tared TransactionAction.finalize assert_can_finalize
      (ground arith, ground arith, refl) refl

assert_can_start_unloading-eq-none_iff_example : (assert_can_start_unloading assigned ≡ none) ↔ (
    IsBeforeUnloading assigned
    × IsClearedForUnloading assigned
    × (assigned.has_unloading_point ≡ true)
    × (assigned.unloading_status ≢ some UnloadingStatus.in_progress)
    × (assigned.unloading_status ≢ some UnloadingStatus.completed))
assert_can_start_unloading-eq-none_iff_example = assert_can_start_unloading-eq-none_iff assigned

assert_can_assign_unloading-eq-none_iff_example :
    (assert_can_assign_unloading unassigned ≡ none) ↔ (
      IsBeforeUnloading unassigned
      × IsClearedForUnloading unassigned
      × (unassigned.unloading_status ≢ some UnloadingStatus.in_progress)
      × (unassigned.unloading_status ≢ some UnloadingStatus.completed))
assert_can_assign_unloading-eq-none_iff_example = assert_can_assign_unloading-eq-none_iff unassigned

remaining-eq-nil_iff_example : (remaining_approval_steps (some limestone) tared ≡ []) ↔ (
    ContinuesAutomatically limestone.config tared.gross_weight
    ⊎ ApprovalsGranted limestone tared.approved_step_sort_orders)
remaining-eq-nil_iff_example = remaining-eq-nil_iff limestone tared
