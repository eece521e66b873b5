-- ===== src/Workflow/Guards.antt =====
-- apps/api/src/domain/workflowEngine.ts, the guards: each returns why an action is refused.
-- A refusal is a constructor here; `message` is the sentence that the code returns for it.
pub mod Refusals
pub mod Finalize
pub mod Unloading
pub mod Transitions
use trinetra_systems.Common.{
  leb, includes, is_some, Bool, true, false, not, ◌&&◌, ◌||◌, List, [], ◌∷◌, Option, none, some,
  ◌==◌, ◌!=◌, if◌then◌else◌, is_none, ℕ,
}
use trinetra_systems.Transaction.Status.{TransactionStatus, status_eq}
use trinetra_systems.Workflow.Snapshot.{
  WorkflowCapability, capability_eq, IdentificationStatus, identification_eq, WorkflowSnapshot,
}
use trinetra_systems.Workflow.Steps.{
  UnloadingStatus, WorkflowProgressContext, unloading_is, no_steps, remaining_approval_steps,
  unmet_required_steps,
}
use Refusals.{Refusal}

abbrev pub is_empty : List ℕ → Bool
is_empty [] = true
is_empty (x ∷ xs) = false

abbrev pub no_capabilities : List WorkflowCapability → Bool
no_capabilities [] = true
no_capabilities (x ∷ xs) = false

abbrev pub needs_material_review : WorkflowSnapshot → Bool
needs_material_review snapshot =
    snapshot.identification_status == IdentificationStatus.needs_review && not snapshot.verified

unfoldable pub assert_can_record_first_weighment : WorkflowProgressContext → Option Refusal
assert_can_record_first_weighment context =
    if context.has_gross then some Refusal.first_weighment_recorded else elim context.snapshot [
      | none ↦
          if context.status != TransactionStatus.identified
            && context.status != TransactionStatus.document_verified
          then some Refusal.first_weighment_too_early
          else none
      | some snapshot ↦
          let unmet = unmet_required_steps snapshot WorkflowCapability.first_weighment context in
          if no_capabilities unmet then none else some (Refusal.first_weighment_blocked unmet)
    ]

unfoldable pub assert_can_assign_material :
    WorkflowProgressContext → WorkflowSnapshot → Option Refusal
assert_can_assign_material context incoming =
    if context.has_gross
    then some Refusal.material_fixed
    else if context.status != TransactionStatus.identified
        && context.status != TransactionStatus.document_verified
        && context.status != TransactionStatus.material_classified
    then some Refusal.material_too_early
    else let unmet =
        unmet_required_steps incoming WorkflowCapability.classify_material
          (record context { snapshot = some incoming }) in
      if no_capabilities unmet then none else some (Refusal.material_blocked unmet)

-- the part of `preUnloadingBlockers` below its test of the snapshot
unfoldable pub unloading_steps_blockers :
    WorkflowProgressContext → WorkflowSnapshot → Option Refusal
unloading_steps_blockers context snapshot =
    let unmet = unmet_required_steps snapshot WorkflowCapability.unload context in
    if needs_material_review snapshot
    then some Refusal.material_unverified_for_unloading
    else if includes unmet WorkflowCapability.verify_documents
        || includes unmet WorkflowCapability.capture_documents
    then some Refusal.documents_incomplete
    else if includes unmet WorkflowCapability.classify_material
    then some Refusal.material_unidentified_for_unloading
    else if includes unmet WorkflowCapability.first_weighment || not context.has_gross
    then some Refusal.first_weighment_required_for_unloading
    else if includes unmet WorkflowCapability.approval
        || not (no_steps (remaining_approval_steps context.snapshot context))
    then some Refusal.approval_incomplete
    else if not (no_capabilities unmet)
    then some (Refusal.unloading_blocked unmet)
    else if context.status != TransactionStatus.approved
        && context.status != TransactionStatus.first_weighment
        && context.status != TransactionStatus.unloading
    then some Refusal.not_ready_for_unloading
    else none

unfoldable pub pre_unloading_blockers : WorkflowProgressContext → Option Refusal
pre_unloading_blockers context =
    if not (is_empty context.rejected_step_sort_orders)
      || context.status == TransactionStatus.rejected
    then some Refusal.approval_rejected_for_unloading
    else if context.status == TransactionStatus.exception
    then some Refusal.in_exception_review
    else if context.status == TransactionStatus.on_hold
    then some Refusal.held
    else if not context.has_vehicle
    then some Refusal.vehicle_required_for_unloading
    else elim context.snapshot [
      | none ↦ some Refusal.workflow_required_for_unloading
      | some snapshot ↦ unloading_steps_blockers context snapshot
    ]

-- what is tried when the earlier guard has not refused
abbrev pub or_else : Option Refusal → Option Refusal → Option Refusal
or_else none later = later
or_else (some refusal) later = some refusal

abbrev pub before_unloading : WorkflowProgressContext → Bool
before_unloading context =
    context.status == TransactionStatus.approved
    || context.status == TransactionStatus.first_weighment

unfoldable pub assert_can_assign_unloading : WorkflowProgressContext → Option Refusal
assert_can_assign_unloading context = or_else (pre_unloading_blockers context) (
    if unloading_is UnloadingStatus.in_progress context.unloading_status
      || unloading_is UnloadingStatus.completed context.unloading_status
    then some Refusal.point_fixed
    else if not (before_unloading context)
    then some Refusal.assignment_too_early
    else none)

unfoldable pub assert_can_start_unloading : WorkflowProgressContext → Option Refusal
assert_can_start_unloading context = or_else (pre_unloading_blockers context) (
    if not context.has_unloading_point
    then some Refusal.point_missing
    else if unloading_is UnloadingStatus.in_progress context.unloading_status
    then some Refusal.unloading_started
    else if unloading_is UnloadingStatus.completed context.unloading_status
    then some Refusal.unloading_finished
    else if not (before_unloading context)
    then some Refusal.start_too_early
    else none)

unfoldable pub assert_can_complete_unloading : WorkflowProgressContext → Option Refusal
assert_can_complete_unloading context =
    if context.status != TransactionStatus.unloading
    then some Refusal.not_unloading
    else if not (unloading_is UnloadingStatus.in_progress context.unloading_status)
    then some Refusal.unloading_not_started
    else if not context.has_unloading_point
    then some Refusal.point_required
    else none

unfoldable pub assert_can_record_second_weighment : WorkflowProgressContext → Option Refusal
assert_can_record_second_weighment context =
    if context.has_tare
    then some Refusal.second_weighment_recorded
    else if context.status != TransactionStatus.unloaded
    then some Refusal.second_weighment_too_early
    else if not (unloading_is UnloadingStatus.completed context.unloading_status)
    then some Refusal.unloading_required_for_second_weighment
    else if not context.has_gross
    then some Refusal.first_weighment_required_for_second
    else if not context.has_vehicle
    then some Refusal.vehicle_required_for_second_weighment
    else none

-- the part of `assertCanFinalize` below its test of the snapshot
unfoldable pub finalize_steps_blockers : WorkflowProgressContext → WorkflowSnapshot → Option Refusal
finalize_steps_blockers context snapshot =
    let unmet = unmet_required_steps snapshot WorkflowCapability.complete context in
    if needs_material_review snapshot
    then some Refusal.material_unverified_for_completion
    else if includes unmet WorkflowCapability.verify_documents
        || includes unmet WorkflowCapability.capture_documents
    then some Refusal.documents_incomplete
    else if includes unmet WorkflowCapability.approval
        || not (no_steps (remaining_approval_steps context.snapshot context))
    then some Refusal.approval_incomplete
    else if includes unmet WorkflowCapability.unload
        || not (unloading_is UnloadingStatus.completed context.unloading_status)
    then some Refusal.unloading_required_for_completion
    else if not context.has_gross
    then some Refusal.valid_first_weighment_required
    else if not context.has_tare
    then some Refusal.valid_second_weighment_required
    else if is_none context.net_weight
    then some Refusal.net_weight_missing
    else if not (no_capabilities unmet)
    then some (Refusal.completion_blocked unmet)
    else if context.status != TransactionStatus.second_weighment
    then some Refusal.not_ready_for_finalization
    else none

unfoldable pub assert_can_finalize : WorkflowProgressContext → Option Refusal
assert_can_finalize context =
    if context.is_completed || context.status == TransactionStatus.completed
    then some Refusal.already_completed
    else if context.status == TransactionStatus.exception || context.tare_exceeds_gross
    then some Refusal.weight_exception
    else if not (is_empty context.rejected_step_sort_orders)
        || context.status == TransactionStatus.rejected
    then some Refusal.approval_rejected
    else if not context.has_vehicle
    then some Refusal.vehicle_required_for_completion
    else elim context.snapshot [
      | none ↦ some Refusal.workflow_required_for_completion
      | some snapshot ↦ finalize_steps_blockers context snapshot
    ]
