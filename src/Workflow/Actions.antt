-- ===== src/Workflow/Actions.antt =====
-- apps/api/src/domain/workflowEngine.ts: the actions that a transaction offers, and the next one.
pub mod Allowed
pub mod Next
use trinetra_systems.Common.{
  includes, is_none, is_some, Bool, true, false, not, ◌&&◌, ◌||◌, List, [], ◌∷◌, ◌++◌, Option, none,
  some, String, Eq, eq_of, ◌==◌, ◌!=◌, if◌then◌else◌,
}
use trinetra_systems.Transaction.Status.{TransactionStatus, status_eq}
use trinetra_systems.Workflow.Snapshot.{
  WorkflowCapability, capability_eq, WorkflowSnapshot, WorkflowStep,
}
use trinetra_systems.Workflow.Steps.{
  UnloadingStatus, WorkflowProgressContext, PendingApproval, unloading_is, remaining_approval_steps,
  unmet_required_steps,
}
use trinetra_systems.Workflow.Guards.{
  is_empty, no_capabilities, needs_material_review, assert_can_record_first_weighment,
  assert_can_assign_unloading, assert_can_start_unloading, assert_can_complete_unloading,
  assert_can_record_second_weighment, assert_can_finalize,
}

pub data TransactionAction : Type 0 where
  identify upload_document assign_material verify_material record_gross : TransactionAction
  assign_unloading start_unloading complete_unloading record_tare finalize : TransactionAction

unfoldable pub TransactionAction-discrete : Discrete TransactionAction
TransactionAction-discrete = hlevel

instance abbrev pub action_eq : Eq TransactionAction
action_eq = eq_of TransactionAction-discrete

-- `if (test) actions.push(action)`
abbrev pub push_if : Bool → TransactionAction → List TransactionAction → List TransactionAction
push_if true action actions = actions ++ action ∷ []
push_if false action actions = actions

abbrev pub is_waiting_for_review : WorkflowProgressContext → Bool
is_waiting_for_review context = elim context.snapshot [
  | none ↦ false
  | some snapshot ↦
      needs_material_review snapshot && context.status == TransactionStatus.material_classified
]

unfoldable pub resolve_allowed_actions : WorkflowProgressContext → List TransactionAction
resolve_allowed_actions context =
    let uploading =
      (context.status == TransactionStatus.identified
        || context.status == TransactionStatus.document_pending)
      && not context.has_gross in
    let assigning =
      (context.status == TransactionStatus.identified
        || context.status == TransactionStatus.document_verified
        || context.status == TransactionStatus.material_classified)
      && not context.has_gross in
    if context.status == TransactionStatus.arrived
    then TransactionAction.identify ∷ []
    else if context.is_completed || context.status == TransactionStatus.completed
    then []
    else let a1 = push_if uploading TransactionAction.upload_document [] in
      let a2 = push_if assigning TransactionAction.assign_material a1 in
      let a3 = push_if (is_waiting_for_review context) TransactionAction.verify_material a2 in
      let a4 =
        push_if (is_none (assert_can_record_first_weighment context)) TransactionAction.record_gross
          a3 in
      let a5 =
        push_if (is_none (assert_can_assign_unloading context)) TransactionAction.assign_unloading
          a4 in
      let a6 =
        push_if (is_none (assert_can_start_unloading context)) TransactionAction.start_unloading
          a5 in
      let a7 =
        push_if (is_none (assert_can_complete_unloading context))
          TransactionAction.complete_unloading a6 in
      let a8 =
        push_if (is_none (assert_can_record_second_weighment context)) TransactionAction.record_tare
          a7 in
      push_if (is_none (assert_can_finalize context)) TransactionAction.finalize a8

pub data ActionCode : Type 0 where
  completed identify verify_material upload_document assign_material record_gross : ActionCode
  blocked await_approval review_exception assign_unloading start_unloading : ActionCode
  complete_unloading record_tare finalize continue : ActionCode

-- The label of an approval carries the department's name in front of " approval required".
pub data ActionLabel : Type 0 where
  text : String → ActionLabel
  approval_required : String → ActionLabel

pub record NextAction : Type 0 where
  pub code : ActionCode
  pub label : ActionLabel
  pub blocking : Bool
  pub approval_id : Option String

abbrev step_to : ActionCode → String → NextAction
step_to code label = record {
  code = code;
  label = ActionLabel.text label;
  blocking = true;
  approval_id = none;
}

abbrev free_step : ActionCode → String → NextAction
free_step code label = record {
  code = code;
  label = ActionLabel.text label;
  blocking = false;
  approval_id = none;
}

-- `remaining[0]?.approvalDepartment?.name ?? "Required"`
abbrev department_name : WorkflowStep → String
department_name step = elim step.approval_department [
  | none ↦ "Required"
  | some department ↦ department.name
]

abbrev await_action : WorkflowStep → Option PendingApproval → NextAction
await_action next (some pending) = record {
  code = ActionCode.await_approval;
  label = ActionLabel.approval_required pending.department_name;
  blocking = true;
  approval_id = some pending.id;
}
await_action next none = record {
  code = ActionCode.await_approval;
  label = ActionLabel.approval_required (department_name next);
  blocking = true;
  approval_id = none;
}

-- what follows once no approval remains
unfoldable pub next_after_approval : WorkflowProgressContext → NextAction
next_after_approval context =
    if context.status == TransactionStatus.exception || context.tare_exceeds_gross
    then step_to ActionCode.review_exception "Weight exception needs review"
    else if not context.has_unloading_point
    then step_to ActionCode.assign_unloading "Assign unloading point"
    else if not (unloading_is UnloadingStatus.in_progress context.unloading_status)
        && not (unloading_is UnloadingStatus.completed context.unloading_status)
    then step_to ActionCode.start_unloading "Ready for unloading"
    else if unloading_is UnloadingStatus.in_progress context.unloading_status
    then step_to ActionCode.complete_unloading "Mark as unloaded"
    else if not context.has_tare
    then step_to ActionCode.record_tare "Record second weighment"
    else step_to ActionCode.finalize "Finalize transaction"

abbrev await_or : List WorkflowStep → Option PendingApproval → NextAction → NextAction
await_or [] pending otherwise = otherwise
await_or (next ∷ more) pending otherwise = await_action next pending

-- what the unmet steps before the first weighment ask for, if one of these three
unfoldable pub weigh_step : List WorkflowCapability → Option NextAction
weigh_step unmet =
    if includes unmet WorkflowCapability.identify_vehicle
    then some (step_to ActionCode.identify "Identify vehicle")
    else if includes unmet WorkflowCapability.verify_documents
        || includes unmet WorkflowCapability.capture_documents
    then some (
        step_to ActionCode.upload_document (
          if includes unmet WorkflowCapability.verify_documents
          then "Document verification required"
          else "Upload required document"))
    else if includes unmet WorkflowCapability.classify_material
    then some (step_to ActionCode.assign_material "Identify material and apply workflow")
    else none

-- the body of `if (context.snapshot)`
unfoldable pub next_in_workflow : WorkflowProgressContext → WorkflowSnapshot → NextAction
next_in_workflow context snapshot =
    let unmet = unmet_required_steps snapshot WorkflowCapability.first_weighment context in
    if needs_material_review snapshot
    then step_to ActionCode.verify_material "Material needs review"
    else if not context.has_gross
    then elim (weigh_step unmet) [
      | some action ↦ action
      | none ↦ step_to ActionCode.record_gross "Record first weighment"
    ]
    else if not (is_empty context.rejected_step_sort_orders)
        || context.status == TransactionStatus.rejected
    then step_to ActionCode.blocked "Approval rejected — transaction cannot continue"
    else await_or (remaining_approval_steps context.snapshot context) context.pending_approval
        (next_after_approval context)

unfoldable pub next_without_workflow : WorkflowProgressContext → NextAction
next_without_workflow context =
    if context.status == TransactionStatus.identified && not context.has_document
    then free_step ActionCode.upload_document "Upload document or record first weighment"
    else if context.status == TransactionStatus.document_pending
    then step_to ActionCode.upload_document "Complete document verification"
    else if context.status == TransactionStatus.document_verified && not context.has_gross
    then step_to ActionCode.assign_material "Identify material and apply workflow"
    else if not context.has_gross
    then step_to ActionCode.record_gross "Record first weighment"
    else free_step ActionCode.continue "No further Step 7 action"

unfoldable pub resolve_next_action : WorkflowProgressContext → NextAction
resolve_next_action context =
    if context.is_completed || context.status == TransactionStatus.completed
    then free_step ActionCode.completed "Transaction completed"
    else if context.status == TransactionStatus.arrived || not context.has_vehicle
    then step_to ActionCode.identify "Identify vehicle"
    else elim context.snapshot [
      | none ↦ next_without_workflow context
      | some snapshot ↦ next_in_workflow context snapshot
    ]
