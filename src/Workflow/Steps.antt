-- ===== src/Workflow/Steps.antt =====
-- apps/api/src/domain/workflowEngine.ts, first part: the progress of a transaction and the
-- required steps that it has not satisfied.
pub mod Unmet
pub mod Approvals
use trinetra_systems.Common.{
  ℕ, ltb, find, filter, includes, is_some, Bool, true, false, not, ◌&&◌, ◌||◌, List, [], ◌∷◌, map,
  Option, none, some, String, Eq, eq_of, nat_eq, ◌==◌, if◌then◌else◌,
}
use trinetra_systems.Transaction.Status.{TransactionStatus}
use trinetra_systems.Workflow.Snapshot.{
  WorkflowCapability, capability_eq, identification_eq, IdentificationStatus, WorkflowStep,
  WorkflowSnapshot, ApprovalDepartment, required_approval_departments,
}

pub data UnloadingStatus : Type 0 where
  not_started in_progress completed : UnloadingStatus

unfoldable pub UnloadingStatus-discrete : Discrete UnloadingStatus
UnloadingStatus-discrete = hlevel

instance abbrev pub unloading_status_eq : Eq UnloadingStatus
unloading_status_eq = eq_of UnloadingStatus-discrete

pub record PendingApproval : Type 0 where
  pub id : String
  pub sort_order : ℕ
  pub department_name : String

pub record WorkflowProgressContext : Type 0 where
  pub status : TransactionStatus
  pub has_vehicle : Bool
  pub has_gross : Bool
  pub has_tare : Bool
  pub has_document : Bool
  pub has_verified_document : Bool
  pub snapshot : Option WorkflowSnapshot
  pub gross_weight : Option ℕ
  pub net_weight : Option (List ℕ)
  pub tare_exceeds_gross : Bool
  pub has_unloading_point : Bool
  pub unloading_status : Option UnloadingStatus
  pub is_completed : Bool
  pub approved_step_sort_orders : List ℕ
  pub rejected_step_sort_orders : List ℕ
  pub pending_approval : Option PendingApproval

-- why an approval is required, or is not
pub data ApprovalReason : Type 0 where
  no_workflow no_approval_step : ApprovalReason
  automatic_below : ℕ → ApprovalReason
  by_departments : List String → ApprovalReason

pub record ApprovalRequirement : Type 0 where
  pub required : Bool
  pub departments : List ApprovalDepartment
  pub reason : ApprovalReason

-- `autoContinue && threshold !== null && grossWeightKg !== null && grossWeightKg < threshold`
abbrev pub auto_threshold : Bool → Option ℕ → Option ℕ → Option ℕ
auto_threshold true (some threshold) (some gross) =
    if ltb gross threshold then some threshold else none
auto_threshold _ _ _ = none

abbrev pub requirement_of :
    Bool → Option ℕ → Option ℕ → List ApprovalDepartment → ApprovalRequirement
requirement_of auto threshold gross [] = record {
  required = false;
  departments = [];
  reason = ApprovalReason.no_approval_step;
}
requirement_of auto threshold gross (department ∷ departments) =
    let needed = department ∷ departments in
    elim (auto_threshold auto threshold gross) [
      | some limit ↦ record {
        required = false;
        departments = needed;
        reason = ApprovalReason.automatic_below limit;
      }
      | none ↦ record {
        required = true;
        departments = needed;
        reason = ApprovalReason.by_departments (map (λ (d : ApprovalDepartment). d.name) needed);
      }
    ]

unfoldable pub resolve_approval_requirement :
    Option WorkflowSnapshot → Option ℕ → ApprovalRequirement
resolve_approval_requirement none gross = record {
  required = false;
  departments = [];
  reason = ApprovalReason.no_workflow;
}
resolve_approval_requirement (some snapshot) gross =
    requirement_of snapshot.config.auto_continue snapshot.config.approval_threshold gross
      (required_approval_departments snapshot)

-- the test of `remainingApprovalSteps`
unfoldable pub is_remaining : List ℕ → WorkflowStep → Bool
is_remaining approved step =
    step.capability == WorkflowCapability.approval
    && step.is_required
    && is_some step.approval_department
    && not (includes approved step.sort_order)

unfoldable pub remaining_approval_steps :
    Option WorkflowSnapshot → WorkflowProgressContext → List WorkflowStep
remaining_approval_steps none context = []
remaining_approval_steps (some snapshot) context =
    if (resolve_approval_requirement (some snapshot) context.gross_weight).required
    then filter (is_remaining context.approved_step_sort_orders) snapshot.steps
    else []

abbrev pub no_steps : List WorkflowStep → Bool
no_steps [] = true
no_steps (step ∷ steps) = false

abbrev pub is_material_identified : Option WorkflowSnapshot → Bool
is_material_identified none = false
is_material_identified (some snapshot) =
    snapshot.identification_status == IdentificationStatus.matched || snapshot.verified

abbrev pub unloading_is : UnloadingStatus → Option UnloadingStatus → Bool
unloading_is wanted none = false
unloading_is wanted (some status) = status == wanted

unfoldable pub is_capability_satisfied : WorkflowCapability → WorkflowProgressContext → Bool
is_capability_satisfied WorkflowCapability.identify_vehicle context = context.has_vehicle
is_capability_satisfied WorkflowCapability.capture_documents context = context.has_document
is_capability_satisfied WorkflowCapability.verify_documents context = context.has_verified_document
is_capability_satisfied WorkflowCapability.classify_material context =
    is_material_identified context.snapshot
is_capability_satisfied WorkflowCapability.first_weighment context = context.has_gross
is_capability_satisfied WorkflowCapability.approval context =
    no_steps (remaining_approval_steps context.snapshot context)
is_capability_satisfied WorkflowCapability.unload context =
    unloading_is UnloadingStatus.completed context.unloading_status
is_capability_satisfied WorkflowCapability.second_weighment context =
    context.has_tare && not context.tare_exceeds_gross
is_capability_satisfied WorkflowCapability.complete context = context.is_completed

unfoldable pub is_step_satisfied : WorkflowStep → WorkflowProgressContext → Bool
is_step_satisfied step context =
    if step.capability == WorkflowCapability.approval
    then (includes context.approved_step_sort_orders step.sort_order
        || no_steps (remaining_approval_steps context.snapshot context))
    else is_capability_satisfied step.capability context

abbrev pub step_before : WorkflowStep → WorkflowStep → Bool
step_before target step = step.is_required && ltb step.sort_order target.sort_order

unfoldable pub required_capabilities_before :
    WorkflowSnapshot → WorkflowCapability → List WorkflowCapability
required_capabilities_before snapshot capability =
    elim (find (λ (step : WorkflowStep). step.capability == capability) snapshot.steps) [
      | none ↦ []
      | some target ↦
          map (λ (s : WorkflowStep). s.capability) (filter (step_before target) snapshot.steps)
    ]

unfoldable pub is_unmet : WorkflowStep → WorkflowProgressContext → WorkflowStep → Bool
is_unmet target context step = step_before target step && not (is_step_satisfied step context)

-- the capabilities of the unmet steps before the target; `!target` returns the empty list
unmet_before :
    Option WorkflowStep → WorkflowSnapshot → WorkflowProgressContext → List WorkflowCapability
unmet_before none snapshot context = []
unmet_before (some target) snapshot context =
    map (λ (s : WorkflowStep). s.capability) (filter (is_unmet target context) snapshot.steps)

unfoldable pub unmet_required_steps :
    WorkflowSnapshot → WorkflowCapability → WorkflowProgressContext → List WorkflowCapability
unfolding unmet_before
unmet_required_steps snapshot before context =
    unmet_before (find (λ (step : WorkflowStep). step.capability == before) snapshot.steps) snapshot
      context
