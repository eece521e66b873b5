-- ===== src/Workflow/Guards/Refusals.antt =====
-- The refusals of apps/api/src/domain/workflowEngine.ts and their sentences.
use Prim.Native.String
use trinetra_systems.Common.{List, [], ◌∷◌, String}
use trinetra_systems.Workflow.Snapshot.{WorkflowCapability}

pub data Refusal : Type 0 where
  first_weighment_recorded first_weighment_too_early : Refusal
  first_weighment_blocked material_blocked : List WorkflowCapability → Refusal
  unloading_blocked completion_blocked : List WorkflowCapability → Refusal
  material_fixed material_too_early : Refusal
  approval_rejected_for_unloading in_exception_review held : Refusal
  vehicle_required_for_unloading workflow_required_for_unloading : Refusal
  material_unverified_for_unloading material_unidentified_for_unloading : Refusal
  documents_incomplete first_weighment_required_for_unloading approval_incomplete : Refusal
  not_ready_for_unloading point_fixed assignment_too_early : Refusal
  point_missing unloading_started unloading_finished start_too_early : Refusal
  not_unloading unloading_not_started point_required : Refusal
  second_weighment_recorded second_weighment_too_early : Refusal
  unloading_required_for_second_weighment first_weighment_required_for_second : Refusal
  vehicle_required_for_second_weighment already_completed weight_exception : Refusal
  approval_rejected vehicle_required_for_completion workflow_required_for_completion : Refusal
  material_unverified_for_completion unloading_required_for_completion : Refusal
  valid_first_weighment_required valid_second_weighment_required net_weight_missing : Refusal
  not_ready_for_finalization : Refusal

unfoldable pub capability_code : WorkflowCapability → String
capability_code WorkflowCapability.identify_vehicle = "IDENTIFY_VEHICLE"
capability_code WorkflowCapability.capture_documents = "CAPTURE_DOCUMENTS"
capability_code WorkflowCapability.verify_documents = "VERIFY_DOCUMENTS"
capability_code WorkflowCapability.classify_material = "CLASSIFY_MATERIAL"
capability_code WorkflowCapability.first_weighment = "FIRST_WEIGHMENT"
capability_code WorkflowCapability.approval = "APPROVAL"
capability_code WorkflowCapability.unload = "UNLOAD"
capability_code WorkflowCapability.second_weighment = "SECOND_WEIGHMENT"
capability_code WorkflowCapability.complete = "COMPLETE"

-- `unmet.join(", ")`
unfoldable pub join_codes : List WorkflowCapability → String
unfolding capability_code
join_codes [] = ""
join_codes (capability ∷ []) = capability_code capability
join_codes (capability ∷ next ∷ more) =
    String.◌++◌ (capability_code capability) (String.◌++◌ ", " (join_codes (next ∷ more)))

unfoldable pub message : Refusal → String
unfolding join_codes
message Refusal.first_weighment_recorded = "A first weighment has already been recorded"
message Refusal.first_weighment_too_early =
    "First weighment can only be recorded after the vehicle is identified or the document is verified"
message (Refusal.first_weighment_blocked unmet) =
    String.◌++◌ "First weighment is blocked until required steps are complete: " (join_codes unmet)
message (Refusal.material_blocked unmet) =
    String.◌++◌ "Material cannot be assigned until required steps are complete: " (join_codes unmet)
message (Refusal.unloading_blocked unmet) =
    String.◌++◌ "Unloading is blocked until required steps are complete: " (join_codes unmet)
message (Refusal.completion_blocked unmet) =
    String.◌++◌ "Transaction cannot be completed until required steps are finished: "
      (join_codes unmet)
message Refusal.material_fixed = "Material cannot be changed after the first weighment"
message Refusal.material_too_early = "Material can only be assigned after the vehicle is identified"
message Refusal.approval_rejected_for_unloading =
    "Approval was rejected. This transaction cannot proceed to unloading."
message Refusal.in_exception_review = "This transaction is in exception review and cannot proceed"
message Refusal.held = "This transaction is on hold"
message Refusal.vehicle_required_for_unloading = "A vehicle must be identified before unloading"
message Refusal.workflow_required_for_unloading =
    "Material and workflow must be identified before unloading"
message Refusal.material_unverified_for_unloading =
    "Material identification must be verified before unloading"
message Refusal.material_unidentified_for_unloading = "Material must be identified before unloading"
message Refusal.documents_incomplete = "Required document verification is incomplete"
message Refusal.first_weighment_required_for_unloading =
    "First weighment is required before unloading"
message Refusal.approval_incomplete = "Required approval is incomplete"
message Refusal.not_ready_for_unloading = "This transaction is not ready for unloading"
message Refusal.point_fixed = "Unloading has already started and the point cannot be changed"
message Refusal.assignment_too_early =
    "An unloading point can only be assigned after required approvals"
message Refusal.point_missing = "An unloading point must be assigned first"
message Refusal.unloading_started = "Unloading has already started"
message Refusal.unloading_finished = "Unloading has already been completed"
message Refusal.start_too_early = "Unloading can only start after required approvals"
message Refusal.not_unloading = "Unloading can only be completed while it is in progress"
message Refusal.unloading_not_started = "Unloading has not been started"
message Refusal.point_required = "An unloading point is required"
message Refusal.second_weighment_recorded = "A second weighment has already been recorded"
message Refusal.second_weighment_too_early =
    "Second weighment can only be recorded after unloading is completed"
message Refusal.unloading_required_for_second_weighment =
    "Unloading must be completed before the second weighment"
message Refusal.first_weighment_required_for_second =
    "A first weighment is required before the second weighment"
message Refusal.vehicle_required_for_second_weighment =
    "A vehicle is required before the second weighment"
message Refusal.already_completed = "This transaction is already completed"
message Refusal.weight_exception =
    "This transaction has a weight exception and needs review before completion"
message Refusal.approval_rejected = "Required approval was rejected"
message Refusal.vehicle_required_for_completion = "A vehicle is required before completion"
message Refusal.workflow_required_for_completion =
    "Material and workflow must be identified before completion"
message Refusal.material_unverified_for_completion =
    "Material identification must be verified before completion"
message Refusal.unloading_required_for_completion =
    "Unloading must be completed before finalization"
message Refusal.valid_first_weighment_required = "A valid first weighment is required"
message Refusal.valid_second_weighment_required = "A valid second weighment is required"
message Refusal.net_weight_missing = "Net weight has not been calculated"
message Refusal.not_ready_for_finalization = "This transaction is not ready for finalization"
