-- ===== src/Workflow/Snapshot.antt =====
-- apps/api/src/domain/workflowSnapshot.ts: the copy of a workflow that a transaction carries.
-- Sort orders are natural numbers; weights and thresholds are thousandths of a kilogram.
use trinetra_systems.Common.{
  ℕ, ltb, leb, length, filter, Bool, ◌&&◌, List, [], ◌∷◌, Option, none, some, String, Eq, eq_of,
  ◌==◌, if◌then◌else◌,
}

pub data WorkflowCapability : Type 0 where
  identify_vehicle capture_documents verify_documents classify_material : WorkflowCapability
  first_weighment approval unload second_weighment complete : WorkflowCapability

unfoldable pub WorkflowCapability-discrete : Discrete WorkflowCapability
WorkflowCapability-discrete = hlevel

instance abbrev pub capability_eq : Eq WorkflowCapability
capability_eq = eq_of WorkflowCapability-discrete

pub data IdentificationStatus : Type 0 where
  matched needs_review : IdentificationStatus

unfoldable pub IdentificationStatus-discrete : Discrete IdentificationStatus
IdentificationStatus-discrete = hlevel

instance abbrev pub identification_eq : Eq IdentificationStatus
identification_eq = eq_of IdentificationStatus-discrete

pub data MaterialSource : Type 0 where
  manual ocr : MaterialSource

pub record ApprovalDepartment : Type 0 where
  pub id : String
  pub code : String
  pub name : String

pub record WorkflowStep : Type 0 where
  pub sort_order : ℕ
  pub capability : WorkflowCapability
  pub name : String
  pub is_required : Bool
  pub approval_department : Option ApprovalDepartment

pub record WorkflowConfig : Type 0 where
  pub auto_continue : Bool
  pub approval_threshold : Option ℕ

pub record SnapshotMaterial : Type 0 where
  pub id : String
  pub code : String
  pub name : String
  pub unit_of_measure : String

pub record SnapshotWorkflow : Type 0 where
  pub id : String
  pub code : String
  pub name : String

pub record WorkflowSnapshot : Type 0 where
  pub captured_at : String
  pub assignment_id : Option String
  pub material : SnapshotMaterial
  pub workflow : SnapshotWorkflow
  pub config : WorkflowConfig
  pub steps : List WorkflowStep
  pub source : MaterialSource
  pub ocr_material_name : Option String
  pub ocr_confidence : Option ℕ
  pub identification_status : IdentificationStatus
  pub verified : Bool
  pub verified_at : Option String
  pub verified_by_user_id : Option String

-- the departments that a list of steps names
unfoldable pub departments : List WorkflowStep → List ApprovalDepartment
departments [] = []
departments (step ∷ steps) =
    let rest = departments steps in
    elim step.approval_department [ none ↦ rest | some department ↦ department ∷ rest ]

unfoldable pub required_approval_departments : WorkflowSnapshot → List ApprovalDepartment
unfolding departments
required_approval_departments snapshot = departments (
    filter (λ step. step.capability == WorkflowCapability.approval && step.is_required)
      snapshot.steps)

unfoldable pub snapshot_requires_approval : WorkflowSnapshot → Bool
unfolding required_approval_departments
snapshot_requires_approval snapshot = ltb 0 (length (required_approval_departments snapshot))

-- `[...steps].sort((left, right) => left.sortOrder - right.sortOrder)`: a stable sort
insert_step : WorkflowStep → List WorkflowStep → List WorkflowStep
insert_step step [] = step ∷ []
insert_step step (other ∷ steps) =
    let later = insert_step step steps in
    if leb step.sort_order other.sort_order then step ∷ other ∷ steps else other ∷ later

unfoldable pub sort_steps : List WorkflowStep → List WorkflowStep
unfolding insert_step
sort_steps [] = []
sort_steps (step ∷ steps) = insert_step step (sort_steps steps)
