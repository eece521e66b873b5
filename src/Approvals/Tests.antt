-- ===== src/Approvals/Tests.antt =====
-- Decisions at sample values.
use trinetra_systems.Common.{
  find, filter, any, includes, true, false, [], ◌∷◌, Memᴰ, none, some, String, ◌≡◌, ◌≢◌, refl,
  arith,
}
use trinetra_systems.Transaction.Status.{
  TransactionStatus, TransactionStatus-discrete, can_transition, allowed,
}
use trinetra_systems.Lifecycle.State.{
  WeighmentKind, WeighmentKind-discrete, ApprovalDecision, ApprovalDecision-discrete, Transaction,
  Env, Result, ok, failed,
}
use trinetra_systems.Lifecycle.Progress.{weighment_of, progress_from, transaction_progress}
use trinetra_systems.Workflow.Steps.{remaining_approval_steps}
use trinetra_systems.Approvals.{
  User, ApprovalRow, Db, can_decide_approval, decided_row, admit_decision, approve_request,
  reject_request, load_included, assert_approval_workflow_ready, apply_approval_decision,
  can_transition_approval, allowed_decisions, claim_row, set_status, set_rejected,
}
use trinetra_systems.Approvals.Decisions.{approve_request-decides, approve_request-Mem_of_decided}
use trinetra_systems.Approvals.Rejection.{reject_request-blocks}

abbrev supervisor : User
supervisor = record {
  id = "user-1";
  organization_id = "org-1";
  permissions = "approval.decide" ∷ [];
  default_department = none;
  roles = "ADMIN" ∷ [];
  can_access_site = λ site. true;
}

abbrev env : Env
env = record {
  decimal_text = λ text. text;
  locale_le = λ l r. true;
  limits = record { min_kg = 0; max_kg = 100000000 };
}

abbrev visit : Transaction
visit = record {
  id = "tx-1";
  organization_id = "org-1";
  site_id = "site-1";
  status = TransactionStatus.pending_approval;
  vehicle = some "v-1";
  material_id = none;
  weighbridge_id = some "wb-1";
  snapshot = none;
  weighments =
      record {
        kind = WeighmentKind.gross;
        sequence = 1;
        weighbridge_id = "wb-1";
        weight_kg = 49 ∷ [];
      }
      ∷ [];
  documents = [];
  approvals = [];
  unloading = none;
  net_weight_kg = none;
  completed_at = false;
  exception_reason = false;
}

abbrev row_of : String → String → ApprovalDecision → ApprovalRow
row_of id transaction decision = record {
  id = id;
  organization_id = "org-1";
  site_id = "site-1";
  transaction_id = transaction;
  sort_order = 3;
  department = record { id = "dep-1"; code = "LAB"; name = "Laboratory" };
  assigned_user_id = none;
  decision = decision;
  approver_user_id = none;
  comments = none;
}

abbrev asked : ApprovalRow
asked = row_of "a-1" "tx-1" ApprovalDecision.pending

abbrev granted : ApprovalRow
granted = row_of "a-2" "tx-1" ApprovalDecision.approved

abbrev elsewhere : ApprovalRow
elsewhere = row_of "a-3" "tx-2" ApprovalDecision.pending

abbrev db : Db
db = record {
  rows = asked ∷ granted ∷ elsewhere ∷ [];
  transactions = visit ∷ record visit { id = "tx-2" } ∷ [];
  audits = [];
}

abbrev left_by : Result Db → Db
left_by (ok left) = left
left_by (failed error) = db

abbrev after : Db
after = left_by (approve_request supervisor env "a-4" "a-1" none db)

approves : approve_request supervisor env "a-4" "a-1" none db ≡ ok after
unfolding approve_request remaining_approval_steps set_status find can_decide_approval includes
    apply_approval_decision can_transition_approval allowed_decisions ApprovalDecision-discrete
    load_included filter assert_approval_workflow_ready transaction_progress weighment_of
    WeighmentKind-discrete progress_from any TransactionStatus-discrete claim_row can_transition
    allowed
approves = refl

approve_request-decides_example :
    (row : ApprovalRow) × Memᴰ row db.rows
    × (row.id ≡ "a-1")
    × (row.decision ≡ ApprovalDecision.pending)
    × (can_decide_approval supervisor row ≡ true)
    × Memᴰ (decided_row supervisor ApprovalDecision.approved none row) after.rows
approve_request-decides_example =
    approve_request-decides supervisor env "a-4" "a-1" none db after approves

is_granted : granted.decision ≢ ApprovalDecision.pending
unfolding ApprovalDecision-discrete
is_granted h = ground (arith, h)

approve_request-Mem_of_decided_example : Memᴰ granted after.rows
approve_request-Mem_of_decided_example =
    approve_request-Mem_of_decided supervisor env "a-4" "a-1" none db after granted approves
      (Memᴰ.tail (Memᴰ.head refl)) is_granted

abbrev without : Db
without = left_by (reject_request supervisor env "a-1" "wet" db)

rejects : reject_request supervisor env "a-1" "wet" db ≡ ok without
unfolding reject_request set_rejected find can_decide_approval includes apply_approval_decision
    can_transition_approval allowed_decisions ApprovalDecision-discrete load_included filter
    assert_approval_workflow_ready transaction_progress weighment_of WeighmentKind-discrete
    progress_from any TransactionStatus-discrete claim_row can_transition allowed
rejects = refl

admits :
    admit_decision supervisor env "a-3" ApprovalDecision.approved without
    ≡ ok (
      elsewhere,
      record visit {
        id = "tx-2";
        approvals =
            record {
              id = "a-3";
              sort_order = 3;
              department_name = "Laboratory";
              decision = ApprovalDecision.pending;
            }
            ∷ [];
      },
    )
unfolding reject_request set_rejected find can_decide_approval includes apply_approval_decision
    can_transition_approval allowed_decisions ApprovalDecision-discrete load_included filter
    assert_approval_workflow_ready transaction_progress weighment_of WeighmentKind-discrete
    progress_from any TransactionStatus-discrete claim_row can_transition allowed
admits = refl

reject_request-blocks_example : elsewhere.transaction_id ≢ asked.transaction_id
unfolding ApprovalDecision-discrete
reject_request-blocks_example =
    reject_request-blocks supervisor supervisor env "a-1" "a-3" "wet" ApprovalDecision.approved db
      without asked elsewhere _ rejects (Memᴰ.head refl) refl admits
