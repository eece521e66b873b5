-- ===== src/Approvals.antt =====
-- apps/api/src/domain/approvalState.ts and approvalEligibility.ts, and of
-- apps/api/src/modules/approvals engine.ts and the decisions of service.ts. A decision runs in a
-- database transaction: an error leaves no trace. The id of a new row is a parameter.
pub mod Decisions
pub mod Rejection
pub mod Tests
use trinetra_systems.Common.{
  ℕ, nat_eq, string_eq, length, find, filter, any, includes, map, Bool, true, false, not, ◌&&◌,
  ◌||◌, List, [], ◌∷◌, ◌++◌, Option, none, some, is_some, String, ◌==◌, ◌!=◌, if◌then◌else◌,
}
use trinetra_systems.Transaction.Status.{TransactionStatus, status_eq, can_transition}
use trinetra_systems.Workflow.Snapshot.{ApprovalDepartment, WorkflowStep}
use trinetra_systems.Workflow.Steps.{WorkflowProgressContext, remaining_approval_steps}
use trinetra_systems.Lifecycle.State.{
  ApprovalDecision, decision_eq, Approval, Transaction, Env, Reason, Result, ok, failed, ◌>>=◌,
  ◌>>◌, require, found, pending, approved, rejected, hold, cancelled, update_where,
}
use trinetra_systems.Lifecycle.Progress.{transaction_progress}

unfoldable pub allowed_decisions : ApprovalDecision → List ApprovalDecision
allowed_decisions pending =
    ApprovalDecision.approved ∷ ApprovalDecision.rejected ∷ ApprovalDecision.cancelled
    ∷ ApprovalDecision.hold ∷ []
allowed_decisions hold =
    ApprovalDecision.pending ∷ ApprovalDecision.approved ∷ ApprovalDecision.rejected
    ∷ ApprovalDecision.cancelled ∷ []
allowed_decisions approved = []
allowed_decisions rejected = []
allowed_decisions cancelled = []

unfoldable pub can_transition_approval : ApprovalDecision → ApprovalDecision → Bool
can_transition_approval source target = includes (allowed_decisions source) target

-- whether the answer has no error
unfoldable pub apply_approval_decision : ApprovalDecision → ApprovalDecision → Bool
apply_approval_decision current next =
    current == ApprovalDecision.pending && can_transition_approval current next

pub record Department : Type 0 where
  pub id : String
  pub code : String

-- The user with the decision of middleware/authorize.ts about sites.
pub record User : Type 0 where
  pub id : String
  pub organization_id : String
  pub permissions : List String
  pub default_department : Option Department
  pub roles : List String
  pub can_access_site : String → Bool

-- a row of `approval`
pub record ApprovalRow : Type 0 where
  pub id : String
  pub organization_id : String
  pub site_id : String
  pub transaction_id : String
  pub sort_order : ℕ
  pub department : ApprovalDepartment
  pub assigned_user_id : Option String
  pub decision : ApprovalDecision
  pub approver_user_id : Option String
  pub comments : Option String

abbrev pub role_departments : String → List String
role_departments role =
    if role == "STORE_OFFICER"
    then "STORE" ∷ []
    else if role == "SUPERVISOR"
    then "SUPERVISOR" ∷ []
    else if role == "LAB_USER"
    then "LAB" ∷ []
    else []

abbrev pub departments_of : List String → List String
departments_of [] = []
departments_of (role ∷ roles) = role_departments role ++ departments_of roles

abbrev pub own_code : Option Department → List String
own_code none = []
own_code (some d) = if d.code == "" then [] else d.code ∷ []

unfoldable pub eligible_department_codes : List String → Option Department → List String
eligible_department_codes roles department = own_code department ++ departments_of roles

abbrev pub is_assigned : Option String → String → Bool
is_assigned none id = false
is_assigned (some assigned) id = assigned == id

abbrev pub is_in_department : Option Department → String → Bool
is_in_department none id = false
is_in_department (some d) id = d.id == id

-- `canDecideApproval` of `approvalEligibilityFromUser`
unfoldable pub can_decide_approval : User → ApprovalRow → Bool
can_decide_approval user row =
    includes user.permissions "approval.decide"
    && (includes user.roles "ADMIN"
        || is_assigned row.assigned_user_id user.id
        || is_in_department user.default_department row.department.id
        || includes (eligible_department_codes user.roles user.default_department)
            row.department.code)

pub data ApprovalAction : Type 0 where
  approval_created approval_approved approval_rejected : ApprovalAction
  workflow_step_completed workflow_step_rejected : ApprovalAction

-- `approvals` of a transaction are the rows that name it.
pub record Db : Type 0 where
  pub rows : List ApprovalRow
  pub transactions : List Transaction
  pub audits : List (ApprovalAction × String)

abbrev pub as_approval : ApprovalRow → Approval
as_approval row = record {
  id = row.id;
  sort_order = row.sort_order;
  department_name = row.department.name;
  decision = row.decision;
}

abbrev pub rows_of : String → Db → List ApprovalRow
rows_of id db = filter (λ (row : ApprovalRow). row.transaction_id == id) db.rows

-- `findFirst` with `transactionInclude`
unfoldable pub load_included : String → Db → Result Transaction
load_included id db =
    found (find (λ (t : Transaction). t.id == id) db.transactions) 404 Reason.transaction_not_found
    >>= λ t. ok (record t { approvals = map as_approval (rows_of id db) })

abbrev pub is_empty : List ℕ → Bool
is_empty [] = true
is_empty (n ∷ ns) = false

abbrev pub is_blocked : WorkflowProgressContext → Bool
is_blocked progress =
    not (is_empty progress.rejected_step_sort_orders)
    || progress.status == TransactionStatus.rejected

unfoldable pub assert_approval_workflow_ready : Env → Transaction → Result (Unit {0})
assert_approval_workflow_ready env t = do
  progress ← transaction_progress env t
  require progress.has_gross 409 Reason.approval_too_early
  require (not (is_blocked progress)) 409 Reason.approval_blocked

abbrev pub is_pending_row : String → ApprovalRow → Bool
is_pending_row id row = row.id == id && row.decision == ApprovalDecision.pending

abbrev pub decided_row : User → ApprovalDecision → Option String → ApprovalRow → ApprovalRow
decided_row user decision comments row = record row {
  decision = decision;
  approver_user_id = some user.id;
  comments = comments;
}

-- `updateMany` on the pending row, which must be one
unfoldable pub claim_row : User → String → ApprovalDecision → Option String → Db → Result Db
claim_row user id decision comments db = do
  require (length (filter (is_pending_row id) db.rows) == 1) 409 Reason.approval_decided
  ok (record db {
    rows =
        map
          (λ (row : ApprovalRow).
            if is_pending_row id row then decided_row user decision comments row else row)
          db.rows;
  })

abbrev pub audited : ApprovalAction → String → Db → Db
audited action id db = record db { audits = (action, id) ∷ db.audits }

unfoldable pub set_status : String → TransactionStatus → Db → Db
set_status id status db = record db {
  transactions = map (update_where id (λ t. record t { status = status })) db.transactions;
}

unfoldable pub set_rejected : String → Db → Db
set_rejected id db = record db {
  transactions =
      map
        (update_where id
          (λ t. record t { status = TransactionStatus.rejected; exception_reason = true }))
        db.transactions;
}

unfoldable pub has_active_approval_for_step : List Approval → ℕ → Bool
has_active_approval_for_step approvals sort_order =
    any (λ (a : Approval). a.sort_order == sort_order && a.decision == ApprovalDecision.pending)
      approvals

abbrev pub created_row : String → Transaction → ℕ → ApprovalDepartment → ApprovalRow
created_row id t sort_order department = record {
  id = id;
  organization_id = t.organization_id;
  site_id = t.site_id;
  transaction_id = t.id;
  sort_order = sort_order;
  department = department;
  assigned_user_id = none;
  decision = ApprovalDecision.pending;
  approver_user_id = none;
  comments = none;
}

abbrev pub as_waiting : Transaction → Db → Db
as_waiting t db =
    if t.status == TransactionStatus.first_weighment
      && can_transition t.status TransactionStatus.pending_approval
    then set_status t.id TransactionStatus.pending_approval db
    else db

unfoldable pub create_approval : String → Transaction → ℕ → Option ApprovalDepartment → Db → Db
create_approval id t sort_order none db = db
create_approval id t sort_order (some department) db =
    if has_active_approval_for_step t.approvals sort_order
    then db
    else audited ApprovalAction.approval_created id
        (record (as_waiting t db) { rows = db.rows ++ created_row id t sort_order department ∷ [] })

abbrev pub ensure_next : String → Transaction → List WorkflowStep → Db → Db
ensure_next id t [] db = db
ensure_next id t (step ∷ steps) db =
    create_approval id t step.sort_order step.approval_department db

unfoldable pub ensure_required_approval : Env → String → Transaction → Db → Result Db
ensure_required_approval env id t db = do
  progress ← transaction_progress env t
  ok (
      if is_blocked progress
      then db
      else ensure_next id t (remaining_approval_steps progress.snapshot progress) db)

abbrev pub admit_decision :
    User → Env → String → ApprovalDecision → Db → Result (ApprovalRow × Transaction)
admit_decision user env id decision db = do
  current ←
      found
        (find (λ (row : ApprovalRow). row.id == id && row.organization_id == user.organization_id)
          db.rows)
        404 Reason.approval_not_found
  require (user.can_access_site current.site_id) 403 Reason.site_denied
  require (can_decide_approval user current) 403 Reason.approval_denied
  require (apply_approval_decision current.decision decision) 409 Reason.approval_decided
  t ← load_included current.transaction_id db
  assert_approval_workflow_ready env t
  ok (current, t)

abbrev pub after_approval : Env → String → Transaction → List WorkflowStep → Db → Result Db
after_approval env new_id t [] db = ok (
    if can_transition t.status TransactionStatus.approved
    then set_status t.id TransactionStatus.approved db
    else db)
after_approval env new_id t (step ∷ steps) db = ensure_required_approval env new_id t db

unfoldable pub approve_request : User → Env → String → String → Option String → Db → Result Db
approve_request user env new_id id comments db = do
  (current, t) ← admit_decision user env id ApprovalDecision.approved db
  claimed ← claim_row user id ApprovalDecision.approved comments db
  let noted =
      audited ApprovalAction.workflow_step_completed t.id
        (audited ApprovalAction.approval_approved current.id claimed)
  refreshed ← load_included t.id noted
  progress ← transaction_progress env refreshed
  after_approval env new_id refreshed (remaining_approval_steps progress.snapshot progress) noted

unfoldable pub reject_request : User → Env → String → String → Db → Result Db
reject_request user env id reason db = do
  (current, t) ← admit_decision user env id ApprovalDecision.rejected db
  claimed ← claim_row user id ApprovalDecision.rejected (some reason) db
  ok (
      audited ApprovalAction.workflow_step_rejected t.id (
        audited ApprovalAction.approval_rejected current.id (
          if can_transition t.status TransactionStatus.rejected
          then set_rejected t.id claimed
          else claimed)))
