-- ===== src/Lifecycle/Progress.antt =====
-- apps/api/src/modules/transactions/mapper.ts: `transactionProgress`, and the checks with which
-- each handler of lifecycle.ts begins.
use trinetra_systems.Common.{
  ℕ, filter, find, any, string_eq, is_some, Bool, true, false, ◌&&◌, List, [], ◌∷◌, map, Option,
  none, some, String, ◌==◌, if◌then◌else◌,
}
use trinetra_systems.Common.Int.{pos_part}
use trinetra_systems.Transaction.Status.{TransactionStatus, status_eq}
use trinetra_systems.Workflow.Steps.{UnloadingStatus, PendingApproval, WorkflowProgressContext}
use trinetra_systems.Weight.Decimal.{kg_to_milligrams}
use trinetra_systems.Weight.Net.{NetWeightResult, calculate_net_weight}
use trinetra_systems.Lifecycle.State.{
  WeighmentKind, kind_eq, ApprovalDecision, decision_eq, Weighment, Approval, Unloading,
  Transaction, Db, Actor, Env, Reason, Result, ok, failed, ◌>>=◌, ◌>>◌, http, require, found,
}

unfoldable pub weighment_of : WeighmentKind → Transaction → Option Weighment
weighment_of kind t = find (λ (w : Weighment). w.kind == kind) t.weighments

-- The net weight of two weighments, where both are there; `calculateNetWeight` may throw.
abbrev pub net_of : Env → Option Weighment → Option Weighment → Result (Option NetWeightResult)
net_of env (some g) (some t) =
    elim (calculate_net_weight (env.decimal_text g.weight_kg) (env.decimal_text t.weight_kg)) [
      | none ↦ failed (http 500 Reason.unreadable_weight)
      | some net ↦ ok (some net)
    ]
net_of env _ _ = ok none

-- `Number(gross.weightKg)`
abbrev pub gross_kg : Env → Option Weighment → Option ℕ
gross_kg env none = none
gross_kg env (some w) = elim (kg_to_milligrams (env.decimal_text w.weight_kg)) [
  | none ↦ none
  | some z ↦ some (pos_part z)
]

abbrev pub orders_of : ApprovalDecision → List Approval → List ℕ
orders_of decision approvals =
    map (λ (a : Approval). a.sort_order)
      (filter (λ (a : Approval). a.decision == decision) approvals)

abbrev pub pending_of : List Approval → Option PendingApproval
pending_of approvals =
    elim (find (λ (a : Approval). a.decision == ApprovalDecision.pending) approvals) [
      | none ↦ none
      | some a ↦
          some
            (record { id = a.id; sort_order = a.sort_order; department_name = a.department_name })
    ]

abbrev pub net_text : Env → Option (List ℕ) → Option NetWeightResult → Option (List ℕ)
net_text env (some stored) net = some (env.decimal_text stored)
net_text env none none = none
net_text env none (some net) = some net.net_as_decimal

abbrev pub exceeds : Option NetWeightResult → Bool
exceeds none = false
exceeds (some net) = net.tare_exceeds_gross

abbrev pub point_of : Option Unloading → Option String
point_of none = none
point_of (some unloading) = unloading.point_id

abbrev pub status_of : Option Unloading → Option UnloadingStatus
status_of none = none
status_of (some unloading) = some unloading.status

abbrev has_any : List Bool → Bool
has_any [] = false
has_any (d ∷ ds) = true

unfoldable pub progress_from : Env → Transaction → Option NetWeightResult → WorkflowProgressContext
progress_from env t net = record {
  status = t.status;
  has_vehicle = is_some t.vehicle;
  has_gross = is_some (weighment_of WeighmentKind.gross t);
  has_tare = is_some (weighment_of WeighmentKind.tare t);
  has_document = has_any t.documents;
  has_verified_document = any (λ verified. verified) t.documents;
  snapshot = t.snapshot;
  gross_weight = gross_kg env (weighment_of WeighmentKind.gross t);
  net_weight = net_text env t.net_weight_kg net;
  tare_exceeds_gross = exceeds net;
  has_unloading_point = is_some (point_of t.unloading);
  unloading_status = status_of t.unloading;
  is_completed = t.status == TransactionStatus.completed && t.completed_at;
  approved_step_sort_orders = orders_of ApprovalDecision.approved t.approvals;
  rejected_step_sort_orders = orders_of ApprovalDecision.rejected t.approvals;
  pending_approval = pending_of t.approvals;
}

unfoldable pub transaction_progress : Env → Transaction → Result WorkflowProgressContext
transaction_progress env t = do
  net ← net_of env (weighment_of WeighmentKind.gross t) (weighment_of WeighmentKind.tare t)
  ok (progress_from env t net)

-- apps/api/src/domain/transactionMutability.ts, thrown by `assertMutable`
unfoldable pub assert_mutable : TransactionStatus → Result (Unit {0})
assert_mutable status =
    if status == TransactionStatus.completed
    then failed (http 409 Reason.completed_locked)
    else if status == TransactionStatus.cancelled
    then failed (http 409 Reason.cancelled_locked)
    else ok tt

-- apps/api/src/modules/transactions/service.ts
unfoldable pub load_transaction : Actor → String → Db → Result Transaction
load_transaction actor id db = do
  t ←
      found
        (find (λ (t : Transaction). t.id == id && t.organization_id == actor.organization_id)
          db.transactions)
        404 Reason.transaction_not_found
  require (actor.can_access_site t.site_id) 403 Reason.site_denied
  ok t

unfoldable pub load_fresh : String → Db → Result Transaction
load_fresh id db =
    found (find (λ (t : Transaction). t.id == id) db.transactions) 404 Reason.transaction_not_found
