-- ===== src/Lifecycle/Handlers.antt =====
-- apps/api/src/modules/transactions/lifecycle.ts: the handlers.
pub mod Runs
pub mod Completion
pub mod SecondWeighment
use trinetra_systems.Common.{
  ℕ, suc, ◌+◌, length, filter, find, any, nat_eq, string_eq, is_some, Bool, true, false, not, ◌&&◌,
  ◌||◌, List, [], ◌∷◌, ◌++◌, map, Option, none, some, String, ◌==◌, ◌!=◌, if◌then◌else◌,
}
use trinetra_systems.Transaction.Status.{TransactionStatus, status_eq, can_transition}
use trinetra_systems.Workflow.Steps.{UnloadingStatus, WorkflowProgressContext}
use trinetra_systems.Workflow.Guards.Refusals.{Refusal}
use trinetra_systems.Workflow.Guards.{
  assert_can_assign_unloading, assert_can_start_unloading, assert_can_complete_unloading,
  assert_can_record_second_weighment, assert_can_finalize,
}
use trinetra_systems.Weight.Net.{NetWeightResult, calculate_net_weight}
use trinetra_systems.Weight.Parse.{
  WeightInput, Parsed, ParsedWeight, parse_weight_kg, outside_limits,
}
use trinetra_systems.Lifecycle.State.{
  WeighmentKind, kind_eq, Weighment, Unloading, Transaction, Point, Weighbridge, AuditAction, Db,
  Actor, Env, Reason, Result, ok, failed, ◌>>=◌, ◌>>◌, http, require, found, unless_refused,
  update_where, update_transaction, write_audit,
}
use trinetra_systems.Lifecycle.Progress.{
  weighment_of, point_of, transaction_progress, assert_mutable, load_transaction, load_fresh,
}
use trinetra_systems.Lifecycle.Points.{
  resolve_configured_point, load_assignable_point, occupy_point, release_point_if_idle,
}

-- the new database and the record that `loadFresh` reads from it
abbrev pub fresh : String → Db → Result (Db × Transaction)
fresh id db = do t ← load_fresh id db; ok (db, t)

-- how every handler begins: the transaction is loaded, not locked, and its guard does not refuse
unfoldable pub admit :
    Env → Actor → String → (WorkflowProgressContext → Option Refusal) → Db → Result Transaction
admit env actor id guard db = do
  t ← load_transaction actor id db
  assert_mutable t.status
  progress ← transaction_progress env t
  unless_refused (guard progress)
  ok t

unfoldable pub chosen_point : Env → Actor → Transaction → Option String → Db → Result Point
chosen_point env actor t none db = resolve_configured_point env actor t.site_id t.material_id db
chosen_point env actor t (some point) db =
    load_assignable_point actor t.site_id point t.material_id t.id db

-- `if (previousPointId && previousPointId !== point.id) await releasePointIfIdle(...)`
unfoldable pub release_previous : Option String → String → String → Db → Db
release_previous none point id db = db
release_previous (some previous) point id db =
    if previous != point then release_point_if_idle previous id db else db

-- the upsert of the unloading row
abbrev pub assign_to : String → Transaction → Transaction
assign_to point t = record t {
  unloading = some (record { point_id = some point; status = UnloadingStatus.not_started });
}

unfoldable pub assign_unloading :
    Env → Actor → String → Option String → Db → Result (Db × Transaction)
assign_unloading env actor id wanted db = do
  t ← admit env actor id assert_can_assign_unloading db
  point ← chosen_point env actor t wanted db
  occupied ← occupy_point point.id t.id (release_previous (point_of t.unloading) point.id t.id db)
  fresh t.id (
      write_audit AuditAction.unloading_point_assigned t.id
        (update_transaction t.id (assign_to point.id) occupied))

abbrev pub set_unloading_status : UnloadingStatus → Option Unloading → Option Unloading
set_unloading_status status none = none
set_unloading_status status (some unloading) = some (record unloading { status = status })

abbrev pub with_unloading : UnloadingStatus → Transaction → Transaction
with_unloading status t = record t { unloading = set_unloading_status status t.unloading }

abbrev pub with_status : TransactionStatus → Transaction → Transaction
with_status status t = record t { status = status }

unfoldable pub start_unloading : Env → Actor → String → Db → Result (Db × Transaction)
start_unloading env actor id db = do
  t ← admit env actor id assert_can_start_unloading db
  require (can_transition t.status TransactionStatus.unloading) 409
      (Reason.wrong_status TransactionStatus.unloading)
  point ← found (point_of t.unloading) 409 Reason.point_not_assigned
  occupied ← occupy_point point t.id db
  fresh t.id (
      write_audit AuditAction.unloading_started t.id (
        update_transaction t.id (with_status TransactionStatus.unloading)
          (update_transaction t.id (with_unloading UnloadingStatus.in_progress) occupied)))

abbrev pub is_claimed : String → TransactionStatus → Transaction → Bool
is_claimed id status t = t.id == id && t.status == status

-- `updateMany({ where: { id, status }, data })`, whose count must be 1
unfoldable pub claim : String → TransactionStatus → (Transaction → Transaction) → Db → Result Db
claim id status change db = do
  require (length (filter (is_claimed id status) db.transactions) == 1) 409 Reason.updated_by_other
  ok (record db {
    transactions =
        map (λ (t : Transaction). if is_claimed id status t then change t else t) db.transactions;
  })

unfoldable pub release_held : Option String → String → Db → Db
release_held none id db = db
release_held (some point) id db = release_point_if_idle point id db

unfoldable pub complete_unloading : Env → Actor → String → Db → Result (Db × Transaction)
complete_unloading env actor id db = do
  t ← admit env actor id assert_can_complete_unloading db
  require (can_transition t.status TransactionStatus.unloaded) 409
      (Reason.wrong_status TransactionStatus.unloaded)
  claimed ← claim t.id TransactionStatus.unloading (with_status TransactionStatus.unloaded) (
      release_held (point_of t.unloading) t.id
        (update_transaction t.id (with_unloading UnloadingStatus.completed) db))
  fresh t.id (write_audit AuditAction.unloading_completed t.id claimed)

abbrev pub or_assigned : Option String → Option String → Option String
or_assigned (some wanted) assigned = some wanted
or_assigned none assigned = assigned

abbrev pub matches_assigned : String → Option String → Bool
matches_assigned wanted none = true
matches_assigned wanted (some assigned) = wanted == assigned

unfoldable pub accessible_weighbridge : Actor → String → Db → Result Weighbridge
accessible_weighbridge actor id db = do
  bridge ←
      found
        (find (λ (b : Weighbridge). b.id == id && b.organization_id == actor.organization_id)
          db.weighbridges)
        404 Reason.weighbridge_not_found
  require (actor.can_access_weighbridge bridge.id bridge.site_id) 403 Reason.weighbridge_denied
  ok bridge

unfoldable pub weight_within : Env → WeightInput → Result ParsedWeight
weight_within env input = elim (parse_weight_kg input) [
  | Parsed.invalid e ↦ failed (http 400 (Reason.invalid_weight e))
  | Parsed.parsed weight ↦
      if outside_limits weight env.limits
      then failed (http 400 Reason.weight_outside_limits)
      else ok weight
]

unfoldable pub net_weight_of : Env → List ℕ → List ℕ → Result NetWeightResult
net_weight_of env gross tare = found (calculate_net_weight gross tare) 500 Reason.unreadable_weight

-- the created weighment, and the transaction's row after the second weighment
abbrev pub second_status : NetWeightResult → TransactionStatus
second_status net =
    if net.tare_exceeds_gross
    then TransactionStatus.exception
    else TransactionStatus.second_weighment

abbrev pub with_weighment : Weighment → Transaction → Transaction
with_weighment weighment t = record t { weighments = t.weighments ++ weighment ∷ [] }

abbrev pub after_second : String → NetWeightResult → Transaction → Transaction
after_second bridge net t = record t {
  weighbridge_id = some bridge;
  status = second_status net;
  net_weight_kg = some net.net_as_decimal;
  exception_reason = t.exception_reason || net.tare_exceeds_gross;
}

abbrev pub exception_audit : NetWeightResult → String → Db → Db
exception_audit net id db =
    if net.tare_exceeds_gross then write_audit AuditAction.transaction_exception id db else db

unfoldable pub record_second_weighment :
    Env → Actor → String → WeightInput → Option String → Db → Result (Db × Transaction)
record_second_weighment env actor id input wanted db = do
  weight ← weight_within env input
  t ← admit env actor id assert_can_record_second_weighment db
  require (not (any (λ (w : Weighment). w.kind == WeighmentKind.tare) t.weighments)) 409
      Reason.tare_recorded
  gross ← found (weighment_of WeighmentKind.gross t) 409 Reason.gross_required
  bridge_id ← found (or_assigned wanted t.weighbridge_id) 400 Reason.weighbridge_required
  require (matches_assigned bridge_id t.weighbridge_id) 400 Reason.weighbridge_mismatch
  bridge ← accessible_weighbridge actor bridge_id db
  require bridge.is_active 400 Reason.weighbridge_offline
  let tare : Weighment = record {
    kind = WeighmentKind.tare;
    sequence = length t.weighments + 1;
    weighbridge_id = bridge_id;
    weight_kg = weight.as_decimal;
  }
  net ← net_weight_of env (env.decimal_text gross.weight_kg) weight.as_decimal
  require (can_transition t.status (second_status net)) 409
      (Reason.wrong_status (second_status net))
  fresh t.id (
      exception_audit net t.id (
        write_audit AuditAction.net_weight_calculated t.id (
          write_audit AuditAction.second_weighment_recorded t.id (
            update_transaction t.id (after_second bridge_id net)
              (update_transaction t.id (with_weighment tare) db)))))

abbrev pub as_completed : NetWeightResult → Transaction → Transaction
as_completed net t = record t {
  status = TransactionStatus.completed;
  completed_at = true;
  net_weight_kg = some net.net_as_decimal;
}

unfoldable pub finalize_transaction : Env → Actor → String → Db → Result (Db × Transaction)
finalize_transaction env actor id db = do
  t ← admit env actor id assert_can_finalize db
  require (can_transition t.status TransactionStatus.completed) 409
      (Reason.wrong_status TransactionStatus.completed)
  gross ← found (weighment_of WeighmentKind.gross t) 409 Reason.weighments_required
  tare ← found (weighment_of WeighmentKind.tare t) 409 Reason.weighments_required
  net ← net_weight_of env (env.decimal_text gross.weight_kg) (env.decimal_text tare.weight_kg)
  require (not net.tare_exceeds_gross) 409 Reason.weight_exception
  claimed ← claim t.id TransactionStatus.second_weighment (as_completed net) db
  fresh t.id (write_audit AuditAction.transaction_completed t.id claimed)
