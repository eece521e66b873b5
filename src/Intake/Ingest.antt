-- ===== src/Intake/Ingest.antt =====
-- apps/api/src/modules/edge/ingest.ts: an event that a gateway reports is checked, stored, processed
-- once and marked as processed. No two requests run at the same time.
use trinetra_systems.Common.{
  ℕ, find, includes, string_eq, Bool, true, false, not, ◌&&◌, ◌||◌, List, [], ◌∷◌, ◌++◌, map,
  Option, none, some, String, ◌==◌, ◌!=◌, if◌then◌else◌,
}
use trinetra_systems.Intake.{
  device_type_eq, expected_device_types, Envelope, Gateway, Device, IngestStatus, ingest_status_eq,
  IngestedEvent, IntakeAction, Db, Failure, Attempt, done, threw, Handlers,
}
use trinetra_systems.Intake.Window.{max_event_age_ms, envelope_error}

unfoldable pub find_ingested : String → List IngestedEvent → Option IngestedEvent
find_ingested id = find (λ (r : IngestedEvent). r.event_id == id)

abbrev pub is_settled : IngestedEvent → Bool
is_settled r = r.status == IngestStatus.processed || r.status == IngestStatus.rejected

unfoldable pub update_ingested :
    String → (IngestedEvent → IngestedEvent) → List IngestedEvent → List IngestedEvent
update_ingested id change = map (λ (r : IngestedEvent). if r.event_id == id then change r else r)

abbrev pub new_ingested : String → String → IngestStatus → IngestedEvent
new_ingested id gateway_id status = record {
  event_id = id;
  gateway_id = gateway_id;
  status = status;
  weighment_id = none;
  priority = none;
  local_transaction_id = none;
  payload_hash = none;
  ack_status = none;
}

abbrev pub as_processed : Option String → IngestedEvent → IngestedEvent
as_processed weighment r = record r { status = IngestStatus.processed; weighment_id = weighment }

abbrev pub is_device_of : Gateway → Envelope → Device → Bool
is_device_of gateway e d =
    d.id == e.device_id
    && d.gateway_id == gateway.id
    && d.organization_id == gateway.organization_id

module _ {ℓ} {C : Type ℓ} where
  abbrev pub with_ingested : List IngestedEvent → Db C → Db C
  with_ingested rows db = record db { ingested = rows }

  abbrev pub with_core : C → Db C → Db C
  with_core core db = record db { core = core }

  abbrev pub audited : IntakeAction → String → Db C → Db C
  audited action id db = record db { audit = db.audit ++ (action, id) ∷ [] }

  unfoldable pub device_refusal : Gateway → Envelope → Db C → Option Failure
  device_refusal gateway e db = elim (find (is_device_of gateway e) db.devices) [
    | none ↦ some (Failure.http 403 "Device does not belong to this gateway")
    | some d ↦
        if d.site_id != gateway.site_id
        then some (Failure.http 403 "Device site does not match the registered gateway")
        else if not d.enabled
        then some (Failure.http 409 "Device is disabled")
        else if not (includes (expected_device_types e.event_type) d.device_type)
        then some (Failure.http 400 "Event type does not match the registered device type")
        else none
  ]

  unfoldable pub settle : Envelope → Option String → Db C → Db C
  settle e weighment db =
      audited IntakeAction.event_ingested e.event_id
        (with_ingested (update_ingested e.event_id (as_processed weighment) db.ingested) db)

  abbrev pub processed_with :
      Envelope → Db C → Attempt (Option String) → Db C × Attempt (Option String × Bool)
  processed_with e db result = elim result [
    | threw f ↦ (db, Attempt.threw f)
    | done weighment ↦ (settle e weighment db, Attempt.done (weighment, false))
  ]

  unfoldable pub process : Handlers C → Envelope → Db C → Db C × Attempt (Option String × Bool)
  process h e db =
      let (core, result) = h.process_envelope e db.core in
      processed_with e (with_core core db) result

  abbrev pub add_received : Gateway → Envelope → Db C → Db C
  add_received gateway e db =
      with_ingested (db.ingested ++ new_ingested e.event_id gateway.id IngestStatus.received ∷ [])
        db

  abbrev pub with_device :
      Handlers C
      → Gateway
      → Envelope
      → Bool
      → Db C
      → Option Failure
      → Db C × Attempt (Option String × Bool)
  with_device h gateway e known db (some f) = (db, Attempt.threw f)
  with_device h gateway e known db none =
      process h e (if known then db else add_received gateway e db)

  unfoldable pub process_checked :
      Handlers C → Gateway → Envelope → Bool → Db C → Db C × Attempt (Option String × Bool)
  process_checked h gateway e known db =
      with_device h gateway e known db (device_refusal gateway e db)

  abbrev pub with_known :
      Handlers C
      → Gateway
      → Envelope
      → Db C
      → Option IngestedEvent
      → Db C × Attempt (Option String × Bool)
  with_known h gateway e db none = process_checked h gateway e false db
  with_known h gateway e db (some row) =
      if row.gateway_id != gateway.id
      then (db, Attempt.threw (Failure.http 409 "Event ID is already used by another gateway"))
      else if is_settled row
      then (
        audited IntakeAction.event_duplicate row.event_id db,
        Attempt.done (row.weighment_id, true),
      )
      else process_checked h gateway e true db

  abbrev pub with_envelope :
      Handlers C → Gateway → Envelope → Db C → Option String → Db C × Attempt (Option String × Bool)
  with_envelope h gateway e db (some message) = (db, Attempt.threw (Failure.http 400 message))
  with_envelope h gateway e db none =
      if e.gateway_id != gateway.id
      then (
        db,
        Attempt.threw (Failure.http 403 "Event gateway does not match the authenticated gateway"),
      )
      else with_known h gateway e db (find_ingested e.event_id db.ingested)

  unfoldable pub ingest_gateway_event :
      Handlers C → Gateway → ℕ → Envelope → Db C → Db C × Attempt (Option String × Bool)
  ingest_gateway_event h gateway now e db =
      with_envelope h gateway e db (envelope_error now max_event_age_ms e)
