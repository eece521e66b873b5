-- ===== src/Intake/Batch.antt =====
-- apps/api/src/modules/sync/batch.ts and `recordDeadLetter` of snapshot.ts: the events of a batch
-- one after the other, each with its acknowledgement. The clock is read once for a batch.
pub mod Acks
pub mod Dependencies
pub mod Settled
pub mod Stays
pub mod Reported
pub mod Known
pub mod Once
pub mod Late
use trinetra_systems.Common.{
  ℕ, filter, any, includes, string_eq, leb, ltb, nat_eq, Bool, true, false, not, ◌&&◌, ◌||◌, List,
  [], ◌∷◌, ◌++◌, Option, none, some, String, ◌==◌, ◌!=◌, map, if◌then◌else◌,
}
use trinetra_systems.Edge.Events.{EventPriority}
use trinetra_systems.Edge.Store.{or_default, or_other}
use trinetra_systems.Edge.Sync.{
  AckStatus, accepted, already_processed, conflict, rejected, dependency_pending,
}
use trinetra_systems.Intake.{
  EventType, weight_reading, anpr_detection, status_changed, scan_completed, transaction_created,
  transaction_state, weight_anomaly, file_captured, connectivity_changed, Envelope, RawEnvelope,
  unreadable, readable, BatchItem, Gateway, Device, IngestStatus, IngestedEvent, ConflictReason,
  DeadLetter, IntakeAction, Db, Failure, http, crashed, Attempt, done, threw, Handlers,
}
use trinetra_systems.Intake.Window.{max_sync_event_age_ms, envelope_error}
use trinetra_systems.Intake.Ingest.{
  find_ingested, is_settled, update_ingested, new_ingested, with_ingested, with_core, audited,
  ingest_gateway_event,
}
use trinetra_systems.Intake.Conflict.{detect_conflict}
use trinetra_systems.Intake.Answers.{
  AckMessage, SyncAck, is_successful_ack, ack, rejected_ack, accepted_ack, status_of, already_ack,
  duplicate_ack, conflict_ack, failure_message, is_dependency, is_permanent, failure_ack,
  upsert_dead_letter, synced_row, settled_row,
}

-- `accepted_ids` is the set `accepted`.
pub record State {ℓ} (C : Type ℓ) : Type ℓ where
  pub db : Db C
  pub accepted_ids : List String

module _ {ℓ} {C : Type ℓ} where
  unfoldable pub is_processed : Gateway → Db C → String → Bool
  is_processed gateway db id = elim (find_ingested id db.ingested) [
    | none ↦ false
    | some row ↦ row.gateway_id == gateway.id && is_settled row
  ]

  abbrev pub has_device : Gateway → Db C → Bool
  has_device gateway db =
      any
        (λ (d : Device). d.gateway_id == gateway.id && d.organization_id == gateway.organization_id)
        db.devices

  abbrev pub remember_new : Gateway → Envelope → Db C → Option IngestedEvent → Db C
  remember_new gateway e db (some row) = db
  remember_new gateway e db none =
      if has_device gateway db
      then with_ingested
          (db.ingested
            ++ record (new_ingested e.event_id gateway.id IngestStatus.processed) {
              local_transaction_id = e.local_transaction_id;
              ack_status = some AckStatus.accepted;
            }
              ∷ [])
          db
      else db

  unfoldable pub remember_event : Gateway → Envelope → Db C → Db C
  remember_event gateway e db = remember_new gateway e db (find_ingested e.event_id db.ingested)

  -- what the cases of `processSpecialEvent` do after their handler
  abbrev pub remembered {κ} :
      {A : Type κ}
      → Gateway
      → Envelope
      → (A → SyncAck)
      → Db C
      → C × Attempt A
      → Db C × Attempt SyncAck
  remembered gateway e answer db (core, result) = elim result [
    | threw f ↦ (with_core core db, Attempt.threw f)
    | done a ↦ (remember_event gateway e (with_core core db), Attempt.done (answer a))
  ]

  abbrev pub special :
      Handlers C → Gateway → Envelope → EventType → Db C → Option (Db C × Attempt SyncAck)
  special h gateway e transaction_created db = some (
      remembered gateway e (λ (p : String × Bool). already_ack e.event_id none (some p.0) p.1) db
        (h.upsert_local_transaction e db.core))
  special h gateway e transaction_state db = some (
      remembered gateway e (accepted_ack e.event_id) db (h.apply_local_transaction_state e db.core))
  special h gateway e weight_anomaly db = some (
      remembered gateway e (λ created. already_ack e.event_id none none (not created)) db
        (h.ingest_local_weight_anomaly e db.core))
  special h gateway e file_captured db =
      some (remember_event gateway e db, Attempt.done (accepted_ack e.event_id none))
  special h gateway e connectivity_changed db =
      some (remember_event gateway e db, Attempt.done (accepted_ack e.event_id none))
  special h gateway e weight_reading db = none
  special h gateway e anpr_detection db = none
  special h gateway e status_changed db = none
  special h gateway e scan_completed db = none

  unfoldable pub process_special_event :
      Handlers C → Gateway → Envelope → Db C → Option (Db C × Attempt SyncAck)
  process_special_event h gateway e db = special h gateway e e.event_type db

  abbrev pub synced_special : Envelope → Db C × Attempt SyncAck → Db C × Attempt SyncAck
  synced_special e (db, result) = elim result [
    | threw f ↦ (db, Attempt.threw f)
    | done a ↦ (audited IntakeAction.event_synced e.event_id db, Attempt.done a)
  ]

  abbrev pub synced_ingested :
      BatchItem → Envelope → Db C × Attempt (Option String × Bool) → Db C × Attempt SyncAck
  synced_ingested item e (db, result) = elim result [
    | threw f ↦ (db, Attempt.threw f)
    | done (weighment, already) ↦ (
      with_ingested (update_ingested e.event_id (synced_row item already) db.ingested) db,
      Attempt.done (already_ack e.event_id weighment none already),
    )
  ]

  abbrev pub after_special :
      Handlers C
      → Gateway
      → ℕ
      → BatchItem
      → Envelope
      → Db C
      → Option (Db C × Attempt SyncAck)
      → Db C × Attempt SyncAck
  after_special h gateway now item e db (some left) = synced_special e left
  after_special h gateway now item e db none =
      synced_ingested item e (ingest_gateway_event h gateway now e db)

  abbrev pub after_conflict :
      Handlers C
      → Gateway
      → ℕ
      → BatchItem
      → Envelope
      → Db C
      → Option (ConflictReason × String × Db C)
      → Db C × Attempt SyncAck
  after_conflict h gateway now item e db (some (reason, transaction, left)) =
      (left, Attempt.done (conflict_ack e.event_id reason transaction))
  after_conflict h gateway now item e db none =
      after_special h gateway now item e db (process_special_event h gateway e db)

  abbrev pub after_duplicate :
      Handlers C
      → Gateway
      → ℕ
      → BatchItem
      → Envelope
      → Db C
      → Option IngestedEvent
      → Db C × Attempt SyncAck
  after_duplicate h gateway now item e db (some row) =
      (db, Attempt.done (duplicate_ack e.event_id row.weighment_id))
  after_duplicate h gateway now item e db none =
      after_conflict h gateway now item e db
        (detect_conflict h gateway e (or_other item.local_transaction_id e.local_transaction_id) db)

  -- the `try` block
  unfoldable pub try_item :
      Handlers C → Gateway → ℕ → BatchItem → Envelope → Db C → Db C × Attempt SyncAck
  try_item h gateway now item e db =
      after_duplicate h gateway now item e db (settled_row (find_ingested e.event_id db.ingested))

  abbrev pub with_dead_letter : Envelope → Failure → Db C → Db C
  with_dead_letter e f db =
      if is_permanent f
      then record db {
        dead_letters =
            upsert_dead_letter
              (record { event_id = e.event_id; error = failure_message f; retry_count = 8 })
              db.dead_letters;
      }
      else db

  abbrev pub conclude : Envelope → List String → Db C × Attempt SyncAck → State C × SyncAck
  conclude e known (db, result) = elim result [
    | done a ↦ (
      record {
        db = db;
        accepted_ids = if is_successful_ack a.status then e.event_id ∷ known else known;
      },
      a,
    )
    | threw f ↦
        (record { db = with_dead_letter e f db; accepted_ids = known }, failure_ack e.event_id f)
  ]

  unfoldable pub missing : Gateway → List String → State C → List String
  missing gateway ids s =
      filter (λ id. not (includes s.accepted_ids id || is_processed gateway s.db id)) ids

  abbrev pub take_item :
      Handlers C → Gateway → ℕ → BatchItem → Envelope → List String → State C → State C × SyncAck
  take_item h gateway now item e [] s =
      conclude e s.accepted_ids (try_item h gateway now item e s.db)
  take_item h gateway now item e (id ∷ ids) s =
      (s, ack e.event_id AckStatus.dependency_pending (some (AckMessage.waiting_for (id ∷ ids))))

  abbrev pub in_window :
      Handlers C → Gateway → ℕ → BatchItem → Envelope → State C → Option String → State C × SyncAck
  in_window h gateway now item e s (some message) = (s, rejected_ack e.event_id message)
  in_window h gateway now item e s none =
      take_item h gateway now item e (missing gateway item.depends_on s) s

  abbrev pub read_item :
      Handlers C → Gateway → ℕ → BatchItem → Envelope → State C → State C × SyncAck
  read_item h gateway now item e s =
      in_window h gateway now item e s (envelope_error now max_sync_event_age_ms e)

  abbrev pub parsed :
      Handlers C → Gateway → ℕ → BatchItem → State C → RawEnvelope → State C × SyncAck
  parsed h gateway now item s (unreadable id message) =
      (s, rejected_ack (or_default id "UNKNOWN-EVENT") message)
  parsed h gateway now item s (readable e) = read_item h gateway now item e s

  -- the body of the loop
  unfoldable pub ingest_item : Handlers C → Gateway → ℕ → BatchItem → State C → State C × SyncAck
  ingest_item h gateway now item s = parsed h gateway now item s item.envelope

  unfoldable pub ingest_items :
      Handlers C → Gateway → ℕ → List BatchItem → State C → State C × List SyncAck
  ingest_items h gateway now [] s = (s, [])
  ingest_items h gateway now (item ∷ items) s =
      let (next, a) = ingest_item h gateway now item s in
      let (last, acks) = ingest_items h gateway now items next in (last, a ∷ acks)

  unfoldable pub ingest_sync_batch :
      Handlers C → Gateway → ℕ → List BatchItem → Db C → Db C × List SyncAck
  ingest_sync_batch h gateway now items db =
      let (s, acks) = ingest_items h gateway now items (record { db = db; accepted_ids = [] }) in
      (s.db, acks)
