-- ===== src/Intake/Tests.antt =====
-- A batch at sample values: the rest of the database is the number of events that were processed.
use trinetra_systems.Common.{
  ℕ, ◌+◌, any, find, filter, includes, string_eq, ◌==◌, ◌⊎◌, true, false, List, [], ◌∷◌, map, Memᴰ,
  none, some, String, ◌≡◌, refl, arith,
}
use trinetra_systems.Transaction.Status.{TransactionStatus}
use trinetra_systems.Edge.Events.{EventPriority}
use trinetra_systems.Edge.Sync.{AckStatus}
use trinetra_systems.Intake.{
  EventType, EventType-discrete, DeviceType, DeviceType-discrete, IngestStatus-discrete,
  expected_device_types, Envelope, RawEnvelope, BatchItem, Gateway, Device, ConflictReason,
  DeadLetter, Db, Attempt, Handlers,
}
use trinetra_systems.Intake.Window.{envelope_error}
use trinetra_systems.Intake.Ingest.{
  find_ingested, device_refusal, process, process_checked, ingest_gateway_event, settle,
  update_ingested,
}
use trinetra_systems.Intake.Conflict.{detect_conflict}
use trinetra_systems.Intake.Conflict.Recorded.{Contradicts, conflict_row, detect_conflict_cases}
use trinetra_systems.Intake.Answers.{SyncAck}
use trinetra_systems.Intake.Batch.{
  State, is_processed, process_special_event, missing, try_item, ingest_item, ingest_items,
  ingest_sync_batch,
}
use trinetra_systems.Intake.Batch.Acks.{ingest_sync_batch-event_id}
use trinetra_systems.Intake.Batch.Dependencies.{IsSuccess, TookIn, ingest_item-dependencies}
use trinetra_systems.Intake.Batch.Once.{Delivery, receive_all, ingest_item-once}
use trinetra_systems.Intake.Batch.Known.{IsAnsweredAsKnown}
use trinetra_systems.Intake.Batch.Late.{ingest_item_of_late}

abbrev gateway : Gateway
gateway = record { id = "gw-1"; organization_id = "org-1"; site_id = "site-1" }

abbrev scale : Device
scale = record {
  id = "scale-1";
  gateway_id = "gw-1";
  organization_id = "org-1";
  site_id = "site-1";
  device_type = DeviceType.weighbridge_indicator;
  enabled = true;
}

abbrev handlers : Handlers ℕ
handlers = record {
  mapped = λ core id. some (record {
    local_state = "GROSS_CAPTURED";
    transaction = some ("tx-1", TransactionStatus.rejected);
  });
  upsert_local_transaction = λ e core. (core + 1, Attempt.done ("tx-1", false));
  apply_local_transaction_state = λ e core. (core + 1, Attempt.done (some "tx-1"));
  ingest_local_weight_anomaly = λ e core. (core + 1, Attempt.done true);
  process_envelope = λ e core. (core + 1, Attempt.done (some "w-1"));
}

abbrev weighed : Envelope
weighed = record {
  event_id = "event-01";
  gateway_id = "gw-1";
  device_id = "scale-1";
  device_type = DeviceType.weighbridge_indicator;
  event_type = EventType.weight_reading;
  timestamp = 1000;
  local_transaction_id = none;
  local_state = none;
  body = "";
}

abbrev item_of : Envelope → List String → BatchItem
item_of e depends_on = record {
  envelope = RawEnvelope.readable e;
  priority = EventPriority.critical;
  local_transaction_id = none;
  depends_on = depends_on;
  payload_hash = none;
}

abbrev first : BatchItem
first = item_of weighed []

abbrev second : BatchItem
second = item_of (record weighed { event_id = "event-02" }) ("event-01" ∷ [])

abbrev db : Db ℕ
db = record {
  ingested = [];
  devices = scale ∷ [];
  conflicts = [];
  dead_letters = [];
  audit = [];
  core = 0;
}

abbrev start : State ℕ
start = record { db = db; accepted_ids = [] }

ingest_sync_batch-event_id_example :
    map
      (λ (a : SyncAck). a.event_id)
      (ingest_sync_batch handlers gateway 2000 (first ∷ second ∷ []) db).1
    ≡ "event-01" ∷ "event-02" ∷ []
ingest_sync_batch-event_id_example =
    ingest_sync_batch-event_id handlers gateway 2000 (first ∷ second ∷ []) db

second-IsSuccess :
    IsSuccess
      (ingest_item handlers gateway 2000 second
        (ingest_items handlers gateway 2000 (first ∷ []) start).0).1
unfolding ingest_items ingest_item envelope_error includes expected_device_types DeviceType-discrete
    missing filter try_item find_ingested find detect_conflict process_special_event
    ingest_gateway_event process_checked device_refusal process settle update_ingested is_processed
    IngestStatus-discrete
second-IsSuccess = refl

ingest_item-dependencies_example :
    TookIn (ingest_items handlers gateway 2000 (first ∷ []) start).1 "event-01"
    ⊎ (is_processed gateway (ingest_items handlers gateway 2000 (first ∷ []) start).0.db "event-01"
        ≡ true)
ingest_item-dependencies_example =
    ingest_item-dependencies handlers gateway 2000 (first ∷ []) second db "event-01"
      second-IsSuccess (Memᴰ.head refl)

first-IsSuccess : IsSuccess (ingest_item handlers gateway 2000 first start).1
unfolding ingest_item envelope_error includes expected_device_types DeviceType-discrete missing
    filter try_item find_ingested find detect_conflict process_special_event ingest_gateway_event
    process_checked device_refusal process
first-IsSuccess = refl

-- The second event comes in the same batch, and again in one of its own, before the first one is
-- delivered again.
abbrev rest : State ℕ
rest =
    (ingest_items handlers gateway 2000 (second ∷ [])
      (ingest_item handlers gateway 2000 first start).0).0

abbrev batches : List Delivery
batches = record { gateway = gateway; at = 2500; items = second ∷ [] } ∷ []

abbrev left : State ℕ
left =
    (ingest_items handlers gateway 3000 []
      (record { db = receive_all handlers batches rest.db; accepted_ids = [] })).0

ingest_item-once_example :
    ((ingest_item handlers gateway 3000 first left).0.db ≡ left.db)
    × IsAnsweredAsKnown handlers gateway 3000 first weighed left
        (ingest_item handlers gateway 3000 first left).1.status
ingest_item-once_example =
    ingest_item-once handlers gateway gateway 2000 3000 first first weighed (second ∷ []) batches []
      [] start refl refl refl first-IsSuccess

in_thirty_days : envelope_error 700000000 2592000000 weighed ≡ none
unfolding envelope_error includes expected_device_types DeviceType-discrete
in_thirty_days = refl

ingest_item_of_late_example :
    ((ingest_item handlers gateway 700000000 first start).1.status ≡ AckStatus.rejected)
    × (any
          (λ (row : DeadLetter). row.event_id == "event-01")
          (ingest_item handlers gateway 700000000 first start).0.db.dead_letters
        ≡ true)
unfolding missing filter find_ingested find
ingest_item_of_late_example =
    ingest_item_of_late handlers gateway 700000000 first weighed start refl refl in_thirty_days refl
      refl (omega arith)

abbrev completed : Envelope
completed = record weighed {
  event_type = EventType.transaction_state;
  local_transaction_id = some "local-1";
  local_state = some "LOCAL_COMPLETED";
}

detect_conflict_cases_example :
    (Contradicts "LOCAL_COMPLETED" TransactionStatus.rejected
      × (left : Db ℕ) × (detect_conflict handlers gateway completed (some "local-1") db
          ≡ some (ConflictReason.completed_against TransactionStatus.rejected, "tx-1", left))
      × Memᴰ
          (conflict_row gateway completed "LOCAL_COMPLETED" TransactionStatus.rejected)
          left.conflicts
      × (left.ingested ≡ [])
      × (left.core ≡ 0))
    ⊎ (¬ Contradicts "LOCAL_COMPLETED" TransactionStatus.rejected
        × (detect_conflict handlers gateway completed (some "local-1") db ≡ none))
unfolding EventType-discrete
detect_conflict_cases_example =
    detect_conflict_cases handlers gateway completed (some "local-1") db "LOCAL_COMPLETED" "tx-1"
      TransactionStatus.rejected refl
