-- ===== src/Intake/Answers.antt =====
-- The acknowledgements of apps/api/src/modules/sync/batch.ts, `isSuccessfulAck` of
-- apps/api/src/domain/edgeQueue.ts, the errors, and the rows that a batch writes.
use trinetra_systems.Common.{
  any, string_eq, leb, ltb, nat_eq, Bool, true, false, ◌&&◌, List, [], ◌∷◌, ◌++◌, Option, none,
  some, String, ◌==◌, ◌!=◌, map, if◌then◌else◌,
}
use trinetra_systems.Edge.Sync.{
  AckStatus, accepted, already_processed, conflict, rejected, dependency_pending,
}
use trinetra_systems.Intake.{
  BatchItem, IngestedEvent, ConflictReason, DeadLetter, Failure, http, crashed,
}
use trinetra_systems.Intake.Ingest.{is_settled}

pub data AckMessage : Type 0 where
  text : String → AckMessage
  waiting_for : List String → AckMessage
  conflict_because : ConflictReason → AckMessage

-- `PublicSyncAck`; the key of a conflict is its gateway and its event.
pub record SyncAck : Type 0 where
  pub event_id : String
  pub status : AckStatus
  pub message : Option AckMessage
  pub weighment_id : Option String
  pub transaction_id : Option String
  pub already_processed : Bool

abbrev pub is_successful_ack : AckStatus → Bool
is_successful_ack status = elim status [
  | accepted ↦ true
  | already_processed ↦ true
  | conflict ↦ false
  | rejected ↦ false
  | dependency_pending ↦ false
]

abbrev pub ack : String → AckStatus → Option AckMessage → SyncAck
ack id status message = record {
  event_id = id;
  status = status;
  message = message;
  weighment_id = none;
  transaction_id = none;
  already_processed = false;
}

abbrev pub rejected_ack : String → String → SyncAck
rejected_ack id message = ack id AckStatus.rejected (some (AckMessage.text message))

abbrev pub accepted_ack : String → Option String → SyncAck
accepted_ack id transaction = record (ack id AckStatus.accepted none) {
  transaction_id = transaction;
}

abbrev pub status_of : Bool → AckStatus
status_of already = if already then AckStatus.already_processed else AckStatus.accepted

abbrev pub already_ack : String → Option String → Option String → Bool → SyncAck
already_ack id weighment transaction already = record (ack id (status_of already) none) {
  weighment_id = weighment;
  transaction_id = transaction;
  already_processed = already;
}

abbrev pub duplicate_ack : String → Option String → SyncAck
duplicate_ack id weighment = record (already_ack id weighment none true) {
  message = some (AckMessage.text "Event was already processed");
}

abbrev pub conflict_ack : String → ConflictReason → String → SyncAck
conflict_ack id reason transaction =
    record (ack id AckStatus.conflict (some (AckMessage.conflict_because reason))) {
      transaction_id = some transaction;
    }

abbrev pub failure_message : Failure → String
failure_message (http status message) = message
failure_message (crashed message) = message

abbrev pub is_dependency : Failure → Bool
is_dependency (http status message) = status == 409
is_dependency (crashed message) = false

-- the test `permanent`
unfoldable pub is_permanent : Failure → Bool
is_permanent (http status message) = leb 400 status && ltb status 500 && status != 409
is_permanent (crashed message) = false

abbrev pub failure_ack : String → Failure → SyncAck
failure_ack id f =
    ack id (if is_dependency f then AckStatus.dependency_pending else AckStatus.rejected)
      (some (AckMessage.text (failure_message f)))

unfoldable pub upsert_dead_letter : DeadLetter → List DeadLetter → List DeadLetter
upsert_dead_letter d rows =
    if any (λ (row : DeadLetter). row.event_id == d.event_id) rows
    then map (λ (row : DeadLetter). if row.event_id == d.event_id then d else row) rows
    else rows ++ d ∷ []

abbrev pub synced_row : BatchItem → Bool → IngestedEvent → IngestedEvent
synced_row item already r = record r {
  priority = some item.priority;
  local_transaction_id = item.local_transaction_id;
  payload_hash = item.payload_hash;
  ack_status = some (status_of already);
}

abbrev pub settled_row : Option IngestedEvent → Option IngestedEvent
settled_row none = none
settled_row (some row) = if is_settled row then some row else none
