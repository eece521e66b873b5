-- ===== src/Intake.antt =====
-- The intake of a gateway's events by the server (apps/api/src/modules/sync and modules/edge): its
-- rows, its answers, and the handlers of other modules that it calls. An instant is a number of
-- milliseconds; of a payload only the entries that the intake reads are kept, `body` is the rest.
pub mod Window
pub mod Ingest
pub mod Conflict
pub mod Answers
pub mod Batch
pub mod Tests
use trinetra_systems.Common.{ℕ, Bool, List, [], ◌∷◌, Option, String, Eq, eq_of}
use trinetra_systems.Transaction.Status.{TransactionStatus}
use trinetra_systems.Edge.Events.{EventPriority}
use trinetra_systems.Edge.Sync.{AckStatus}

pub data EventType : Type 0 where
  weight_reading anpr_detection status_changed scan_completed : EventType
  transaction_created transaction_state weight_anomaly file_captured : EventType
  connectivity_changed : EventType

unfoldable pub EventType-discrete : Discrete EventType
EventType-discrete = hlevel

instance abbrev pub event_type_eq : Eq EventType
event_type_eq = eq_of EventType-discrete

pub data DeviceType : Type 0 where
  weighbridge_indicator camera scanner barcode_scanner sensor plc other : DeviceType

unfoldable pub DeviceType-discrete : Discrete DeviceType
DeviceType-discrete = hlevel

instance abbrev pub device_type_eq : Eq DeviceType
device_type_eq = eq_of DeviceType-discrete

abbrev pub device_types : List DeviceType
device_types =
    weighbridge_indicator ∷ camera ∷ scanner ∷ barcode_scanner ∷ sensor ∷ plc ∷ other ∷ []

unfoldable pub expected_device_types : EventType → List DeviceType
expected_device_types weight_reading = weighbridge_indicator ∷ []
expected_device_types anpr_detection = camera ∷ []
expected_device_types scan_completed = scanner ∷ barcode_scanner ∷ []
expected_device_types status_changed = device_types
expected_device_types transaction_created = device_types
expected_device_types transaction_state = device_types
expected_device_types weight_anomaly = device_types
expected_device_types file_captured = device_types
expected_device_types connectivity_changed = device_types

pub record Envelope : Type 0 where
  pub event_id : String
  pub gateway_id : String
  pub device_id : String
  pub device_type : DeviceType
  pub event_type : EventType
  pub timestamp : ℕ
  pub local_transaction_id : Option String
  pub local_state : Option String
  pub body : String

-- A body that lacks an entry or has it in a wrong form is `unreadable`: its event id, where that
-- is a text, and what is wrong with it.
pub data RawEnvelope : Type 0 where
  unreadable : Option String → String → RawEnvelope
  readable : Envelope → RawEnvelope

pub record BatchItem : Type 0 where
  pub envelope : RawEnvelope
  pub priority : EventPriority
  pub local_transaction_id : Option String
  pub depends_on : List String
  pub payload_hash : Option String

pub record Gateway : Type 0 where
  pub id : String
  pub organization_id : String
  pub site_id : String

pub record Device : Type 0 where
  pub id : String
  pub gateway_id : String
  pub organization_id : String
  pub site_id : String
  pub device_type : DeviceType
  pub enabled : Bool

pub data IngestStatus : Type 0 where
  received processed rejected : IngestStatus

unfoldable pub IngestStatus-discrete : Discrete IngestStatus
IngestStatus-discrete = hlevel

instance abbrev pub ingest_status_eq : Eq IngestStatus
ingest_status_eq = eq_of IngestStatus-discrete

-- a row of `edgeIngestedEvent`
pub record IngestedEvent : Type 0 where
  pub event_id : String
  pub gateway_id : String
  pub status : IngestStatus
  pub weighment_id : Option String
  pub priority : Option EventPriority
  pub local_transaction_id : Option String
  pub payload_hash : Option String
  pub ack_status : Option AckStatus

pub data ConflictReason : Type 0 where
  completed_against : TransactionStatus → ConflictReason
  paused_against_completed : ConflictReason

-- a row of `edgeSyncConflict`, of which gateway and event are the key
pub record SyncConflict : Type 0 where
  pub gateway_id : String
  pub event_id : String
  pub local_state : String
  pub central_state : TransactionStatus
  pub reason : ConflictReason

pub record DeadLetter : Type 0 where
  pub event_id : String
  pub error : String
  pub retry_count : ℕ

pub data IntakeAction : Type 0 where
  event_duplicate event_ingested event_synced conflict_detected : IntakeAction

-- The tables of the intake, with the rest of the database.
pub record Db {ℓ} (C : Type ℓ) : Type ℓ where
  pub ingested : List IngestedEvent
  pub devices : List Device
  pub conflicts : List SyncConflict
  pub dead_letters : List DeadLetter
  pub audit : List (IntakeAction × String)
  pub core : C

-- `http` is an `HttpError`, and `crashed` any other error.
pub data Failure : Type 0 where
  http : ℕ → String → Failure
  crashed : String → Failure

pub data Attempt {ℓ} (A : Type ℓ) : Type ℓ where
  done : A → Attempt A
  threw : Failure → Attempt A

-- a row of `edgeLocalTransactionMap` with the id and the status of its transaction
pub record Mapped : Type 0 where
  pub local_state : String
  pub transaction : Option (String × TransactionStatus)

-- What other modules do with the rest of the database: the transaction map, and the processing of
-- an event. A handler that throws may have changed rows before.
pub record Handlers {ℓ} (C : Type ℓ) : Type ℓ where
  pub mapped : C → String → Option Mapped
  pub upsert_local_transaction : Envelope → C → C × Attempt (String × Bool)
  pub apply_local_transaction_state : Envelope → C → C × Attempt (Option String)
  pub ingest_local_weight_anomaly : Envelope → C → C × Attempt Bool
  pub process_envelope : Envelope → C → C × Attempt (Option String)
