-- ===== src/Edge/Sync.antt =====
-- apps/edge/src/sync/syncLoop.ts: one round of the gateway's synchronization. The clock is read
-- once in a round; the backend, the order that `sort` gives and the hash of a payload are
-- parameters. The store's file is written without errors.
pub mod Closed
pub mod Round
pub mod Kept
pub mod Syncing
pub mod Retry
pub mod Tests
use trinetra_systems.Common.{
  ℕ, ◌+◌, length, take, filter, find, any, nat_eq, string_eq, is_some, Bool, true, false, not, ◌&&◌,
  ◌||◌, List, [], ◌∷◌, map, Option, none, some, String, ◌==◌, ◌!=◌, if◌then◌else◌,
}
use trinetra_systems.Edge.Connectivity.{
  HysteresisConfig, Observation, Manager, simulate_disconnect, is_backend_online, observe,
}
use trinetra_systems.Edge.Events.{
  EventPriority, priority_eq, QueueStatus, queue_status_eq, QueuedEvent, next_retry_delay_ms,
  should_retry,
}
use trinetra_systems.Edge.Store.{
  LocalFile, LocalConflict, AuditAction, Store, update, list_by_status, list_pending_for_sync,
  list_pending_files, mark_file_synced, add_conflict, write_audit, or_default, or_other,
}

pub record SyncConfig : Type 0 where
  pub batch_size : ℕ
  pub max_retries : ℕ
  pub retry_base_ms : ℕ
  pub retry_max_ms : ℕ
  pub hysteresis : HysteresisConfig

pub data AckStatus : Type 0 where
  accepted already_processed conflict rejected dependency_pending : AckStatus

pub record Ack : Type 0 where
  pub event_id : String
  pub status : AckStatus
  pub message : Option String
  pub transaction_id : Option String

pub data ClientError : Type 0 where
  auth_failed unavailable other_error : String → ClientError

pub data Answer {ℓ} (A : Type ℓ) : Type ℓ where
  answered : A → Answer A
  refused : ClientError → Answer A

-- What the backend answers in a round, and the order of `Array.prototype.sort` with
-- `compareQueuedEvents`.
pub record Backend : Type 0 where
  pub health : Answer (Unit {0})
  pub upload_file : LocalFile → Answer (Unit {0})
  pub sync_batch : List QueuedEvent → Answer (List Ack)
  pub sort : List QueuedEvent → List QueuedEvent

-- the fields of `SyncLoop` with the store, the connectivity manager and the gateway's state
pub record Loop : Type 0 where
  pub paused : Bool
  pub syncing : Bool
  pub store : Store
  pub connectivity : Manager
  pub hardware_online : Bool
  pub last_error : Option ClientError
  pub next_retry_at : Option ℕ
  pub last_successful_sync_at : Option ℕ

-- `escaped` is the error with which `tick` itself fails.
pub data Outcome : Type 0 where
  skipped idle sent : Outcome
  noted escaped : ClientError → Outcome

abbrev pub error_message : ClientError → String
error_message (auth_failed message) = message
error_message (unavailable message) = message
error_message (other_error message) = message

abbrev pub as_pending : QueuedEvent → QueuedEvent
as_pending e = record e { status = QueueStatus.pending }

abbrev pub each {ℓ} : {A : Type ℓ} → (A → Store → Store) → List A → Store → Store
each f [] s = s
each f (x ∷ xs) s = each f xs (f x s)

unfoldable pub recover_orphaned_syncing : Store → Store
recover_orphaned_syncing s =
    each (λ (e : QueuedEvent). update e.event_id as_pending) (list_by_status QueueStatus.syncing s)
      s

-- the loop of `uploadPendingFiles`; a lost backend ends it with that error
unfoldable pub upload_files :
    (LocalFile → Answer (Unit {0})) → List LocalFile → Store → Store × Option ClientError
upload_files upload [] s = (s, none)
upload_files upload (f ∷ fs) s = elim (upload f) [
  | answered done ↦ upload_files upload fs (mark_file_synced f.file_id s)
  | refused (auth_failed message) ↦ (s, some (auth_failed message))
  | refused (unavailable message) ↦ (s, some (unavailable message))
  | refused (other_error message) ↦ upload_files upload fs s
]

abbrev pub files_per_round : ℕ
files_per_round = 5

abbrev pub as_syncing : ℕ → QueuedEvent → QueuedEvent
as_syncing now e = record e { status = QueueStatus.syncing; last_attempt_at = some now }

unfoldable pub mark_syncing : ℕ → List QueuedEvent → Store → Store
mark_syncing now = each (λ (e : QueuedEvent). update e.event_id (as_syncing now))

abbrev pub failed_patch : SyncConfig → ℕ → QueuedEvent → String → QueuedEvent → QueuedEvent
failed_patch config now event message e =
    let retry_count = event.retry_count + 1 in
    let dead = not (should_retry retry_count config.max_retries) in
    let delay = next_retry_delay_ms retry_count config.retry_base_ms config.retry_max_ms in
    record e {
      status = if dead then QueueStatus.dead_letter else QueueStatus.failed;
      retry_count = retry_count;
      last_attempt_at = some now;
      next_retry_at = if dead then none else some (now + delay);
      failure_reason = some message;
      first_failure_at = some (or_default event.first_failure_at now);
      recommended_action =
          if dead
          then some "Inspect the dead-letter record. The business event was not deleted."
          else none;
    }

-- `event` is the copy of the batch.
unfoldable pub fail_event : SyncConfig → ℕ → QueuedEvent → String → Store → Store
fail_event config now event message s =
    let dead = not (should_retry (event.retry_count + 1) config.max_retries) in
    write_audit (if dead then AuditAction.event_dead_letter else AuditAction.sync_failed)
      event.event_id (update event.event_id (failed_patch config now event message) s)

abbrev pub synced_patch : ℕ → QueuedEvent → QueuedEvent
synced_patch now e = record e {
  status = QueueStatus.synced;
  synced_at = some now;
  failure_reason = none;
}

abbrev pub waiting_patch : ℕ → Option String → QueuedEvent → QueuedEvent
waiting_patch now message e = record e {
  status = QueueStatus.pending;
  next_retry_at = some (now + 2000);
  failure_reason = message;
}

abbrev pub conflict_patch : Option String → QueuedEvent → QueuedEvent
conflict_patch message e = record e {
  status = QueueStatus.failed;
  failure_reason = message;
  recommended_action =
      some "Authorized resolution required. Local and central states were not overwritten.";
}

abbrev pub conflict_of : QueuedEvent → Ack → LocalConflict
conflict_of event ack = record {
  event_id = event.event_id;
  local_transaction_id = event.local_transaction_id;
  local_state = or_default event.payload.local_state "LOCAL";
  central_state = if is_some ack.transaction_id then "CENTRAL" else "UNKNOWN";
  reason = or_default ack.message "Sync conflict";
}

-- the `switch` over the status of an acknowledgement
unfoldable pub apply_ack : SyncConfig → ℕ → QueuedEvent → Ack → AckStatus → Store → Store
apply_ack config now event ack accepted s =
    write_audit AuditAction.event_synced event.event_id (update event.event_id (synced_patch now) s)
apply_ack config now event ack already_processed s =
    write_audit AuditAction.event_synced event.event_id (update event.event_id (synced_patch now) s)
apply_ack config now event ack dependency_pending s =
    update event.event_id (waiting_patch now ack.message) s
apply_ack config now event ack conflict s =
    write_audit AuditAction.conflict_detected event.event_id
      (add_conflict (conflict_of event ack) (update event.event_id (conflict_patch ack.message) s))
apply_ack config now event ack rejected s =
    fail_event config now event (or_default ack.message "Event rejected") s

-- `new Map(...)` keeps the last acknowledgement of an id.
unfoldable pub last_ack : String → List Ack → Option Ack
last_ack id [] = none
last_ack id (a ∷ acks) =
    let rest = last_ack id acks in or_other rest (if a.event_id == id then some a else none)

unfoldable pub acknowledge : SyncConfig → ℕ → List Ack → QueuedEvent → Store → Store
acknowledge config now acks event s = elim (last_ack event.event_id acks) [
  | none ↦ fail_event config now event "Sync acknowledgement missing" s
  | some ack ↦ apply_ack config now event ack ack.status s
]

unfoldable pub apply_acks : SyncConfig → ℕ → List Ack → List QueuedEvent → Store → Store
apply_acks config now acks = each (acknowledge config now acks)

unfoldable pub fail_all : SyncConfig → ℕ → ClientError → List QueuedEvent → Store → Store
fail_all config now error =
    each (λ (e : QueuedEvent). fail_event config now e (error_message error))

abbrev pub count_critical : List QueuedEvent → ℕ
count_critical events =
    length (filter (λ (e : QueuedEvent). e.priority == EventPriority.critical) events)

abbrev pub seen : Bool → Bool → ℕ → Loop → Observation
seen hardware is_syncing critical l = record {
  internet_online = true;
  backend_reachable = true;
  hardware_online = hardware;
  auth_failed = false;
  is_syncing = is_syncing;
  pending_critical = critical;
  open_conflicts = length l.store.conflicts;
}

abbrev pub observe_in : SyncConfig → Observation → Loop → Loop
observe_in config o l = record l { connectivity = observe config.hysteresis l.connectivity o }

abbrev pub is_auth : ClientError → Bool
is_auth (auth_failed message) = true
is_auth (unavailable message) = false
is_auth (other_error message) = false

abbrev pub is_lost : ClientError → Bool
is_lost (auth_failed message) = true
is_lost (unavailable message) = true
is_lost (other_error message) = false

unfoldable pub note_failure : SyncConfig → ℕ → ClientError → Loop → Loop
note_failure config now error l =
    let noted = record l {
      last_error = some error;
      next_retry_at = some (now + next_retry_delay_ms 1 config.retry_base_ms config.retry_max_ms);
    } in
    observe_in config
      (record {
        internet_online = not (is_lost error);
        backend_reachable = false;
        hardware_online = l.hardware_online;
        auth_failed = is_auth error;
        is_syncing = false;
        pending_critical = 1;
        open_conflicts = length l.store.conflicts;
      })
      noted

abbrev pub with_store : Store → Loop → Loop
with_store s l = record l { store = s }

-- the branch without events to send
unfoldable pub check_health : SyncConfig → ℕ → Backend → Loop → Loop × Outcome
check_health config now backend l = elim backend.health [
  | answered done ↦ (observe_in config (seen l.hardware_online false 0 l) l, Outcome.idle)
  | refused error ↦ (note_failure config now error l, Outcome.noted error)
]

unfoldable pub succeed : SyncConfig → ℕ → Loop → Loop
succeed config now l =
    let left = count_critical (list_pending_for_sync now l.store) in
    let done = record l { last_successful_sync_at = some now; last_error = none } in
    observe_in config (seen l.hardware_online false left l) done

-- the branch that sends the batch
unfoldable pub send : SyncConfig → ℕ → Backend → List QueuedEvent → Loop → Loop × Outcome
send config now backend batch l =
    let observed = observe_in config (seen l.hardware_online true (count_critical batch) l) l in
    let marked = mark_syncing now batch l.store in
    elim (backend.sync_batch batch) [
      | answered acks ↦ (
        succeed config now (with_store (apply_acks config now acks batch marked) observed),
        Outcome.sent,
      )
      | refused error ↦ (
        note_failure config now error
            (with_store (fail_all config now error batch marked) observed),
        Outcome.noted error,
      )
    ]

abbrev pub dispatch : SyncConfig → ℕ → Backend → List QueuedEvent → Loop → Loop × Outcome
dispatch config now backend [] l = check_health config now backend l
dispatch config now backend (e ∷ es) l = send config now backend (e ∷ es) l

abbrev pub batch_of : SyncConfig → ℕ → Backend → Store → List QueuedEvent
batch_of config now backend s = take config.batch_size (backend.sort (list_pending_for_sync now s))

-- the body of `tick` after its first test
unfoldable pub round : SyncConfig → ℕ → Backend → Loop → Loop × Outcome
round config now backend l =
    let recovered = recover_orphaned_syncing l.store in
    let (uploaded, error) =
      upload_files backend.upload_file (take files_per_round (list_pending_files recovered))
        recovered in
    elim error [
      | some e ↦ (with_store uploaded l, Outcome.escaped e)
      | none ↦
          dispatch config now backend (batch_of config now backend uploaded) (with_store uploaded l)
    ]

unfoldable pub tick : SyncConfig → ℕ → Backend → Loop → Loop × Outcome
tick config now backend l =
    if l.paused || l.syncing then (l, Outcome.skipped) else round config now backend l

unfoldable pub set_paused : SyncConfig → Bool → Loop → Loop
set_paused config paused l = record l {
  paused = paused;
  connectivity = simulate_disconnect config.hysteresis paused l.connectivity;
}

unfoldable pub is_online : Loop → Bool
is_online l = if l.paused then false else is_backend_online l.connectivity
