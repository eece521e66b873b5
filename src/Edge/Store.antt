-- ===== src/Edge/Store.antt =====
-- apps/edge/src/store/localStore.ts: the store of a gateway. Every operation that `mutate` runs
-- ends with `pruneLowPriorityIfNeeded`; one that throws writes nothing.
pub mod Sound
pub mod Enqueue
use trinetra_systems.Common.{
  ℕ, keep_last, ◌+◌, ◌-◌, length, take, drop, filter, find, any, includes, leb, nat_eq, string_eq,
  is_none, is_some, Bool, true, false, not, ◌&&◌, ◌||◌, List, [], ◌∷◌, ◌++◌, map, Option, none,
  some, String, Eq, eq_of, ◌==◌, ◌!=◌, if◌then◌else◌,
}
use trinetra_systems.Edge.Events.{
  EventType, EventPriority, priority_eq, QueueStatus, queue_status_eq, Envelope, QueuedEvent,
  priority_for_event_type,
}

pub data FileStatus : Type 0 where
  pending synced failed : FileStatus

unfoldable pub FileStatus-discrete : Discrete FileStatus
FileStatus-discrete = hlevel

instance abbrev pub file_status_eq : Eq FileStatus
file_status_eq = eq_of FileStatus-discrete

pub record LocalFile : Type 0 where
  pub file_id : String
  pub event_id : Option String
  pub content_hash : String
  pub sync_status : FileStatus

pub record LocalConflict : Type 0 where
  pub event_id : String
  pub local_transaction_id : Option String
  pub local_state : String
  pub central_state : String
  pub reason : String

pub record LocalTransaction : Type 0 where
  pub local_transaction_id : String
  pub local_state : String
  pub gross_weight_kg : Option (List ℕ)
  pub tare_weight_kg : Option (List ℕ)
  pub net_weight_kg : Option (List ℕ)

pub data AuditAction : Type 0 where
  event_synced conflict_detected event_dead_letter sync_failed : AuditAction

pub record LocalAudit : Type 0 where
  pub action : AuditAction
  pub entity_id : String

pub record Store : Type 0 where
  pub events : List QueuedEvent
  pub transactions : List LocalTransaction
  pub files : List LocalFile
  pub conflicts : List LocalConflict
  pub audit : List LocalAudit

abbrev pub max_audit : ℕ
max_audit = 400

abbrev pub max_low_priority : ℕ
max_low_priority = 2000

abbrev pub queue_limit : ℕ
queue_limit = 8000

abbrev pub is_disposable : QueuedEvent → Bool
is_disposable e = e.priority == EventPriority.low && e.status == QueueStatus.synced

abbrev pub event_ids : List QueuedEvent → List String
event_ids = map (λ (e : QueuedEvent). e.event_id)

-- the ids that `pruneLowPriorityIfNeeded` removes: the oldest ones over the limit
unfoldable pub pruned_ids : List QueuedEvent → List String
pruned_ids events =
    let old = filter is_disposable events in event_ids (take (length old - max_low_priority) old)

unfoldable pub prune : Store → Store
prune s =
    let removed = pruned_ids s.events in
    record s { events = filter (λ (e : QueuedEvent). not (includes removed e.event_id)) s.events }

unfoldable pub find_event : String → List QueuedEvent → Option QueuedEvent
find_event id = find (λ (e : QueuedEvent). e.event_id == id)

abbrev pub or_default {ℓ} : {A : Type ℓ} → Option A → A → A
or_default none a = a
or_default (some b) a = b

abbrev pub or_other {ℓ} : {A : Type ℓ} → Option A → Option A → Option A
or_other none b = b
or_other (some a) b = some a

pub record EnqueueOptions : Type 0 where
  pub priority : Option EventPriority
  pub local_transaction_id : Option String
  pub depends_on : List String
  pub payload_hash : Option String

-- `hash` stands for `hashPayload`, an SHA-256 of the payload's JSON.
abbrev pub created_event :
    (Envelope → String) → ℕ → Envelope → EnqueueOptions → EventPriority → QueuedEvent
created_event hash now envelope options priority = record {
  event_id = envelope.event_id;
  gateway_id = envelope.gateway_id;
  device_id = envelope.device_id;
  event_type = envelope.event_type;
  payload = envelope;
  event_timestamp = envelope.timestamp;
  received_at = now;
  status = QueueStatus.pending;
  retry_count = 0;
  last_attempt_at = none;
  next_retry_at = none;
  synced_at = none;
  failure_reason = none;
  first_failure_at = none;
  priority = priority;
  sequence = envelope.sequence;
  local_transaction_id = or_other options.local_transaction_id envelope.local_transaction_id;
  depends_on = options.depends_on;
  payload_hash = some (or_default options.payload_hash (hash envelope));
  recommended_action = none;
}

abbrev pub append_event : QueuedEvent → Store → Store
append_event e s = record s { events = s.events ++ e ∷ [] }

-- `none` is the error "Local queue is at capacity".
unfoldable pub enqueue :
    (Envelope → String) → ℕ → Envelope → EnqueueOptions → Store → Option (Store × QueuedEvent)
enqueue hash now envelope options s =
    let priority = or_default options.priority (priority_for_event_type envelope.event_type) in
    let created = created_event hash now envelope options priority in
    elim (find_event envelope.event_id s.events) [
      | some existing ↦ some (prune s, existing)
      | none ↦
          if leb queue_limit (length s.events) && priority == EventPriority.low
          then none
          else some (prune (append_event created s), created)
    ]

unfoldable pub list_by_status : QueueStatus → Store → List QueuedEvent
list_by_status status s = filter (λ (e : QueuedEvent). e.status == status) s.events

abbrev pub is_waiting : ℕ → Option ℕ → Bool
is_waiting now none = false
is_waiting now (some at) = not (leb at now)

abbrev pub is_due : ℕ → QueuedEvent → Bool
is_due now e =
    (e.status == QueueStatus.pending || e.status == QueueStatus.failed)
    && not (is_waiting now e.next_retry_at)

unfoldable pub list_pending_for_sync : ℕ → Store → List QueuedEvent
list_pending_for_sync now s = filter (is_due now) s.events

-- `find` and `Object.assign`: the first event with the id
unfoldable pub update_first :
    String → (QueuedEvent → QueuedEvent) → List QueuedEvent → List QueuedEvent
update_first id patch [] = []
update_first id patch (e ∷ es) =
    let rest = update_first id patch es in if e.event_id == id then patch e ∷ es else e ∷ rest

unfoldable pub update : String → (QueuedEvent → QueuedEvent) → Store → Store
update id patch s = prune (record s { events = update_first id patch s.events })

unfoldable pub set_transaction : LocalTransaction → List LocalTransaction → List LocalTransaction
set_transaction row [] = row ∷ []
set_transaction row (t ∷ ts) =
    let rest = set_transaction row ts in
    if t.local_transaction_id == row.local_transaction_id then row ∷ ts else t ∷ rest

unfoldable pub upsert_transaction : LocalTransaction → Store → Store
upsert_transaction row s = prune (record s { transactions = set_transaction row s.transactions })

unfoldable pub get_transaction : String → Store → Option LocalTransaction
get_transaction id s = find (λ (t : LocalTransaction). t.local_transaction_id == id) s.transactions

abbrev pub is_same_file : LocalFile → LocalFile → Bool
is_same_file file f = f.file_id == file.file_id || f.content_hash == file.content_hash

unfoldable pub add_file : LocalFile → Store → Store × LocalFile
add_file file s = elim (find (is_same_file file) s.files) [
  | some existing ↦ (prune s, existing)
  | none ↦ (prune (record s { files = s.files ++ file ∷ [] }), file)
]

unfoldable pub list_pending_files : Store → List LocalFile
list_pending_files s = filter (λ (f : LocalFile). f.sync_status != FileStatus.synced) s.files

unfoldable pub mark_first : String → List LocalFile → List LocalFile
mark_first id [] = []
mark_first id (f ∷ fs) =
    let rest = mark_first id fs in
    if f.file_id == id then record f { sync_status = FileStatus.synced } ∷ fs else f ∷ rest

unfoldable pub mark_file_synced : String → Store → Store
mark_file_synced id s = prune (record s { files = mark_first id s.files })

unfoldable pub add_conflict : LocalConflict → Store → Store
add_conflict conflict s =
    let known = any (λ (c : LocalConflict). c.event_id == conflict.event_id) s.conflicts in
    prune (if known then s else record s { conflicts = s.conflicts ++ conflict ∷ [] })

unfoldable pub write_audit : AuditAction → String → Store → Store
write_audit action id s =
    let entry : LocalAudit = record { action = action; entity_id = id } in
    prune (record s { audit = keep_last max_audit (s.audit ++ entry ∷ []) })
