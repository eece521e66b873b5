-- ===== src/Edge/Events.antt =====
-- apps/edge/src/queue/types.ts, events/envelope.ts, offline/priority.ts and core/backoff.ts: the
-- events of a gateway, their priority and the delay before a retry. An instant is a number of
-- milliseconds, and a sequence the number that its text stands for.
use trinetra_systems.Common.{
  ℕ, ◌*◌, ◌^◌, ltb, leb, min, nat_eq, Bool, ◌&&◌, ◌||◌, List, Option, none, some, String, Eq, eq_of,
  ◌==◌, if◌then◌else◌,
}

pub data EventType : Type 0 where
  weight_reading anpr_detection status_changed scan_completed : EventType
  transaction_created transaction_state weight_anomaly file_captured : EventType
  connectivity_changed other : EventType

pub data EventPriority : Type 0 where
  critical high normal low : EventPriority

unfoldable pub EventPriority-discrete : Discrete EventPriority
EventPriority-discrete = hlevel

instance abbrev pub priority_eq : Eq EventPriority
priority_eq = eq_of EventPriority-discrete

pub data QueueStatus : Type 0 where
  pending syncing synced failed dead_letter : QueueStatus

unfoldable pub QueueStatus-discrete : Discrete QueueStatus
QueueStatus-discrete = hlevel

instance abbrev pub queue_status_eq : Eq QueueStatus
queue_status_eq = eq_of QueueStatus-discrete

-- Of the payload only the two entries that the gateway reads; `body` is the rest of it.
pub record Envelope : Type 0 where
  pub event_id : String
  pub gateway_id : String
  pub device_id : String
  pub event_type : EventType
  pub timestamp : ℕ
  pub sequence : Option ℕ
  pub local_transaction_id : Option String
  pub local_state : Option String
  pub body : String

pub record QueuedEvent : Type 0 where
  pub event_id : String
  pub gateway_id : String
  pub device_id : String
  pub event_type : EventType
  pub payload : Envelope
  pub event_timestamp : ℕ
  pub received_at : ℕ
  pub status : QueueStatus
  pub retry_count : ℕ
  pub last_attempt_at : Option ℕ
  pub next_retry_at : Option ℕ
  pub synced_at : Option ℕ
  pub failure_reason : Option String
  pub first_failure_at : Option ℕ
  pub priority : EventPriority
  pub sequence : Option ℕ
  pub local_transaction_id : Option String
  pub depends_on : List String
  pub payload_hash : Option String
  pub recommended_action : Option String

abbrev pub priority_rank : EventPriority → ℕ
priority_rank critical = 0
priority_rank high = 1
priority_rank normal = 2
priority_rank low = 3

unfoldable pub priority_for_event_type : EventType → EventPriority
priority_for_event_type weight_reading = critical
priority_for_event_type transaction_created = critical
priority_for_event_type transaction_state = critical
priority_for_event_type anpr_detection = high
priority_for_event_type scan_completed = high
priority_for_event_type file_captured = high
priority_for_event_type weight_anomaly = high
priority_for_event_type status_changed = normal
priority_for_event_type connectivity_changed = normal
priority_for_event_type other = low

-- `compareQueuedEvents(left, right) <= 0`
abbrev pub earlier : QueuedEvent → QueuedEvent → Bool
earlier l r =
    ltb l.event_timestamp r.event_timestamp
    || (l.event_timestamp == r.event_timestamp && leb l.received_at r.received_at)

abbrev pub by_sequence : Option ℕ → Option ℕ → Bool → Bool
by_sequence (some a) (some b) otherwise = if a == b then otherwise else ltb a b
by_sequence (some a) none otherwise = otherwise
by_sequence none b otherwise = otherwise

unfoldable pub queued_le : QueuedEvent → QueuedEvent → Bool
queued_le l r =
    if priority_rank l.priority == priority_rank r.priority
    then by_sequence l.sequence r.sequence (earlier l r)
    else ltb (priority_rank l.priority) (priority_rank r.priority)

unfoldable pub next_retry_delay_ms : ℕ → ℕ → ℕ → ℕ
next_retry_delay_ms retry_count base_ms max_ms = min max_ms (base_ms * 2 ^ retry_count)

unfoldable pub should_retry : ℕ → ℕ → Bool
should_retry retry_count max_retries = ltb retry_count max_retries
