-- ===== src/Edge/Sync/Tests.antt =====
-- The gateway's store and its synchronization at sample values.
use trinetra_systems.Common.{
  ◌≤◌, ◌+◌, ◌*◌, min, suc, filter, find, includes, Memᴰ, map, true, false, [], ◌∷◌, none, some,
  String, ◌≡◌, ◌≢◌, ◌↔◌, refl, inl, arith,
}
use trinetra_systems.Edge.Connectivity.{
  ConnectivityState, default_hysteresis, create_connectivity_machine,
}
use trinetra_systems.Edge.Events.{
  EventType, EventPriority, EventPriority-discrete, QueueStatus, QueueStatus-discrete, Envelope,
  QueuedEvent, queued_le, priority_for_event_type, next_retry_delay_ms,
}
use trinetra_systems.Edge.Store.{
  Store, EnqueueOptions, created_event, append_event, prune, pruned_ids, find_event, enqueue,
}
use trinetra_systems.Edge.Store.Sound.{IsSound}
use trinetra_systems.Edge.Store.Enqueue.{enqueue-enqueue}
use trinetra_systems.Edge.Sync.{SyncConfig, Ack, AckStatus, Answer, Backend, Loop, tick}
use trinetra_systems.Edge.Sync.Round.{tick-IsSound}
use trinetra_systems.Edge.Sync.Kept.{Holds, tick-Holds, tick-Mem_of_settled}
use trinetra_systems.Edge.Sync.Syncing.{tick-status}
use trinetra_systems.Edge.Sync.Retry.{
  failures, failures-dead_letter_iff, next_retry_delay_ms_bounds,
}

abbrev config : SyncConfig
config = record {
  batch_size = 25;
  max_retries = 3;
  retry_base_ms = 1000;
  retry_max_ms = 60000;
  hysteresis = default_hysteresis;
}

abbrev reading : Envelope
reading = record {
  event_id = "evt-1";
  gateway_id = "gw-1";
  device_id = "scale-1";
  event_type = EventType.weight_reading;
  timestamp = 10;
  sequence = some 1;
  local_transaction_id = none;
  local_state = none;
  body = "";
}

abbrev sent_before : Envelope
sent_before = record reading { event_id = "evt-0"; sequence = none }

abbrev orphan : Envelope
orphan = record reading { event_id = "evt-2"; sequence = some 2; timestamp = 12 }

abbrev queued : Envelope → QueueStatus → QueuedEvent
queued envelope status = record {
  event_id = envelope.event_id;
  gateway_id = envelope.gateway_id;
  device_id = envelope.device_id;
  event_type = envelope.event_type;
  payload = envelope;
  event_timestamp = envelope.timestamp;
  received_at = 20;
  status = status;
  retry_count = 0;
  last_attempt_at = none;
  next_retry_at = none;
  synced_at = none;
  failure_reason = none;
  first_failure_at = none;
  priority = EventPriority.critical;
  sequence = envelope.sequence;
  local_transaction_id = none;
  depends_on = [];
  payload_hash = none;
  recommended_action = none;
}

abbrev store : Store
store = record {
  events =
      queued sent_before QueueStatus.synced
      ∷ queued reading QueueStatus.pending
      ∷ queued orphan QueueStatus.syncing
      ∷ [];
  transactions = [];
  files = [];
  conflicts = [];
  audit = [];
}

store-IsSound : IsSound store
unfolding includes EventPriority-discrete QueueStatus-discrete filter
store-IsSound = record {
  events = (refl, (refl, (refl, tt)));
  conflicts = tt;
  audit = omega arith;
  low_priority = omega arith;
}

abbrev accept : QueuedEvent → Ack
accept e = record {
  event_id = e.event_id;
  status = AckStatus.accepted;
  message = none;
  transaction_id = none;
}

abbrev backend : Backend
backend = record {
  health = Answer.answered tt;
  upload_file = λ f. Answer.answered tt;
  sync_batch = λ es. Answer.answered (map accept es);
  sort = λ es. es;
}

abbrev loop : Loop
loop = record {
  paused = false;
  syncing = false;
  store = store;
  connectivity = record {
    simulated_disconnect = false;
    machine = create_connectivity_machine ConnectivityState.online;
    events = [];
  };
  hardware_online = true;
  last_error = none;
  next_retry_at = none;
  last_successful_sync_at = none;
}

abbrev once : EnqueueOptions
once = record { priority = none; local_transaction_id = none; depends_on = []; payload_hash = none }

abbrev hash : Envelope → String
hash envelope = "h"

abbrev stored : QueuedEvent
stored = queued reading QueueStatus.pending

abbrev before : Store
before = record store { events = queued sent_before QueueStatus.synced ∷ [] }

before-IsSound : IsSound before
unfolding includes EventPriority-discrete QueueStatus-discrete filter
before-IsSound = record {
  events = (refl, tt);
  conflicts = tt;
  audit = omega arith;
  low_priority = omega arith;
}

abbrev new_event : QueuedEvent
new_event = created_event hash 30 reading once EventPriority.critical

stored_once : enqueue hash 30 reading once before ≡ some (append_event new_event before, new_event)
unfolding enqueue find_event find prune pruned_ids includes filter EventPriority-discrete
    QueueStatus-discrete priority_for_event_type
stored_once = refl

enqueue-enqueue_example :
    IsSound (append_event new_event before)
    × (enqueue hash 90 reading once (append_event new_event before)
        ≡ some (append_event new_event before, new_event))
enqueue-enqueue_example =
    enqueue-enqueue hash 30 90 reading once once before (append_event new_event before) new_event
      before-IsSound stored_once

tick-IsSound_example : IsSound (tick config 100 backend loop).0.store
tick-IsSound_example = tick-IsSound config 100 backend loop store-IsSound

is_critical : EventPriority.critical ≢ EventPriority.low
is_critical h = ground (arith, h)

tick-Holds_example : Holds stored (tick config 100 backend loop).0.store
tick-Holds_example =
    tick-Holds config 100 backend loop stored store-IsSound (Memᴰ.tail (Memᴰ.head refl)) is_critical

abbrev already_synced : QueuedEvent
already_synced = queued sent_before QueueStatus.synced

tick-status_example : already_synced.status ≢ QueueStatus.syncing
tick-status_example = tick-status config 100 backend loop store-IsSound refl refl already_synced (
    tick-Mem_of_settled config 100 backend loop already_synced (λ es e m. m) store-IsSound
      (Memᴰ.head refl) is_critical (inl refl))

tick-Mem_of_settled_example : Memᴰ already_synced (tick config 100 backend loop).0.store.events
tick-Mem_of_settled_example =
    tick-Mem_of_settled config 100 backend loop already_synced (λ es e m. m) store-IsSound
      (Memᴰ.head refl) is_critical (inl refl)

failures-dead_letter_iff_example :
    ((failures config ((1, "a") ∷ (2, "b") ∷ (3, "c") ∷ []) stored).status
      ≡ QueueStatus.dead_letter)
    ↔ (3 ≤ 0 + suc 2)
failures-dead_letter_iff_example =
    failures-dead_letter_iff config ((2, "b") ∷ (3, "c") ∷ []) 1 "a" stored

next_retry_delay_ms_bounds_example :
    (next_retry_delay_ms 0 1000 60000 ≡ min 60000 1000)
    × (next_retry_delay_ms 5 1000 60000 ≡ min 60000 (2 * next_retry_delay_ms 4 1000 60000))
    × (next_retry_delay_ms 4 1000 60000 ≤ 60000)
next_retry_delay_ms_bounds_example = next_retry_delay_ms_bounds 4 1000 60000

-- The order of the queue is not transitive: only two sequences are compared with each other.
queued_le_cycle :
    (queued_le stored (record stored { sequence = none; event_timestamp = 15 }) ≡ true)
    × (queued_le
          (record stored { sequence = none; event_timestamp = 15 })
          (record stored { sequence = some 0; event_timestamp = 18 })
        ≡ true)
    × (queued_le stored (record stored { sequence = some 0; event_timestamp = 18 }) ≡ false)
unfolding queued_le EventPriority-discrete
queued_le_cycle = (refl, refl, refl)
