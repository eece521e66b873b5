-- ===== src/Intake/Window.antt =====
-- apps/api/src/domain/edgeEnvelope.ts: the window of time in which an event is taken.
use trinetra_systems.Common.{ℕ, ◌+◌, ltb, not, includes, Option, none, some, String, if◌then◌else◌}
use trinetra_systems.Intake.{device_type_eq, expected_device_types, Envelope}

abbrev pub max_event_age_ms : ℕ
max_event_age_ms = 604800000

abbrev pub max_sync_event_age_ms : ℕ
max_sync_event_age_ms = 2592000000

abbrev pub max_future_skew_ms : ℕ
max_future_skew_ms = 600000

-- `parseEdgeEventEnvelope` on a body whose entries have the right form: `none` is success.
unfoldable pub envelope_error : ℕ → ℕ → Envelope → Option String
envelope_error now max_age e =
    if not (includes (expected_device_types e.event_type) e.device_type)
    then some "Event type does not match the registered device type"
    else if ltb (e.timestamp + max_age) now
    then some "Event timestamp is too old"
    else if ltb (now + max_future_skew_ms) e.timestamp
    then some "Event timestamp is in the future"
    else none
