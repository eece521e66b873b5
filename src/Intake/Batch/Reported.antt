-- ===== src/Intake/Batch/Reported.antt =====
-- An event of a device is settled when its intake succeeds.
use trinetra_systems.Common.{
  ℕ, find, find-eq-some, string_eq, eq_refl, ◌==◌, ◌!=◌, Bool, Bool-cases, true, false, List, [],
  ◌∷◌, ◌++◌, Option, none, some, String, ◌≡◌, refl, ap, inl, inr,
}
use trinetra_systems.Edge.Store.{or_other}
use trinetra_systems.Intake.{
  EventType, EventType-discrete, event_type_eq, weight_reading, anpr_detection, status_changed,
  scan_completed, transaction_created, transaction_state, weight_anomaly, file_captured,
  connectivity_changed, Envelope, BatchItem, Gateway, IngestedEvent, IngestStatus-discrete, Db,
  Failure, Attempt, done, threw, Handlers,
}
use trinetra_systems.Intake.Ingest.{
  find_ingested, is_settled, device_refusal, settle, processed_with, process, process_checked,
  with_device, with_known, with_envelope, add_received, with_core, ingest_gateway_event,
}
use trinetra_systems.Intake.Conflict.{visit_of, detect_conflict}
use trinetra_systems.Intake.Answers.{duplicate_ack, settled_row}
use trinetra_systems.Intake.Batch.{special, process_special_event, synced_ingested, try_item}
use trinetra_systems.Intake.Batch.Settled.{
  IsSettledIn, find_ingested-update, update_ingested-IsSettledIn,
}

abbrev pub is_device_event : EventType → Bool
is_device_event weight_reading = true
is_device_event anpr_detection = true
is_device_event status_changed = true
is_device_event scan_completed = true
is_device_event transaction_created = false
is_device_event transaction_state = false
is_device_event weight_anomaly = false
is_device_event file_captured = false
is_device_event connectivity_changed = false

other_than_state :
    (t : EventType) → is_device_event t ≡ true → (t != EventType.transaction_state) ≡ true
unfolding EventType-discrete
other_than_state weight_reading d = refl
other_than_state anpr_detection d = refl
other_than_state status_changed d = refl
other_than_state scan_completed d = refl
other_than_state transaction_created d = refl
other_than_state transaction_state d = cc
other_than_state weight_anomaly d = refl
other_than_state file_captured d = refl
other_than_state connectivity_changed d = refl

-- A success leaves the event of that id settled.
abbrev pub Settles {ℓ κ} : {C : Type ℓ} {A : Type κ} → String → Db C × Attempt A → Type 0
Settles id (db, result) = elim result [ done a ↦ IsSettledIn id db.ingested | threw f ↦ Unit ]

-- what is found of an event that is known or not
abbrev IsKnown : Bool → Option IngestedEvent → Type 0
IsKnown true o = (row : IngestedEvent) × (o ≡ some row)
IsKnown false o = o ≡ none

find_ingested-append :
    (id : String) (rows : List IngestedEvent) (row : IngestedEvent)
    → find_ingested id rows ≡ none
    → row.event_id ≡ id
    → find_ingested id (rows ++ row ∷ []) ≡ some row
unfolding find_ingested find
find_ingested-append id [] row fresh same = rw (same, eq_refl id) refl
find_ingested-append id (r ∷ rows) row fresh same = elim (Bool-cases (r.event_id == id)) [
  | inl t ↦ absurd (cc (rw t at fresh))
  | inr f ↦ rw f (find_ingested-append id rows row (rw f at fresh) same)
]

found_same :
    (id : String) (rows : List IngestedEvent) (row : IngestedEvent)
    → find_ingested id rows ≡ some row
    → (row.event_id == id) ≡ true
unfolding find_ingested
found_same id rows row found = (find-eq-some _ rows row found).1

pub settled_row-eq-some :
    (o : Option IngestedEvent) (row : IngestedEvent)
    → settled_row o ≡ some row
    → (o ≡ some row) × (is_settled row ≡ true)
settled_row-eq-some none row h = cc
settled_row-eq-some (some r) row h = elim (Bool-cases (is_settled r)) [
  | inl t ↦ let same : r ≡ row = cc (rw t at h) in (ap (λ x. some x) same, rw (← same) t)
  | inr f ↦ absurd (cc (rw f at h))
]

module _ {ℓ} {C : Type ℓ} (h : Handlers C) (gateway : Gateway) (e : Envelope) where
  settle-IsSettledIn :
      (weighment : Option String) (db : Db C) (row : IngestedEvent)
      → find_ingested e.event_id db.ingested ≡ some row
      → IsSettledIn e.event_id (settle e weighment db).ingested
  unfolding settle IngestStatus-discrete
  settle-IsSettledIn weighment db row found = (
    _,
    find_ingested-update e.event_id e.event_id _ db.ingested row (λ r. refl) found,
    rw (found_same e.event_id db.ingested row found) refl,
  )

  processed_with-Settles :
      (db : Db C) (row : IngestedEvent) (result : Attempt (Option String))
      → find_ingested e.event_id db.ingested ≡ some row
      → Settles e.event_id (processed_with e db result)
  processed_with-Settles db row (done weighment) found = settle-IsSettledIn weighment db row found
  processed_with-Settles db row (threw f) found = tt

  process-Settles :
      (db : Db C) (row : IngestedEvent)
      → find_ingested e.event_id db.ingested ≡ some row
      → Settles e.event_id (process h e db)
  unfolding process
  process-Settles db row found =
      let (core, result) = h.process_envelope e db.core in
      processed_with-Settles (with_core core db) row result found

  with_device-Settles :
      (known : Bool) (db : Db C) (o : Option Failure)
      → IsKnown known (find_ingested e.event_id db.ingested)
      → Settles e.event_id (with_device h gateway e known db o)
  with_device-Settles known db (some f) k = tt
  with_device-Settles true db none (row, found) = process-Settles db row found
  with_device-Settles false db none fresh =
      process-Settles (add_received gateway e db) _
        (find_ingested-append e.event_id db.ingested _ fresh refl)

  with_known-Settles :
      (db : Db C) (o : Option IngestedEvent)
      → find_ingested e.event_id db.ingested ≡ o
      → Settles e.event_id (with_known h gateway e db o)
  unfolding process_checked
  with_known-Settles db none fresh =
      with_device-Settles false db (device_refusal gateway e db) fresh
  with_known-Settles db (some row) found = elim (Bool-cases (row.gateway_id == gateway.id)) [
    | inr f ↦ rw f tt
    | inl t ↦ elim (Bool-cases (is_settled row)) [
      | inl settled ↦ rw (t, settled) (row, found, settled)
      | inr unsettled ↦
          rw (t, unsettled) (with_device-Settles true db (device_refusal gateway e db) (row, found))
    ]
  ]

  pub with_envelope-Settles :
      (db : Db C) (o : Option String) → Settles e.event_id (with_envelope h gateway e db o)
  with_envelope-Settles db (some message) = tt
  with_envelope-Settles db none = elim (Bool-cases (e.gateway_id == gateway.id)) [
    | inl t ↦ rw t (with_known-Settles db (find_ingested e.event_id db.ingested) refl)
    | inr f ↦ rw f tt
  ]

  pub synced_ingested-Settles :
      (item : BatchItem) (left : Db C × Attempt (Option String × Bool))
      → Settles e.event_id left
      → Settles e.event_id (synced_ingested item e left)
  synced_ingested-Settles item (db, done (weighment, already)) v =
      update_ingested-IsSettledIn e.event_id e.event_id _ db.ingested (λ r. refl) (λ r s. s) v
  synced_ingested-Settles item (db, threw f) v = tt

  special_of_device :
      (t : EventType) (db : Db C) → is_device_event t ≡ true → special h gateway e t db ≡ none
  special_of_device weight_reading db d = refl
  special_of_device anpr_detection db d = refl
  special_of_device status_changed db d = refl
  special_of_device scan_completed db d = refl
  special_of_device transaction_created db d = cc
  special_of_device transaction_state db d = cc
  special_of_device weight_anomaly db d = cc
  special_of_device file_captured db d = cc
  special_of_device connectivity_changed db d = cc

  visit_of_device :
      (local : Option String) (db : Db C)
      → is_device_event e.event_type ≡ true
      → visit_of h e local db ≡ none
  unfolding EventType-discrete
  visit_of_device none db d = refl
  visit_of_device (some local) db d = rw (other_than_state e.event_type d) refl

  pub try_item_of_device :
      (now : ℕ) (item : BatchItem) (db : Db C)
      → is_device_event e.event_type ≡ true
      → settled_row (find_ingested e.event_id db.ingested) ≡ none
      → try_item h gateway now item e db
        ≡ synced_ingested item e (ingest_gateway_event h gateway now e db)
  unfolding try_item detect_conflict process_special_event
  try_item_of_device now item db d open_row =
      rw
        (
          open_row,
          visit_of_device (or_other item.local_transaction_id e.local_transaction_id) db d,
          special_of_device e.event_type db d,
        )
        refl

  pub try_item_of_known :
      (now : ℕ) (item : BatchItem) (db : Db C) (row : IngestedEvent)
      → settled_row (find_ingested e.event_id db.ingested) ≡ some row
      → try_item h gateway now item e db
        ≡ (db, Attempt.done (duplicate_ack e.event_id row.weighment_id))
  unfolding try_item
  try_item_of_known now item db row known = rw known refl
