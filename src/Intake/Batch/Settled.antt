-- ===== src/Intake/Batch/Settled.antt =====
-- An event that is marked as processed stays so.
use trinetra_systems.Common.{
  ℕ, find, find_of_append, string_eq, ◌==◌, Bool, Bool-cases, true, false, List, [], ◌∷◌, ◌++◌,
  Option, none, some, String, ◌≡◌, refl, ap, inl, inr, if◌then◌else◌,
}
use trinetra_systems.Transaction.Status.{status_eq}
use trinetra_systems.Intake.{
  EventType, weight_reading, anpr_detection, status_changed, scan_completed, transaction_created,
  transaction_state, weight_anomaly, file_captured, connectivity_changed, Envelope, Gateway,
  IngestedEvent, IngestStatus-discrete, Db, Failure, Attempt, done, threw, Handlers,
}
use trinetra_systems.Intake.Window.{max_event_age_ms, envelope_error}
use trinetra_systems.Intake.Ingest.{
  find_ingested, is_settled, update_ingested, device_refusal, settle, processed_with, process,
  with_device, with_known, with_envelope, process_checked, add_received, with_core,
  ingest_gateway_event,
}
use trinetra_systems.Intake.Answers.{SyncAck}
use trinetra_systems.Intake.Batch.{has_device, remember_new, remember_event, remembered, special}

-- The event of that id is processed or rejected for good.
abbrev pub IsSettledIn : String → List IngestedEvent → Type 0
IsSettledIn id rows =
    (row : IngestedEvent) × (find_ingested id rows ≡ some row) × (is_settled row ≡ true)

abbrev changed : String → (IngestedEvent → IngestedEvent) → IngestedEvent → IngestedEvent
changed y change r = if r.event_id == y then change r else r

changed-event_id :
    (y : String) (change : IngestedEvent → IngestedEvent) (r : IngestedEvent)
    → ((r : IngestedEvent) → (change r).event_id ≡ r.event_id)
    → (changed y change r).event_id ≡ r.event_id
changed-event_id y change r same = elim (Bool-cases (r.event_id == y)) [
  | inl t ↦ rw t (same r)
  | inr f ↦ rw f refl
]

pub find_ingested-update :
    (id y : String) (change : IngestedEvent → IngestedEvent) (rows : List IngestedEvent)
    (row : IngestedEvent)
    → ((r : IngestedEvent) → (change r).event_id ≡ r.event_id)
    → find_ingested id rows ≡ some row
    → find_ingested id (update_ingested y change rows) ≡ some (changed y change row)
unfolding find_ingested find update_ingested
find_ingested-update id y change [] row same h = cc
find_ingested-update id y change (r ∷ rows) row same h = elim (Bool-cases (r.event_id == id)) [
  | inl t ↦
      let first : r ≡ row = cc (rw t at h) in
      rw (changed-event_id y change r same, t) (ap (λ x. some (changed y change x)) first)
  | inr f ↦
      rw (changed-event_id y change r same, f)
        (find_ingested-update id y change rows row same (rw f at h))
]

pub update_ingested-IsSettledIn :
    (id y : String) (change : IngestedEvent → IngestedEvent) (rows : List IngestedEvent)
    → ((r : IngestedEvent) → (change r).event_id ≡ r.event_id)
    → ((r : IngestedEvent) → is_settled r ≡ true → is_settled (change r) ≡ true)
    → IsSettledIn id rows
    → IsSettledIn id (update_ingested y change rows)
update_ingested-IsSettledIn id y change rows same stays (row, found, settled) = (
  changed y change row,
  find_ingested-update id y change rows row same found,
  elim (Bool-cases (row.event_id == y)) [ inl t ↦ rw t (stays row settled) | inr f ↦ rw f settled ],
)

append-IsSettledIn :
    (id : String) (rows : List IngestedEvent) (row : IngestedEvent)
    → IsSettledIn id rows
    → IsSettledIn id (rows ++ row ∷ [])
unfolding find_ingested
append-IsSettledIn id rows row (r, found, settled) =
    (r, find_of_append _ rows (row ∷ []) r found, settled)

-- What holds of the rows of a database with the answer to a step.
abbrev pub StaysIn {ℓ κ} : {C : Type ℓ} {A : Type κ} → String → Db C × A → Type 0
StaysIn id (db, answer) = IsSettledIn id db.ingested

abbrev pub StaysIfSome {ℓ κ} : {C : Type ℓ} {A : Type κ} → String → Option (Db C × A) → Type 0
StaysIfSome id none = Unit
StaysIfSome id (some (db, answer)) = IsSettledIn id db.ingested

module _ {ℓ} {C : Type ℓ} (h : Handlers C) (gateway : Gateway) (id : String) where
  remember_new-stays :
      (e : Envelope) (db : Db C) (o : Option IngestedEvent)
      → IsSettledIn id db.ingested
      → IsSettledIn id (remember_new gateway e db o).ingested
  remember_new-stays e db (some row) v = v
  remember_new-stays e db none v = elim (Bool-cases (has_device gateway db)) [
    | inl t ↦ rw t (append-IsSettledIn id db.ingested _ v)
    | inr f ↦ rw f v
  ]

  remember_event-stays :
      (e : Envelope) (db : Db C)
      → IsSettledIn id db.ingested
      → IsSettledIn id (remember_event gateway e db).ingested
  unfolding remember_event
  remember_event-stays e db v = remember_new-stays e db (find_ingested e.event_id db.ingested) v

  remembered-StaysIn {κ} :
      {A : Type κ} (e : Envelope) (answer : A → SyncAck) (db : Db C) (left : C × Attempt A)
      → IsSettledIn id db.ingested
      → StaysIn id (remembered gateway e answer db left)
  remembered-StaysIn e answer db (core, done a) v = remember_event-stays e (with_core core db) v
  remembered-StaysIn e answer db (core, threw f) v = v

  pub special-StaysIfSome :
      (e : Envelope) (t : EventType) (db : Db C)
      → IsSettledIn id db.ingested
      → StaysIfSome id (special h gateway e t db)
  special-StaysIfSome e transaction_created db v =
      remembered-StaysIn e _ db (h.upsert_local_transaction e db.core) v
  special-StaysIfSome e transaction_state db v =
      remembered-StaysIn e _ db (h.apply_local_transaction_state e db.core) v
  special-StaysIfSome e weight_anomaly db v =
      remembered-StaysIn e _ db (h.ingest_local_weight_anomaly e db.core) v
  special-StaysIfSome e file_captured db v = remember_event-stays e db v
  special-StaysIfSome e connectivity_changed db v = remember_event-stays e db v
  special-StaysIfSome e weight_reading db v = tt
  special-StaysIfSome e anpr_detection db v = tt
  special-StaysIfSome e status_changed db v = tt
  special-StaysIfSome e scan_completed db v = tt

  settle-stays :
      (e : Envelope) (weighment : Option String) (db : Db C)
      → IsSettledIn id db.ingested
      → IsSettledIn id (settle e weighment db).ingested
  unfolding settle IngestStatus-discrete
  settle-stays e weighment db v =
      update_ingested-IsSettledIn id e.event_id _ db.ingested (λ r. refl) (λ r s. refl) v

  processed_with-StaysIn :
      (e : Envelope) (db : Db C) (result : Attempt (Option String))
      → IsSettledIn id db.ingested
      → StaysIn id (processed_with e db result)
  processed_with-StaysIn e db (done weighment) v = settle-stays e weighment db v
  processed_with-StaysIn e db (threw f) v = v

  process-StaysIn :
      (e : Envelope) (db : Db C) → IsSettledIn id db.ingested → StaysIn id (process h e db)
  unfolding process
  process-StaysIn e db v =
      let (core, result) = h.process_envelope e db.core in
      processed_with-StaysIn e (with_core core db) result v

  with_device-StaysIn :
      (e : Envelope) (known : Bool) (db : Db C) (o : Option Failure)
      → IsSettledIn id db.ingested
      → StaysIn id (with_device h gateway e known db o)
  with_device-StaysIn e known db (some f) v = v
  with_device-StaysIn e true db none v = process-StaysIn e db v
  with_device-StaysIn e false db none v =
      process-StaysIn e (add_received gateway e db) (append-IsSettledIn id db.ingested _ v)

  with_known-StaysIn :
      (e : Envelope) (db : Db C) (o : Option IngestedEvent)
      → IsSettledIn id db.ingested
      → StaysIn id (with_known h gateway e db o)
  unfolding process_checked
  with_known-StaysIn e db none v = with_device-StaysIn e false db (device_refusal gateway e db) v
  with_known-StaysIn e db (some row) v = elim (Bool-cases (row.gateway_id == gateway.id)) [
    | inr f ↦ rw f v
    | inl t ↦ elim (Bool-cases (is_settled row)) [
      | inl settled ↦ rw (t, settled) v
      | inr unsettled ↦
          rw (t, unsettled) (with_device-StaysIn e true db (device_refusal gateway e db) v)
    ]
  ]

  with_envelope-StaysIn :
      (e : Envelope) (db : Db C) (o : Option String)
      → IsSettledIn id db.ingested
      → StaysIn id (with_envelope h gateway e db o)
  with_envelope-StaysIn e db (some message) v = v
  with_envelope-StaysIn e db none v = elim (Bool-cases (e.gateway_id == gateway.id)) [
    | inl t ↦ rw t (with_known-StaysIn e db (find_ingested e.event_id db.ingested) v)
    | inr f ↦ rw f v
  ]

  pub ingest_gateway_event-StaysIn :
      (now : ℕ) (e : Envelope) (db : Db C)
      → IsSettledIn id db.ingested
      → StaysIn id (ingest_gateway_event h gateway now e db)
  unfolding ingest_gateway_event
  ingest_gateway_event-StaysIn now e db v =
      with_envelope-StaysIn e db (envelope_error now max_event_age_ms e) v
