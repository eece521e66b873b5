-- ===== src/Intake/Batch/Acks.antt =====
-- The acknowledgements of a batch.
use trinetra_systems.Common.{
  ℕ, string_eq, Bool, List, [], ◌∷◌, Option, none, some, String, map, ◌≡◌, refl, ap₂,
}
use trinetra_systems.Edge.Store.{or_default}
use trinetra_systems.Intake.{
  EventType, weight_reading, anpr_detection, status_changed, scan_completed, transaction_created,
  transaction_state, weight_anomaly, file_captured, connectivity_changed, Envelope, RawEnvelope,
  unreadable, readable, BatchItem, Gateway, IngestedEvent, ConflictReason, Db, Attempt, done, threw,
  Handlers,
}
use trinetra_systems.Intake.Ingest.{find_ingested, ingest_gateway_event}
use trinetra_systems.Intake.Answers.{SyncAck, settled_row}
use trinetra_systems.Intake.Batch.{
  State, remembered, special, process_special_event, synced_special, synced_ingested, after_special,
  after_conflict, after_duplicate, in_window, parsed, try_item, conclude, take_item, ingest_item,
  ingest_items, ingest_sync_batch,
}

-- The id of an item, which a body without a text for it lacks.
abbrev pub raw_id : RawEnvelope → String
raw_id (unreadable id message) = or_default id "UNKNOWN-EVENT"
raw_id (readable e) = e.event_id

abbrev pub item_id : BatchItem → String
item_id item = raw_id item.envelope

abbrev pub Names : String → Attempt SyncAck → Type 0
Names id result = elim result [ done a ↦ a.event_id ≡ id | threw f ↦ Unit ]

abbrev NamesIfSome {ℓ} : {C : Type ℓ} → String → Option (Db C × Attempt SyncAck) → Type 0
NamesIfSome id none = Unit
NamesIfSome id (some (db, result)) = Names id result

module _ {ℓ} {C : Type ℓ} (h : Handlers C) (gateway : Gateway) (now : ℕ) where
  remembered-Names {κ} :
      {A : Type κ} (e : Envelope) (answer : A → SyncAck) (db : Db C) (left : C × Attempt A)
      → ((a : A) → (answer a).event_id ≡ e.event_id)
      → Names e.event_id (remembered gateway e answer db left).1
  remembered-Names e answer db (core, done a) same = same a
  remembered-Names e answer db (core, threw f) same = tt

  special-Names :
      (e : Envelope) (t : EventType) (db : Db C) → NamesIfSome e.event_id (special h gateway e t db)
  special-Names e transaction_created db =
      remembered-Names e _ db (h.upsert_local_transaction e db.core) (λ a. refl)
  special-Names e transaction_state db =
      remembered-Names e _ db (h.apply_local_transaction_state e db.core) (λ a. refl)
  special-Names e weight_anomaly db =
      remembered-Names e _ db (h.ingest_local_weight_anomaly e db.core) (λ a. refl)
  special-Names e file_captured db = refl
  special-Names e connectivity_changed db = refl
  special-Names e weight_reading db = tt
  special-Names e anpr_detection db = tt
  special-Names e status_changed db = tt
  special-Names e scan_completed db = tt

  synced_special-Names :
      (e : Envelope) (left : Db C × Attempt SyncAck)
      → Names e.event_id left.1
      → Names e.event_id (synced_special e left).1
  synced_special-Names e (db, done a) n = n
  synced_special-Names e (db, threw f) n = tt

  synced_ingested-Names :
      (item : BatchItem) (e : Envelope) (left : Db C × Attempt (Option String × Bool))
      → Names e.event_id (synced_ingested item e left).1
  synced_ingested-Names item e (db, done (weighment, already)) = refl
  synced_ingested-Names item e (db, threw f) = tt

  after_special-Names :
      (item : BatchItem) (e : Envelope) (db : Db C) (o : Option (Db C × Attempt SyncAck))
      → NamesIfSome e.event_id o
      → Names e.event_id (after_special h gateway now item e db o).1
  after_special-Names item e db (some left) n = synced_special-Names e left n
  after_special-Names item e db none n =
      synced_ingested-Names item e (ingest_gateway_event h gateway now e db)

  after_conflict-Names :
      (item : BatchItem) (e : Envelope) (db : Db C) (o : Option (ConflictReason × String × Db C))
      → Names e.event_id (after_conflict h gateway now item e db o).1
  unfolding process_special_event
  after_conflict-Names item e db (some (reason, transaction, left)) = refl
  after_conflict-Names item e db none =
      after_special-Names item e db (special h gateway e e.event_type db)
        (special-Names e e.event_type db)

  after_duplicate-Names :
      (item : BatchItem) (e : Envelope) (db : Db C) (o : Option IngestedEvent)
      → Names e.event_id (after_duplicate h gateway now item e db o).1
  after_duplicate-Names item e db (some row) = refl
  after_duplicate-Names item e db none = after_conflict-Names item e db _

  pub try_item-Names :
      (item : BatchItem) (e : Envelope) (db : Db C)
      → Names e.event_id (try_item h gateway now item e db).1
  unfolding try_item
  try_item-Names item e db =
      after_duplicate-Names item e db (settled_row (find_ingested e.event_id db.ingested))

  conclude-event_id :
      (e : Envelope) (known : List String) (left : Db C × Attempt SyncAck)
      → Names e.event_id left.1
      → (conclude e known left).1.event_id ≡ e.event_id
  conclude-event_id e known (db, done a) n = n
  conclude-event_id e known (db, threw f) n = refl

  take_item-event_id :
      (item : BatchItem) (e : Envelope) (ids : List String) (s : State C)
      → (take_item h gateway now item e ids s).1.event_id ≡ e.event_id
  take_item-event_id item e [] s =
      conclude-event_id e s.accepted_ids (try_item h gateway now item e s.db)
        (try_item-Names item e s.db)
  take_item-event_id item e (id ∷ ids) s = refl

  in_window-event_id :
      (item : BatchItem) (e : Envelope) (s : State C) (o : Option String)
      → (in_window h gateway now item e s o).1.event_id ≡ e.event_id
  in_window-event_id item e s (some message) = refl
  in_window-event_id item e s none = take_item-event_id item e _ s

  parsed-event_id :
      (item : BatchItem) (s : State C) (raw : RawEnvelope)
      → (parsed h gateway now item s raw).1.event_id ≡ raw_id raw
  parsed-event_id item s (unreadable id message) = refl
  parsed-event_id item s (readable e) = in_window-event_id item e s _

  ingest_items-event_id :
      (items : List BatchItem) (s : State C)
      → map (λ (a : SyncAck). a.event_id) (ingest_items h gateway now items s).1 ≡ map item_id items
  unfolding ingest_items ingest_item
  ingest_items-event_id [] s = refl
  ingest_items-event_id (item ∷ items) s =
      ap₂ ◌∷◌ (parsed-event_id item s item.envelope) (ingest_items-event_id items _)

-- A batch gets one acknowledgement for each of its items, in their order.
pub ingest_sync_batch-event_id {ℓ} :
    {C : Type ℓ} (h : Handlers C) (gateway : Gateway) (now : ℕ) (items : List BatchItem) (db : Db C)
    → map (λ (a : SyncAck). a.event_id) (ingest_sync_batch h gateway now items db).1
      ≡ map item_id items
unfolding ingest_sync_batch
ingest_sync_batch-event_id h gateway now items db = ingest_items-event_id h gateway now items _
