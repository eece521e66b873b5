-- ===== src/Intake/Batch/Stays.antt =====
-- A batch leaves a settled event settled.
use trinetra_systems.Common.{
  ℕ, string_eq, Bool, Bool-cases, List, [], ◌∷◌, Option, none, some, String, refl, inl, inr,
}
use trinetra_systems.Transaction.Status.{TransactionStatus, status_eq}
use trinetra_systems.Edge.Store.{or_other}
use trinetra_systems.Intake.{
  Envelope, RawEnvelope, unreadable, readable, BatchItem, Gateway, IngestedEvent, ConflictReason,
  Db, Attempt, done, threw, Handlers,
}
use trinetra_systems.Intake.Window.{max_sync_event_age_ms, envelope_error}
use trinetra_systems.Intake.Ingest.{find_ingested}
use trinetra_systems.Intake.Conflict.{
  is_closed, assess_sync_conflict, visit_of, recorded, assessed, detect_conflict,
}
use trinetra_systems.Intake.Answers.{SyncAck, is_permanent, settled_row}
use trinetra_systems.Intake.Batch.{
  State, special, process_special_event, synced_special, synced_ingested, after_special,
  after_conflict, after_duplicate, try_item, conclude, missing, take_item, in_window, parsed,
  ingest_item, ingest_items,
}
use trinetra_systems.Intake.Batch.Settled.{
  IsSettledIn, StaysIn, StaysIfSome, update_ingested-IsSettledIn, special-StaysIfSome,
  ingest_gateway_event-StaysIn,
}

abbrev LeavesSettled {ℓ} : {C : Type ℓ} → String → Option (ConflictReason × String × Db C) → Type 0
LeavesSettled id none = Unit
LeavesSettled id (some (reason, transaction, db)) = IsSettledIn id db.ingested

module _ {ℓ} {C : Type ℓ} (h : Handlers C) (gateway : Gateway) (id : String) where
  synced_special-StaysIn :
      (e : Envelope) (left : Db C × Attempt SyncAck)
      → IsSettledIn id left.0.ingested
      → StaysIn id (synced_special e left)
  synced_special-StaysIn e (db, done a) v = v
  synced_special-StaysIn e (db, threw f) v = v

  synced_ingested-StaysIn :
      (item : BatchItem) (e : Envelope) (left : Db C × Attempt (Option String × Bool))
      → IsSettledIn id left.0.ingested
      → StaysIn id (synced_ingested item e left)
  synced_ingested-StaysIn item e (db, done (weighment, already)) v =
      update_ingested-IsSettledIn id e.event_id _ db.ingested (λ r. refl) (λ r s. s) v
  synced_ingested-StaysIn item e (db, threw f) v = v

  recorded-stays :
      (e : Envelope) (db : Db C) (state transaction : String) (status : TransactionStatus)
      (o : Option ConflictReason)
      → IsSettledIn id db.ingested
      → LeavesSettled id (recorded gateway e db state transaction status o)
  recorded-stays e db state transaction status none v = tt
  recorded-stays e db state transaction status (some reason) v =
      elim (Bool-cases (is_closed status)) [ inl t ↦ rw t v | inr f ↦ rw f tt ]

  assessed-stays :
      (e : Envelope) (db : Db C) (o : Option (String × String × TransactionStatus))
      → IsSettledIn id db.ingested
      → LeavesSettled id (assessed gateway e db o)
  assessed-stays e db none v = tt
  assessed-stays e db (some (state, transaction, status)) v =
      recorded-stays e db state transaction status (assess_sync_conflict state status) v

  module _ (now : ℕ) where
    after_special-StaysIn :
        (item : BatchItem) (e : Envelope) (db : Db C) (o : Option (Db C × Attempt SyncAck))
        → IsSettledIn id db.ingested
        → StaysIfSome id o
        → StaysIn id (after_special h gateway now item e db o)
    after_special-StaysIn item e db (some left) v w = synced_special-StaysIn e left w
    after_special-StaysIn item e db none v w =
        synced_ingested-StaysIn item e _ (ingest_gateway_event-StaysIn h gateway id now e db v)

    after_conflict-StaysIn :
        (item : BatchItem) (e : Envelope) (db : Db C) (o : Option (ConflictReason × String × Db C))
        → IsSettledIn id db.ingested
        → LeavesSettled id o
        → StaysIn id (after_conflict h gateway now item e db o)
    unfolding process_special_event
    after_conflict-StaysIn item e db (some (reason, transaction, left)) v w = w
    after_conflict-StaysIn item e db none v w =
        after_special-StaysIn item e db (special h gateway e e.event_type db) v
          (special-StaysIfSome h gateway id e e.event_type db v)

    after_duplicate-StaysIn :
        (item : BatchItem) (e : Envelope) (db : Db C) (o : Option IngestedEvent)
        → IsSettledIn id db.ingested
        → StaysIn id (after_duplicate h gateway now item e db o)
    unfolding detect_conflict
    after_duplicate-StaysIn item e db (some row) v = v
    after_duplicate-StaysIn item e db none v =
        let local = or_other item.local_transaction_id e.local_transaction_id in
        after_conflict-StaysIn item e db (detect_conflict h gateway e local db) v
          (assessed-stays e db (visit_of h e local db) v)

    conclude-stays :
        (e : Envelope) (known : List String) (left : Db C × Attempt SyncAck)
        → IsSettledIn id left.0.ingested
        → IsSettledIn id (conclude e known left).0.db.ingested
    conclude-stays e known (db, done a) v = v
    conclude-stays e known (db, threw f) v = elim (Bool-cases (is_permanent f)) [
      | inl t ↦ rw t v
      | inr n ↦ rw n v
    ]

    take_item-stays :
        (item : BatchItem) (e : Envelope) (ids : List String) (s : State C)
        → IsSettledIn id s.db.ingested
        → IsSettledIn id (take_item h gateway now item e ids s).0.db.ingested
    unfolding try_item
    take_item-stays item e [] s v =
        conclude-stays e s.accepted_ids (try_item h gateway now item e s.db) (
          after_duplicate-StaysIn item e s.db (settled_row (find_ingested e.event_id s.db.ingested))
            v)
    take_item-stays item e (x ∷ ids) s v = v

    in_window-stays :
        (item : BatchItem) (e : Envelope) (s : State C) (o : Option String)
        → IsSettledIn id s.db.ingested
        → IsSettledIn id (in_window h gateway now item e s o).0.db.ingested
    in_window-stays item e s (some message) v = v
    in_window-stays item e s none v = take_item-stays item e (missing gateway item.depends_on s) s v

    parsed-stays :
        (item : BatchItem) (s : State C) (raw : RawEnvelope)
        → IsSettledIn id s.db.ingested
        → IsSettledIn id (parsed h gateway now item s raw).0.db.ingested
    parsed-stays item s (unreadable own message) v = v
    parsed-stays item s (readable e) v =
        in_window-stays item e s (envelope_error now max_sync_event_age_ms e) v

    pub ingest_items-stays :
        (items : List BatchItem) (s : State C)
        → IsSettledIn id s.db.ingested
        → IsSettledIn id (ingest_items h gateway now items s).0.db.ingested
    unfolding ingest_items ingest_item
    ingest_items-stays [] s v = v
    ingest_items-stays (item ∷ items) s v =
        ingest_items-stays items (ingest_item h gateway now item s).0
          (parsed-stays item s item.envelope v)
