-- ===== src/Intake/Batch/Once.antt =====
-- An event of a device is processed once.
use trinetra_systems.Common.{
  ℕ, string_eq, Bool-cases, true, List, [], ◌∷◌, Option, Option-cases, none, some, String, ◌≡◌, inl,
  inr,
}
use trinetra_systems.Intake.{
  event_type_eq, Envelope, readable, BatchItem, Gateway, Db, Attempt, done, threw, Handlers,
}
use trinetra_systems.Intake.Window.{max_event_age_ms, max_sync_event_age_ms, envelope_error}
use trinetra_systems.Intake.Ingest.{find_ingested, ingest_gateway_event}
use trinetra_systems.Intake.Answers.{SyncAck, is_dependency, settled_row}
use trinetra_systems.Intake.Batch.{
  State, try_item, conclude, missing, take_item, in_window, ingest_item, ingest_items,
  ingest_sync_batch,
}
use trinetra_systems.Intake.Batch.Settled.{IsSettledIn}
use trinetra_systems.Intake.Batch.Known.{IsAnsweredAsKnown, ingest_item_of_settled}
use trinetra_systems.Intake.Batch.Dependencies.{IsSuccess}
use trinetra_systems.Intake.Batch.Reported.{
  is_device_event, Settles, settled_row-eq-some, try_item_of_device, try_item_of_known,
  with_envelope-Settles, synced_ingested-Settles,
}
use trinetra_systems.Intake.Batch.Stays.{ingest_items-stays}

module _ {ℓ} {C : Type ℓ} (h : Handlers C) (gateway : Gateway) (e : Envelope) (now : ℕ) where
  ingest_gateway_event-Settles :
      (db : Db C) → Settles e.event_id (ingest_gateway_event h gateway now e db)
  unfolding ingest_gateway_event
  ingest_gateway_event-Settles db =
      with_envelope-Settles h gateway e db (envelope_error now max_event_age_ms e)

  try_item-Settles :
      (item : BatchItem) (db : Db C)
      → is_device_event e.event_type ≡ true
      → Settles e.event_id (try_item h gateway now item e db)
  try_item-Settles item db d =
      elim (Option-cases (settled_row (find_ingested e.event_id db.ingested))) [
        | inl open_row ↦ rw (try_item_of_device h gateway e now item db d open_row) (
            synced_ingested-Settles h gateway e item (ingest_gateway_event h gateway now e db)
              (ingest_gateway_event-Settles db))
        | inr (row, known) ↦ rw (try_item_of_known h gateway e now item db row known) (
            let (found, settled) =
              settled_row-eq-some (find_ingested e.event_id db.ingested) row known in
            (row, found, settled))
      ]

  conclude-IsSettledIn :
      (known : List String) (left : Db C × Attempt SyncAck)
      → Settles e.event_id left
      → IsSuccess (conclude e known left).1
      → IsSettledIn e.event_id (conclude e known left).0.db.ingested
  conclude-IsSettledIn known (db, done a) v success = v
  conclude-IsSettledIn known (db, threw f) v success = elim (Bool-cases (is_dependency f)) [
    | inl t ↦ absurd (cc (rw t at success))
    | inr n ↦ absurd (cc (rw n at success))
  ]

  take_item-IsSettledIn :
      (item : BatchItem) (ids : List String) (s : State C)
      → is_device_event e.event_type ≡ true
      → IsSuccess (take_item h gateway now item e ids s).1
      → IsSettledIn e.event_id (take_item h gateway now item e ids s).0.db.ingested
  take_item-IsSettledIn item [] s d success =
      conclude-IsSettledIn s.accepted_ids (try_item h gateway now item e s.db)
        (try_item-Settles item s.db d) success
  take_item-IsSettledIn item (id ∷ ids) s d success = cc

  in_window-IsSettledIn :
      (item : BatchItem) (s : State C) (o : Option String)
      → is_device_event e.event_type ≡ true
      → IsSuccess (in_window h gateway now item e s o).1
      → IsSettledIn e.event_id (in_window h gateway now item e s o).0.db.ingested
  in_window-IsSettledIn item s (some message) d success = cc
  in_window-IsSettledIn item s none d success =
      take_item-IsSettledIn item (missing gateway item.depends_on s) s d success

  ingest_item-IsSettledIn :
      (item : BatchItem) (s : State C)
      → item.envelope ≡ readable e
      → is_device_event e.event_type ≡ true
      → IsSuccess (ingest_item h gateway now item s).1
      → IsSettledIn e.event_id (ingest_item h gateway now item s).0.db.ingested
  unfolding ingest_item try_item
  ingest_item-IsSettledIn item s same d =
      rw same (in_window-IsSettledIn item s (envelope_error now max_sync_event_age_ms e) d)

-- a batch with the gateway that sends it and the instant at which it comes
pub record Delivery : Type 0 where
  pub gateway : Gateway
  pub at : ℕ
  pub items : List BatchItem

-- batches one after the other
unfoldable pub receive_all {ℓ} : {C : Type ℓ} → Handlers C → List Delivery → Db C → Db C
receive_all h [] db = db
receive_all h (d ∷ ds) db = receive_all h ds (ingest_sync_batch h d.gateway d.at d.items db).0

receive_all-stays {ℓ} :
    {C : Type ℓ} (h : Handlers C) (id : String) (batches : List Delivery) (db : Db C)
    → IsSettledIn id db.ingested
    → IsSettledIn id (receive_all h batches db).ingested
unfolding receive_all ingest_sync_batch
receive_all-stays h id [] db v = v
receive_all-stays h id (d ∷ ds) db v =
    receive_all-stays h id ds _
      (ingest_items-stays h d.gateway id d.at d.items (record { db = db; accepted_ids = [] }) v)

-- Once a batch answered a device's event with success, a later delivery of it changes nothing in
-- the database, whatever the rest of that batch, any further batches of any gateways and the items
-- before it in its own batch are. It is rejected where it is by then outside the window in which a
-- batch takes it, waits where a prerequisite that it names was taken neither in its batch nor before
-- for its gateway, and is answered as already processed in every other case.
pub ingest_item-once {ℓ} :
    {C : Type ℓ} (h : Handlers C) (gateway sender : Gateway) (now later : ℕ)
    (item again : BatchItem) (e : Envelope) (between : List BatchItem) (batches : List Delivery)
    (known : List String) (before : List BatchItem) (s : State C)
    → let first = ingest_item h gateway now item s in
      let rest = (ingest_items h gateway now between first.0).0 in
      let reached : State C = record { db = receive_all h batches rest.db; accepted_ids = known } in
      let left = (ingest_items h sender later before reached).0 in
      item.envelope ≡ readable e
      → again.envelope ≡ readable e
      → is_device_event e.event_type ≡ true
      → IsSuccess first.1
      → ((ingest_item h sender later again left).0.db ≡ left.db)
        × IsAnsweredAsKnown h sender later again e left
            (ingest_item h sender later again left).1.status
ingest_item-once {C = C} h gateway sender now later item again e between batches known before s same
      same' d success =
    let first = ingest_item h gateway now item s in
    let rest = (ingest_items h gateway now between first.0).0 in
    let reached : State C = record { db = receive_all h batches rest.db; accepted_ids = known } in
    ingest_item_of_settled h sender later again e (ingest_items h sender later before reached).0
      same'
      (ingest_items-stays h sender e.event_id later before reached (
        receive_all-stays h e.event_id batches rest.db (
          ingest_items-stays h gateway e.event_id now between first.0
            (ingest_item-IsSettledIn h gateway e now item s same d success))))
