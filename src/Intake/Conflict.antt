-- ===== src/Intake/Conflict.antt =====
-- apps/api/src/domain/syncConflict.ts and `detectConflict` of apps/api/src/modules/sync/batch.ts:
-- when the state of a visit on the gateway contradicts the server's.
pub mod Recorded
use trinetra_systems.Common.{
  ℕ, includes, string_eq, any, Bool, true, false, not, ◌&&◌, ◌||◌, List, [], ◌∷◌, ◌++◌, Option,
  none, some, String, ◌==◌, ◌!=◌, map, if◌then◌else◌,
}
use trinetra_systems.Transaction.Status.{TransactionStatus, status_eq}
use trinetra_systems.Edge.Store.{or_default}
use trinetra_systems.Intake.{
  EventType, event_type_eq, Envelope, Gateway, ConflictReason, SyncConflict, IntakeAction, Db,
  Mapped, Handlers,
}
use trinetra_systems.Intake.Ingest.{audited}

abbrev pub conflicting_central_statuses : List TransactionStatus
conflicting_central_statuses =
    TransactionStatus.rejected ∷ TransactionStatus.cancelled ∷ TransactionStatus.exception ∷ []

unfoldable pub assess_sync_conflict : String → TransactionStatus → Option ConflictReason
assess_sync_conflict local central =
    if (local == "LOCAL_COMPLETED" || local == "CENTRAL_COMPLETED")
      && includes conflicting_central_statuses central
    then some (ConflictReason.completed_against central)
    else if local == "PAUSED_APPROVAL" && central == TransactionStatus.completed
    then some ConflictReason.paused_against_completed
    else none

-- the test that `detectConflict` repeats before it records a conflict
abbrev pub is_closed : TransactionStatus → Bool
is_closed status =
    status == TransactionStatus.rejected
    || status == TransactionStatus.cancelled
    || status == TransactionStatus.exception

abbrev pub same_conflict : SyncConflict → SyncConflict → Bool
same_conflict c row = row.gateway_id == c.gateway_id && row.event_id == c.event_id

-- `upsert`: the key of a row is its gateway and its event.
unfoldable pub upsert_conflict : SyncConflict → List SyncConflict → List SyncConflict
upsert_conflict c rows =
    if any (same_conflict c) rows
    then map (λ (row : SyncConflict). if same_conflict c row then c else row) rows
    else rows ++ c ∷ []

-- the transaction of the visit, with the state that the gateway has reached
abbrev pub central_of : Envelope → Option Mapped → Option (String × String × TransactionStatus)
central_of e none = none
central_of e (some m) = elim m.transaction [
  | none ↦ none
  | some (id, status) ↦ some (or_default e.local_state m.local_state, id, status)
]

module _ {ℓ} {C : Type ℓ} where
  abbrev pub visit_of :
      Handlers C → Envelope → Option String → Db C → Option (String × String × TransactionStatus)
  visit_of h e none db = none
  visit_of h e (some local) db =
      if e.event_type != EventType.transaction_state
      then none
      else central_of e (h.mapped db.core local)

  abbrev pub with_conflict : SyncConflict → Db C → Db C
  with_conflict c db =
      audited IntakeAction.conflict_detected c.event_id
        (record db { conflicts = upsert_conflict c db.conflicts })

  abbrev pub recorded :
      Gateway
      → Envelope
      → Db C
      → String
      → String
      → TransactionStatus
      → Option ConflictReason
      → Option (ConflictReason × String × Db C)
  recorded gateway e db state id status none = none
  recorded gateway e db state id status (some reason) =
      if is_closed status
      then some (
        reason,
        id,
        with_conflict
            (record {
              gateway_id = gateway.id;
              event_id = e.event_id;
              local_state = state;
              central_state = status;
              reason = reason;
            })
            db,
      )
      else none

  abbrev pub assessed :
      Gateway
      → Envelope
      → Db C
      → Option (String × String × TransactionStatus)
      → Option (ConflictReason × String × Db C)
  assessed gateway e db none = none
  assessed gateway e db (some (state, id, status)) =
      recorded gateway e db state id status (assess_sync_conflict state status)

  -- the reason, the id of the transaction, and the database with the conflict
  unfoldable pub detect_conflict :
      Handlers C
      → Gateway
      → Envelope
      → Option String
      → Db C
      → Option (ConflictReason × String × Db C)
  detect_conflict h gateway e local db = assessed gateway e db (visit_of h e local db)
