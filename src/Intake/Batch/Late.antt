-- ===== src/Intake/Batch/Late.antt =====
-- An event that the gateway held back for more than a week.
use trinetra_systems.Common.{
  ℕ, ◌+◌, ◌<◌, any, string_eq, eq_refl, ◌==◌, Bool-cases, true, List, [], ◌∷◌, ◌++◌, map, none,
  some, ◌≡◌, refl, inl, inr, arith, if◌then◌else◌,
}
use trinetra_systems.Edge.Sync.{AckStatus}
use trinetra_systems.Intake.{
  device_type_eq, Envelope, readable, BatchItem, Gateway, DeadLetter, Handlers,
}
use trinetra_systems.Intake.Window.{max_event_age_ms, max_sync_event_age_ms, envelope_error}
use trinetra_systems.Intake.Ingest.{find_ingested, ingest_gateway_event}
use trinetra_systems.Intake.Answers.{is_permanent, settled_row, upsert_dead_letter}
use trinetra_systems.Intake.Batch.{State, missing, try_item, ingest_item}
use trinetra_systems.Intake.Batch.Reported.{is_device_event, try_item_of_device}

too_late :
    (now : ℕ) (e : Envelope)
    → envelope_error now max_sync_event_age_ms e ≡ none
    → e.timestamp + max_event_age_ms < now
    → envelope_error now max_event_age_ms e ≡ some "Event timestamp is too old"
unfolding envelope_error
too_late now e in_time late = ground arith

any_of_map :
    (d : DeadLetter) (rows : List DeadLetter)
    → any (λ (row : DeadLetter). row.event_id == d.event_id) rows ≡ true
    → any
        (λ (row : DeadLetter). row.event_id == d.event_id)
        (map (λ (row : DeadLetter). if row.event_id == d.event_id then d else row) rows)
      ≡ true
unfolding any
any_of_map d [] h = cc
any_of_map d (row ∷ rows) h = elim (Bool-cases (row.event_id == d.event_id)) [
  | inl t ↦ rw (t, eq_refl d.event_id) refl
  | inr f ↦ rw (f, f) (any_of_map d rows (rw f at h))
]

any_of_append :
    (d : DeadLetter) (rows : List DeadLetter)
    → any (λ (row : DeadLetter). row.event_id == d.event_id) (rows ++ d ∷ []) ≡ true
unfolding any
any_of_append d [] = rw (eq_refl d.event_id) refl
any_of_append d (row ∷ rows) = ground (arith, any_of_append d rows)

upsert_dead_letter-any :
    (d : DeadLetter) (rows : List DeadLetter)
    → any (λ (row : DeadLetter). row.event_id == d.event_id) (upsert_dead_letter d rows) ≡ true
unfolding upsert_dead_letter
upsert_dead_letter-any d rows =
    elim (Bool-cases (any (λ (row : DeadLetter). row.event_id == d.event_id) rows)) [
      | inl t ↦ rw t (any_of_map d rows t)
      | inr f ↦ rw f (any_of_append d rows)
    ]

-- A device's event that is older than a week but passes the check of the batch, which takes events
-- for thirty days, that is not yet processed or rejected and misses none of its prerequisites, is
-- rejected all the same, and becomes a dead letter.
pub ingest_item_of_late {ℓ} :
    {C : Type ℓ} (h : Handlers C) (gateway : Gateway) (now : ℕ) (item : BatchItem) (e : Envelope)
    (s : State C)
    → item.envelope ≡ readable e
    → is_device_event e.event_type ≡ true
    → envelope_error now max_sync_event_age_ms e ≡ none
    → missing gateway item.depends_on s ≡ []
    → settled_row (find_ingested e.event_id s.db.ingested) ≡ none
    → e.timestamp + max_event_age_ms < now
    → ((ingest_item h gateway now item s).1.status ≡ AckStatus.rejected)
      × (any
            (λ (row : DeadLetter). row.event_id == e.event_id)
            (ingest_item h gateway now item s).0.db.dead_letters
          ≡ true)
unfolding ingest_item ingest_gateway_event is_permanent try_item any
ingest_item_of_late h gateway now item e s same d in_time met unsettled late =
    rw
      (
        same,
        in_time,
        met,
        try_item_of_device h gateway e now item s.db d unsettled,
        too_late now e in_time late,
      )
      (refl, upsert_dead_letter-any _ s.db.dead_letters)
