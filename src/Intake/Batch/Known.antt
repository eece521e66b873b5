-- ===== src/Intake/Batch/Known.antt =====
-- How a batch answers an event that is settled.
use trinetra_systems.Common.{
  ℕ, ◌+◌, ◌≤◌, nat_eq, filter, filter-eq-nil, filter-Mem, includes, includes→Mem, Mem→includes,
  string_eq, Bool, Bool-cases, true, false, not, ◌&&◌, ◌||◌, List, [], ◌∷◌, Memᴰ, Option, none,
  some, String, ◌==◌, ◌≡◌, ◌↔◌, ◌⊎◌, refl, inl, inr, arith,
}
use trinetra_systems.Edge.Sync.{AckStatus}
use trinetra_systems.Intake.{
  device_type_eq, expected_device_types, Envelope, readable, BatchItem, Gateway, IngestStatus,
  IngestStatus-discrete, ingest_status_eq, IngestedEvent, Db, Attempt, Handlers,
}
use trinetra_systems.Intake.Window.{max_sync_event_age_ms, max_future_skew_ms, envelope_error}
use trinetra_systems.Intake.Ingest.{find_ingested, is_settled}
use trinetra_systems.Intake.Answers.{SyncAck, duplicate_ack}
use trinetra_systems.Intake.Batch.{
  State, is_processed, try_item, missing, take_item, in_window, ingest_item,
}
use trinetra_systems.Intake.Batch.Settled.{IsSettledIn}

-- The event is at most thirty days old and ten minutes early, and its device is of a type that
-- sends such events.
abbrev pub IsInWindow : ℕ → Envelope → Type 0
IsInWindow now e =
    Memᴰ e.device_type (expected_device_types e.event_type)
    × (now ≤ e.timestamp + max_sync_event_age_ms)
    × (e.timestamp ≤ now + max_future_skew_ms)

-- with the test of the device's type taken apart
in_window_iff :
    (now : ℕ) (e : Envelope)
    → (envelope_error now max_sync_event_age_ms e ≡ none) ↔ (
        (includes (expected_device_types e.event_type) e.device_type ≡ true)
        × (now ≤ e.timestamp + max_sync_event_age_ms)
        × (e.timestamp ≤ now + max_future_skew_ms))
unfolding envelope_error
in_window_iff now e = ground arith

pub envelope_error-IsInWindow :
    (now : ℕ) (e : Envelope)
    → (envelope_error now max_sync_event_age_ms e ≡ none) ↔ IsInWindow now e
envelope_error-IsInWindow now e =
    let parts = in_window_iff now e in
    let types = expected_device_types e.event_type in
    (
      λ h.
          let (known, old, early) = parts.0 h in
          (includes→Mem types e.device_type known, old, early),
      λ (m, old, early). parts.1 (Mem→includes types e.device_type m, old, early),
    )

module _ {ℓ} {C : Type ℓ} (gateway : Gateway) (s : State C) where
  -- The event was processed, or rejected for good, for this gateway.
  abbrev pub IsTakenFor : String → Type 0
  IsTakenFor id =
      (row : IngestedEvent) × (find_ingested id s.db.ingested ≡ some row)
      × (row.gateway_id ≡ gateway.id)
      × ((row.status ≡ IngestStatus.processed) ⊎ (row.status ≡ IngestStatus.rejected))

  -- A prerequisite that was neither taken by the batch nor before.
  abbrev pub IsWaiting : List String → Type 0
  IsWaiting ids = (id : String) × Memᴰ id ids × ¬ Memᴰ id s.accepted_ids × ¬ IsTakenFor id

is_settled_iff :
    (row : IngestedEvent)
    → (is_settled row ≡ true)
      ↔ ((row.status ≡ IngestStatus.processed) ⊎ (row.status ≡ IngestStatus.rejected))
unfolding IngestStatus-discrete
is_settled_iff row = ground arith

module _ {ℓ} {C : Type ℓ} (gateway : Gateway) (s : State C) where
  and_iff : (a b : Bool) → (a && b ≡ true) ↔ ((a ≡ true) × (b ≡ true))
  and_iff a b = ground arith

  taken_row :
      (id : String) (o : Option IngestedEvent)
      → (elim o [ none ↦ false | some row ↦ row.gateway_id == gateway.id && is_settled row ] ≡ true)
        ↔ ((row : IngestedEvent) × (o ≡ some row)
            × (row.gateway_id ≡ gateway.id)
            × ((row.status ≡ IngestStatus.processed) ⊎ (row.status ≡ IngestStatus.rejected)))
  taken_row id none = (λ h. absurd (cc), λ (row, e, _, _). absurd (cc))
  taken_row id (some row) = (
    λ h.
        let (own, settled) = (and_iff (row.gateway_id == gateway.id) (is_settled row)).0 h in
        (
          row,
          refl,
          (string_eq.test_iff row.gateway_id gateway.id).0 own,
          (is_settled_iff row).0 settled,
        ),
    λ (found, e, own, settled).
        let same : row ≡ found = cc e in
        rw same (
          (and_iff (found.gateway_id == gateway.id) (is_settled found)).1 (
            (string_eq.test_iff found.gateway_id gateway.id).1 own,
            (is_settled_iff found).1 settled,
          )),
  )

  is_processed-IsTakenFor :
      (id : String) → (is_processed gateway s.db id ≡ true) ↔ IsTakenFor gateway s id
  unfolding is_processed
  is_processed-IsTakenFor id = taken_row id (find_ingested id s.db.ingested)

  neither_iff : (a b : Bool) → (not (a || b) ≡ true) ↔ ((a ≡ false) × (b ≡ false))
  neither_iff a b = ground arith

  missing-IsWaiting :
      (ids : List String) (id : String) (rest : List String)
      → missing gateway ids s ≡ id ∷ rest
      → IsWaiting gateway s ids
  unfolding missing
  missing-IsWaiting ids id rest h =
      let unmet : String → Bool =
        λ id. not (includes s.accepted_ids id || is_processed gateway s.db id) in
      let first : Memᴰ id (filter unmet ids) = rw h (Memᴰ.head refl) in
      let (m, test) = filter-Mem unmet ids id first in
      let (fresh, unknown) = (neither_iff (includes s.accepted_ids id) _).0 test in
      (
        id,
        m,
        λ n. cc (fresh, Mem→includes s.accepted_ids id n),
        λ t. cc (unknown, (is_processed-IsTakenFor id).1 t),
      )

  met-IsWaiting : (ids : List String) → missing gateway ids s ≡ [] → ¬ IsWaiting gateway s ids
  unfolding missing
  met-IsWaiting ids h (id, m, fresh, unknown) =
      let met = filter-eq-nil _ ids h id m in
      elim (Bool-cases (includes s.accepted_ids id)) [
        | inl t ↦ fresh (includes→Mem s.accepted_ids id t)
        | inr f ↦ elim (Bool-cases (is_processed gateway s.db id)) [
          | inl t ↦ unknown ((is_processed-IsTakenFor id).0 t)
          | inr g ↦ cc (met, (neither_iff (includes s.accepted_ids id) _).1 (f, g))
        ]
      ]

-- How a settled event is answered: outside its window of time it is rejected, with a prerequisite
-- missing it waits, and otherwise it was already processed.
module _ {ℓ} {C : Type ℓ} (h : Handlers C) (gateway : Gateway) (later : ℕ) where
  abbrev pub IsAnsweredAsKnown : BatchItem → Envelope → State C → AckStatus → Type 0
  IsAnsweredAsKnown again e s answer =
      ((answer ≡ AckStatus.rejected) × ¬ IsInWindow later e)
      ⊎ ((answer ≡ AckStatus.dependency_pending)
          × IsInWindow later e
          × IsWaiting gateway s again.depends_on)
      ⊎ ((answer ≡ AckStatus.already_processed)
          × IsInWindow later e
          × ¬ IsWaiting gateway s again.depends_on)

  abbrev IsKept : BatchItem → Envelope → State C → State C × SyncAck → Type ℓ
  IsKept again e s left = (left.0.db ≡ s.db) × IsAnsweredAsKnown again e s left.1.status

  try_item_of_settled :
      (item : BatchItem) (e : Envelope) (db : Db C)
      → IsSettledIn e.event_id db.ingested
      → (w : Option String) × (try_item h gateway later item e db
          ≡ (db, Attempt.done (duplicate_ack e.event_id w)))
  unfolding try_item
  try_item_of_settled item e db (row, found, settled) = rw (found, settled) (row.weighment_id, refl)

  take_item_of_settled :
      (item : BatchItem) (e : Envelope) (s : State C) (ids : List String)
      → envelope_error later max_sync_event_age_ms e ≡ none
      → missing gateway item.depends_on s ≡ ids
      → IsSettledIn e.event_id s.db.ingested
      → IsKept item e s (take_item h gateway later item e ids s)
  take_item_of_settled item e s [] in_time met settled =
      let (w, known) = try_item_of_settled item e s.db settled in
      rw known (
        refl,
        inr (
            inr (
              refl,
              (envelope_error-IsInWindow later e).0 in_time,
              met-IsWaiting gateway s item.depends_on met,
            )),
      )
  take_item_of_settled item e s (id ∷ ids) in_time waits settled = (
    refl,
    inr (
        inl (
          refl,
          (envelope_error-IsInWindow later e).0 in_time,
          missing-IsWaiting gateway s item.depends_on id ids waits,
        )),
  )

  in_window_of_settled :
      (item : BatchItem) (e : Envelope) (s : State C) (o : Option String)
      → envelope_error later max_sync_event_age_ms e ≡ o
      → IsSettledIn e.event_id s.db.ingested
      → IsKept item e s (in_window h gateway later item e s o)
  in_window_of_settled item e s (some message) outside settled =
      (refl, inl (refl, λ w. cc (outside, (envelope_error-IsInWindow later e).1 w)))
  in_window_of_settled item e s none in_time settled =
      take_item_of_settled item e s (missing gateway item.depends_on s) in_time refl settled

  pub ingest_item_of_settled :
      (item : BatchItem) (e : Envelope) (s : State C)
      → item.envelope ≡ readable e
      → IsSettledIn e.event_id s.db.ingested
      → IsKept item e s (ingest_item h gateway later item s)
  unfolding ingest_item try_item
  ingest_item_of_settled item e s same settled =
      rw same
        (in_window_of_settled item e s (envelope_error later max_sync_event_age_ms e) refl settled)
