-- ===== src/Intake/Conflict/Recorded.antt =====
-- Which contradictions between gateway and server are recorded, and where.
use trinetra_systems.Common.{
  any, includes, string_eq, is_some, eq_refl, Bool, Bool-cases, true, false, ◌&&◌, ◌||◌, List, [],
  ◌∷◌, ◌++◌, map, Memᴰ, Option, none, some, String, ◌==◌, ◌≡◌, ◌∙◌, ◌⊎◌, ◌↔◌, inl, inr, refl, arith,
  if◌then◌else◌,
}
use trinetra_systems.Transaction.Status.{
  TransactionStatus, TransactionStatus-discrete, status_eq, arrived, identified, document_pending,
  document_verified, material_classified, first_weighment, pending_approval, approved, unloading,
  unloaded, second_weighment, completed, on_hold, rejected, cancelled, exception,
}
use trinetra_systems.Intake.{Envelope, Gateway, ConflictReason, SyncConflict, Db, Handlers}
use trinetra_systems.Intake.Conflict.{
  is_closed, same_conflict, upsert_conflict, with_conflict, assess_sync_conflict, visit_of,
  recorded, detect_conflict,
}

abbrev is_completed : String → Bool
is_completed state = state == "LOCAL_COMPLETED" || state == "CENTRAL_COMPLETED"

or_cases : (a b : Bool) → a || b ≡ true → (a ≡ true) ⊎ (b ≡ true)
or_cases a b h = ground arith

or_right : (a b : Bool) → b ≡ true → a || b ≡ true
or_right a b h = ground arith

and_left : (a b : Bool) → a && b ≡ true → a ≡ true
and_left a b h = ground arith

and_right : (a b : Bool) → a && b ≡ true → b ≡ true
and_right a b h = ground arith

is_some-eq-none {ℓ} : {A : Type ℓ} (o : Option A) → is_some o ≡ false → o ≡ none
is_some-eq-none none h = refl
is_some-eq-none (some a) h = absurd (cc)

same_conflict_refl : (c : SyncConflict) → same_conflict c c ≡ true
same_conflict_refl c = rw (eq_refl c.gateway_id, eq_refl c.event_id) refl

replaced-Mem :
    (c : SyncConflict) (rows : List SyncConflict)
    → any (same_conflict c) rows ≡ true
    → Memᴰ c (map (λ (row : SyncConflict). if same_conflict c row then c else row) rows)
unfolding any
replaced-Mem c [] h = absurd (cc)
replaced-Mem c (row ∷ rows) h = elim (Bool-cases (same_conflict c row)) [
  | inl t ↦ rw t (Memᴰ.head refl)
  | inr f ↦ Memᴰ.tail (replaced-Mem c rows (rw f at h))
]

appended-Mem : (c : SyncConflict) (rows : List SyncConflict) → Memᴰ c (rows ++ c ∷ [])
appended-Mem c [] = Memᴰ.head refl
appended-Mem c (row ∷ rows) = Memᴰ.tail (appended-Mem c rows)

-- What the code takes for a contradiction.
recorded_iff {ℓ} :
    {C : Type ℓ} (gateway : Gateway) (e : Envelope) (db : Db C) (state transaction : String)
    (status : TransactionStatus)
    → is_some (recorded gateway e db state transaction status (assess_sync_conflict state status))
      ≡ is_completed state && is_closed status
unfolding assess_sync_conflict includes TransactionStatus-discrete
recorded_iff gateway e db state transaction arrived = ground arith
recorded_iff gateway e db state transaction identified = ground arith
recorded_iff gateway e db state transaction document_pending = ground arith
recorded_iff gateway e db state transaction document_verified = ground arith
recorded_iff gateway e db state transaction material_classified = ground arith
recorded_iff gateway e db state transaction first_weighment = ground arith
recorded_iff gateway e db state transaction pending_approval = ground arith
recorded_iff gateway e db state transaction approved = ground arith
recorded_iff gateway e db state transaction unloading = ground arith
recorded_iff gateway e db state transaction unloaded = ground arith
recorded_iff gateway e db state transaction second_weighment = ground arith
recorded_iff gateway e db state transaction completed = ground arith
recorded_iff gateway e db state transaction on_hold = ground arith
recorded_iff gateway e db state transaction rejected = ground arith
recorded_iff gateway e db state transaction cancelled = ground arith
recorded_iff gateway e db state transaction exception = ground arith

recorded-eq-none {ℓ} :
    {C : Type ℓ} (gateway : Gateway) (e : Envelope) (db : Db C) (state transaction : String)
    (status : TransactionStatus)
    → is_completed state && is_closed status ≡ false
    → recorded gateway e db state transaction status (assess_sync_conflict state status) ≡ none
recorded-eq-none gateway e db state transaction status h =
    is_some-eq-none _ (recorded_iff gateway e db state transaction status ∙ h)

-- The gateway has completed a visit whose transaction the server has given up.
abbrev pub Contradicts : String → TransactionStatus → Type 0
Contradicts state status =
    ((state ≡ "LOCAL_COMPLETED") ⊎ (state ≡ "CENTRAL_COMPLETED"))
    × ((status ≡ rejected) ⊎ (status ≡ cancelled) ⊎ (status ≡ exception))

is_completed_iff :
    (state : String)
    → (is_completed state ≡ true) ↔ ((state ≡ "LOCAL_COMPLETED") ⊎ (state ≡ "CENTRAL_COMPLETED"))
is_completed_iff state =
    let here = string_eq.test_iff state "LOCAL_COMPLETED" in
    let central = string_eq.test_iff state "CENTRAL_COMPLETED" in
    (
      λ h. elim (or_cases (state == "LOCAL_COMPLETED") (state == "CENTRAL_COMPLETED") h) [
        | inl l ↦ inl (here.0 l)
        | inr c ↦ inr (central.0 c)
      ],
      λ h. elim h [
        | inl l ↦ rw (here.1 l) refl
        | inr c ↦ or_right (state == "LOCAL_COMPLETED") (state == "CENTRAL_COMPLETED") (central.1 c)
      ],
    )

is_closed_iff :
    (status : TransactionStatus)
    → (is_closed status ≡ true)
      ↔ ((status ≡ rejected) ⊎ (status ≡ cancelled) ⊎ (status ≡ exception))
unfolding TransactionStatus-discrete
is_closed_iff status = ground arith

Contradicts-iff :
    (state : String) (status : TransactionStatus)
    → (is_completed state && is_closed status ≡ true) ↔ Contradicts state status
Contradicts-iff state status =
    let c = is_completed_iff state in
    let k = is_closed_iff status in
    (λ h. (c.0 (and_left _ _ h), k.0 (and_right _ _ h)), λ (x, y). rw (c.1 x, k.1 y) refl)

assess_closed :
    (state : String) (status : TransactionStatus)
    → is_completed state ≡ true
    → is_closed status ≡ true
    → assess_sync_conflict state status ≡ some (ConflictReason.completed_against status)
unfolding assess_sync_conflict includes TransactionStatus-discrete
assess_closed state status c k = rw c (ground (arith, k))

upsert_conflict-Mem :
    (c : SyncConflict) (rows : List SyncConflict) → Memᴰ c (upsert_conflict c rows)
unfolding upsert_conflict
upsert_conflict-Mem c rows = elim (Bool-cases (any (same_conflict c) rows)) [
  | inl t ↦ rw t (replaced-Mem c rows t)
  | inr f ↦ rw f (appended-Mem c rows)
]

-- the row of the conflict
abbrev pub conflict_row : Gateway → Envelope → String → TransactionStatus → SyncConflict
conflict_row gateway e state status = record {
  gateway_id = gateway.id;
  event_id = e.event_id;
  local_state = state;
  central_state = status;
  reason = ConflictReason.completed_against status;
}

-- For an event that tells the state of a visit whose transaction the server knows: where the visit
-- is completed on the gateway, or said to be completed on the server, and its transaction is
-- rejected, cancelled or in EXCEPTION, the conflict is a row of the table that is left, with both
-- states, and neither the processed events nor the rest of the database change; in every other
-- case no conflict is found.
pub detect_conflict_cases {ℓ} :
    {C : Type ℓ} (h : Handlers C) (gateway : Gateway) (e : Envelope) (local : Option String)
    (db : Db C) (state transaction : String) (status : TransactionStatus)
    → visit_of h e local db ≡ some (state, transaction, status)
    → (Contradicts state status
        × (left : Db C) × (detect_conflict h gateway e local db
            ≡ some (ConflictReason.completed_against status, transaction, left))
        × Memᴰ (conflict_row gateway e state status) left.conflicts
        × (left.ingested ≡ db.ingested)
        × (left.core ≡ db.core))
      ⊎ (¬ Contradicts state status × (detect_conflict h gateway e local db ≡ none))
unfolding detect_conflict
detect_conflict_cases h gateway e local db state transaction status visit =
    let iff = Contradicts-iff state status in
    elim (Bool-cases (is_completed state && is_closed status)) [
      | inl t ↦
          let closed = and_right (is_completed state) (is_closed status) t in
          let assessed_as =
            assess_closed state status (and_left (is_completed state) (is_closed status) t)
              closed in
          let row = conflict_row gateway e state status in
          inl (
            iff.0 t,
            with_conflict row db,
            rw (visit, assessed_as, closed) refl,
            upsert_conflict-Mem row db.conflicts,
            refl,
            refl,
          )
      | inr f ↦ inr (
        λ c. cc (f, iff.1 c),
        rw visit (recorded-eq-none gateway e db state transaction status f),
      )
    ]
