-- ===== src/Intake/Batch/Dependencies.antt =====
-- The prerequisites of an event.
use trinetra_systems.Common.{
  ℕ, filter-eq-nil, includes, string_eq, ◌==◌, Bool, Bool-cases, true, false, List, [], ◌∷◌, Memᴰ,
  Option, none, some, String, ◌≡◌, ◌⊎◌, refl, ◌∙◌, inl, inr, arith, if◌then◌else◌,
}
use trinetra_systems.Intake.{
  Envelope, RawEnvelope, unreadable, readable, BatchItem, Gateway, Db, Attempt, done, threw,
  Handlers,
}
use trinetra_systems.Intake.Window.{max_sync_event_age_ms, envelope_error}
use trinetra_systems.Intake.Answers.{SyncAck, is_successful_ack}
use trinetra_systems.Intake.Batch.{
  State, is_processed, try_item, conclude, missing, take_item, in_window, parsed, ingest_item,
  ingest_items,
}
use trinetra_systems.Intake.Batch.Acks.{Names, try_item-Names}

abbrev pub IsSuccess : SyncAck → Type 0
IsSuccess a = is_successful_ack a.status ≡ true

-- An acknowledgement of the batch that took the event.
abbrev pub TookIn : List SyncAck → String → Type 0
TookIn acks id = (a : SyncAck) × Memᴰ a acks × (a.event_id ≡ id) × IsSuccess a

TookIn-tail :
    (a : SyncAck) (acks : List SyncAck) (id : String) → TookIn acks id → TookIn (a ∷ acks) id
TookIn-tail a acks id (b, m, same, success) = (b, Memᴰ.tail m, same, success)

added_cases :
    (x : String) (known : List String) (id : String) (success : Bool)
    → includes (if success then x ∷ known else known) id ≡ true
    → (includes known id ≡ true) ⊎ ((x ≡ id) × (success ≡ true))
unfolding includes
added_cases x known id true m = elim (Bool-cases (x == id)) [
  | inl t ↦ inr ((string_eq.test_iff x id).0 t, refl)
  | inr f ↦ inl (ground (arith, f, m))
]
added_cases x known id false m = inl m

module _ {ℓ} {C : Type ℓ} (h : Handlers C) (gateway : Gateway) (now : ℕ) where
  -- what a step adds to the set of accepted ids
  abbrev Adds : List String → State C × SyncAck → Type 0
  Adds known (s, a) =
      (id : String)
      → includes s.accepted_ids id ≡ true
      → (includes known id ≡ true) ⊎ ((a.event_id ≡ id) × IsSuccess a)

  conclude-Adds :
      (e : Envelope) (known : List String) (left : Db C × Attempt SyncAck)
      → Names e.event_id left.1
      → Adds known (conclude e known left)
  conclude-Adds e known (db, done a) n id m =
      elim (added_cases e.event_id known id (is_successful_ack a.status) m) [
        | inl before ↦ inl before
        | inr (same, success) ↦ inr (n ∙ same, success)
      ]
  conclude-Adds e known (db, threw f) n id m = inl m

  take_item-Adds :
      (item : BatchItem) (e : Envelope) (ids : List String) (s : State C)
      → Adds s.accepted_ids (take_item h gateway now item e ids s)
  take_item-Adds item e [] s id m =
      conclude-Adds e s.accepted_ids (try_item h gateway now item e s.db)
        (try_item-Names h gateway now item e s.db) id m
  take_item-Adds item e (id ∷ ids) s id' m = inl m

  in_window-Adds :
      (item : BatchItem) (e : Envelope) (s : State C) (o : Option String)
      → Adds s.accepted_ids (in_window h gateway now item e s o)
  in_window-Adds item e s (some message) id m = inl m
  in_window-Adds item e s none id m =
      take_item-Adds item e (missing gateway item.depends_on s) s id m

  parsed-Adds :
      (item : BatchItem) (s : State C) (raw : RawEnvelope)
      → Adds s.accepted_ids (parsed h gateway now item s raw)
  parsed-Adds item s (unreadable id message) id' m = inl m
  parsed-Adds item s (readable e) id m =
      in_window-Adds item e s (envelope_error now max_sync_event_age_ms e) id m

  ingest_items-TookIn :
      (items : List BatchItem) (s : State C) (id : String)
      → includes (ingest_items h gateway now items s).0.accepted_ids id ≡ true
      → (includes s.accepted_ids id ≡ true) ⊎ TookIn (ingest_items h gateway now items s).1 id
  unfolding ingest_items ingest_item
  ingest_items-TookIn [] s id m = inl m
  ingest_items-TookIn (item ∷ items) s id m =
      elim (ingest_items-TookIn items (ingest_item h gateway now item s).0 id m) [
        | inr t ↦ inr (TookIn-tail _ _ id t)
        | inl n ↦ elim (parsed-Adds item s item.envelope id n) [
          | inl before ↦ inl before
          | inr (same, success) ↦ inr (_, Memᴰ.head refl, same, success)
        ]
      ]

  -- a success needs that nothing is missing
  take_item-ready :
      (item : BatchItem) (e : Envelope) (ids : List String) (s : State C)
      → IsSuccess (take_item h gateway now item e ids s).1
      → ids ≡ []
  take_item-ready item e [] s success = refl
  take_item-ready item e (id ∷ ids) s success = cc

  in_window-ready :
      (item : BatchItem) (e : Envelope) (s : State C) (o : Option String)
      → IsSuccess (in_window h gateway now item e s o).1
      → missing gateway item.depends_on s ≡ []
  in_window-ready item e s (some message) success = cc
  in_window-ready item e s none success =
      take_item-ready item e (missing gateway item.depends_on s) s success

  parsed-ready :
      (item : BatchItem) (s : State C) (raw : RawEnvelope)
      → IsSuccess (parsed h gateway now item s raw).1
      → missing gateway item.depends_on s ≡ []
  parsed-ready item s (unreadable id message) success = cc
  parsed-ready item s (readable e) success = in_window-ready item e s _ success

  missing-eq-nil :
      (ids : List String) (s : State C) (id : String)
      → missing gateway ids s ≡ []
      → Memᴰ id ids
      → (includes s.accepted_ids id ≡ true) ⊎ (is_processed gateway s.db id ≡ true)
  unfolding missing
  missing-eq-nil ids s id none_missing m =
      let met = filter-eq-nil _ ids none_missing id m in ground (arith, met)

-- An event is taken only when each of its prerequisites was taken earlier in the batch, or had
-- been processed for the gateway.
pub ingest_item-dependencies {ℓ} :
    {C : Type ℓ} (h : Handlers C) (gateway : Gateway) (now : ℕ) (before : List BatchItem)
    (item : BatchItem) (db : Db C) (id : String)
    → let left = ingest_items h gateway now before (record { db = db; accepted_ids = [] }) in
      IsSuccess (ingest_item h gateway now item left.0).1
      → Memᴰ id item.depends_on
      → TookIn left.1 id ⊎ (is_processed gateway left.0.db id ≡ true)
unfolding includes ingest_item
ingest_item-dependencies h gateway now before item db id success m =
    let left = ingest_items h gateway now before (record { db = db; accepted_ids = [] }) in
    elim (missing-eq-nil h gateway now item.depends_on left.0 id
      (parsed-ready h gateway now item left.0 item.envelope success) m) [
        | inr done_before ↦ inr done_before
        | inl known ↦ elim (ingest_items-TookIn h gateway now before _ id known) [
          | inl none_yet ↦ absurd (cc none_yet)
          | inr t ↦ inl t
        ]
      ]
