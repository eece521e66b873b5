-- ===== src/Edge/Sync/Closed.antt =====
-- A property of the store that its operations keep is kept by each part of a round.
use trinetra_systems.Common.{ℕ, List, [], ◌∷◌, Memᴰ, Option, none, some, String, ◌≡◌, refl}
use trinetra_systems.Edge.Events.{QueueStatus, QueuedEvent}
use trinetra_systems.Edge.Store.{
  LocalFile, LocalConflict, AuditAction, Store, update, list_by_status, mark_file_synced,
  add_conflict, write_audit, or_default,
}
use trinetra_systems.Edge.Sync.{
  SyncConfig, AckStatus, Ack, ClientError, Answer, as_pending, each, recover_orphaned_syncing,
  upload_files, as_syncing, mark_syncing, failed_patch, fail_event, synced_patch, waiting_patch,
  conflict_patch, apply_ack, last_ack, acknowledge, apply_acks, error_message, fail_all,
}

-- A patch that leaves the event which it is: its id, what was recorded, and its priority.
pub record KeepsIdentity (patch : QueuedEvent → QueuedEvent) : Type 0 where
  pub id : (e : QueuedEvent) → (patch e).event_id ≡ e.event_id
  pub payload : (e : QueuedEvent) → (patch e).payload ≡ e.payload
  pub priority : (e : QueuedEvent) → (patch e).priority ≡ e.priority

pub as_pending-KeepsIdentity : KeepsIdentity as_pending
as_pending-KeepsIdentity = record { id = λ e. refl; payload = λ e. refl; priority = λ e. refl }

pub as_syncing-KeepsIdentity : (now : ℕ) → KeepsIdentity (as_syncing now)
as_syncing-KeepsIdentity now = record { id = λ e. refl; payload = λ e. refl; priority = λ e. refl }

pub failed_patch-KeepsIdentity :
    (config : SyncConfig) (now : ℕ) (event : QueuedEvent) (message : String)
    → KeepsIdentity (failed_patch config now event message)
failed_patch-KeepsIdentity config now event message = record {
  id = λ e. refl;
  payload = λ e. refl;
  priority = λ e. refl;
}

pub synced_patch-KeepsIdentity : (now : ℕ) → KeepsIdentity (synced_patch now)
synced_patch-KeepsIdentity now = record {
  id = λ e. refl;
  payload = λ e. refl;
  priority = λ e. refl;
}

pub waiting_patch-KeepsIdentity :
    (now : ℕ) (message : Option String) → KeepsIdentity (waiting_patch now message)
waiting_patch-KeepsIdentity now message = record {
  id = λ e. refl;
  payload = λ e. refl;
  priority = λ e. refl;
}

pub conflict_patch-KeepsIdentity :
    (message : Option String) → KeepsIdentity (conflict_patch message)
conflict_patch-KeepsIdentity message = record {
  id = λ e. refl;
  payload = λ e. refl;
  priority = λ e. refl;
}

-- `P` survives each operation of the store, where an update is of an event whose id is `Free`.
pub record IsClosed {ℓ κ} (Free : String → Type ℓ) (P : Store → Type κ) : Type (ℓ ⊔ κ) where
  pub updates :
      (id : String) (patch : QueuedEvent → QueuedEvent) (s : Store)
      → Free id
      → KeepsIdentity patch
      → P s
      → P (update id patch s)
  pub files : (id : String) (s : Store) → P s → P (mark_file_synced id s)
  pub conflicts : (c : LocalConflict) (s : Store) → P s → P (add_conflict c s)
  pub audits : (action : AuditAction) (id : String) (s : Store) → P s → P (write_audit action id s)

abbrev pub AllFree {ℓ} : (String → Type ℓ) → List QueuedEvent → Type ℓ
AllFree Free events = (e : QueuedEvent) → Memᴰ e events → Free e.event_id

module _ {ℓ κ} {Free : String → Type ℓ} {P : Store → Type κ} (c : IsClosed Free P) where
  each_closed :
      (f : QueuedEvent → Store → Store)
      → ((e : QueuedEvent) (s : Store) → Free e.event_id → P s → P (f e s))
      → (events : List QueuedEvent) (s : Store) → AllFree Free events
      → P s
      → P (each f events s)
  each_closed f step [] s free p = p
  each_closed f step (e ∷ es) s free p =
      each_closed f step es (f e s) (λ x m. free x (Memᴰ.tail m))
        (step e s (free e (Memᴰ.head refl)) p)

  pub recover_closed :
      (s : Store)
      → AllFree Free (list_by_status QueueStatus.syncing s)
      → P s
      → P (recover_orphaned_syncing s)
  unfolding recover_orphaned_syncing
  recover_closed s free p =
      each_closed _ (λ e t f q. c.updates e.event_id as_pending t f as_pending-KeepsIdentity q)
        (list_by_status QueueStatus.syncing s) s free p

  pub upload_closed :
      (upload : LocalFile → Answer (Unit {0})) (files : List LocalFile) (s : Store)
      → P s
      → P (upload_files upload files s).0
  unfolding upload_files
  upload_closed upload [] s p = p
  upload_closed upload (f ∷ fs) s p =
      elim (upload f)
        as (λ a.
          P
            (let r : Store × Option ClientError = elim a [
              | Answer.answered done ↦ upload_files upload fs (mark_file_synced f.file_id s)
              | Answer.refused (ClientError.auth_failed m) ↦ (s, some (ClientError.auth_failed m))
              | Answer.refused (ClientError.unavailable m) ↦ (s, some (ClientError.unavailable m))
              | Answer.refused (ClientError.other_error m) ↦ upload_files upload fs s
            ] in
              r).0) [
                | Answer.answered done ↦
                    upload_closed upload fs (mark_file_synced f.file_id s) (c.files f.file_id s p)
                | Answer.refused (ClientError.auth_failed m) ↦ p
                | Answer.refused (ClientError.unavailable m) ↦ p
                | Answer.refused (ClientError.other_error m) ↦ upload_closed upload fs s p
              ]

  pub mark_closed :
      (now : ℕ) (batch : List QueuedEvent) (s : Store)
      → AllFree Free batch
      → P s
      → P (mark_syncing now batch s)
  unfolding mark_syncing
  mark_closed now batch s free p =
      each_closed _
        (λ e t f q. c.updates e.event_id (as_syncing now) t f (as_syncing-KeepsIdentity now) q)
        batch s free p

  fail_event_closed :
      (config : SyncConfig) (now : ℕ) (event : QueuedEvent) (message : String) (s : Store)
      → Free event.event_id
      → P s
      → P (fail_event config now event message s)
  unfolding fail_event
  fail_event_closed config now event message s free p =
      let patch = failed_patch config now event message in
      c.audits _ _ _ (
        c.updates event.event_id patch s free (failed_patch-KeepsIdentity config now event message)
          p)

  apply_ack_closed :
      (config : SyncConfig) (now : ℕ) (event : QueuedEvent) (ack : Ack) (status : AckStatus)
      (s : Store)
      → Free event.event_id
      → P s
      → P (apply_ack config now event ack status s)
  unfolding apply_ack
  apply_ack_closed config now event ack AckStatus.accepted s free p =
      c.audits _ _ _
        (c.updates event.event_id (synced_patch now) s free (synced_patch-KeepsIdentity now) p)
  apply_ack_closed config now event ack AckStatus.already_processed s free p =
      c.audits _ _ _
        (c.updates event.event_id (synced_patch now) s free (synced_patch-KeepsIdentity now) p)
  apply_ack_closed config now event ack AckStatus.dependency_pending s free p =
      c.updates event.event_id (waiting_patch now ack.message) s free
        (waiting_patch-KeepsIdentity now ack.message) p
  apply_ack_closed config now event ack AckStatus.conflict s free p = c.audits _ _ _ (
      c.conflicts _ _ (
        c.updates event.event_id (conflict_patch ack.message) s free
          (conflict_patch-KeepsIdentity ack.message) p))
  apply_ack_closed config now event ack AckStatus.rejected s free p =
      fail_event_closed config now event (or_default ack.message "Event rejected") s free p

  acknowledge_closed :
      (config : SyncConfig) (now : ℕ) (acks : List Ack) (event : QueuedEvent) (s : Store)
      → Free event.event_id
      → P s
      → P (acknowledge config now acks event s)
  unfolding acknowledge
  acknowledge_closed config now acks event s free p =
      elim (last_ack event.event_id acks)
        as (λ o. P (elim o [
          | none ↦ fail_event config now event "Sync acknowledgement missing" s
          | some ack ↦ apply_ack config now event ack ack.status s
        ])) [
          | none ↦ fail_event_closed config now event "Sync acknowledgement missing" s free p
          | some ack ↦ apply_ack_closed config now event ack ack.status s free p
        ]

  pub apply_acks_closed :
      (config : SyncConfig) (now : ℕ) (acks : List Ack) (batch : List QueuedEvent) (s : Store)
      → AllFree Free batch
      → P s
      → P (apply_acks config now acks batch s)
  unfolding apply_acks
  apply_acks_closed config now acks = each_closed _ (acknowledge_closed config now acks)

  pub fail_all_closed :
      (config : SyncConfig) (now : ℕ) (error : ClientError) (batch : List QueuedEvent) (s : Store)
      → AllFree Free batch
      → P s
      → P (fail_all config now error batch s)
  unfolding fail_all
  fail_all_closed config now error =
      each_closed _ (λ e s. fail_event_closed config now e (error_message error) s)
