-- ===== src/Edge/Sync/Syncing.antt =====
-- No event is left in the middle of a synchronization.
use trinetra_systems.Common.{
  ℕ, filter, filter-Mem, Mem-filter, Bool, Bool-cases, true, false, not, ◌||◌, List, [], ◌∷◌,
  map-Mem, Memᴰ, Option-cases, String, string_eq, includes, Mem→includes, eq_comm, ◌==◌, ◌≡◌, ◌≢◌,
  ◌⊎◌, inl, inr, refl, sym, ap, ◌∙◌, ◌+◌, arith, if◌then◌else◌,
}
use trinetra_systems.Edge.Events.{
  QueueStatus, QueueStatus-discrete, queue_status_eq, QueuedEvent, should_retry,
}
use trinetra_systems.Edge.Store.{
  Store, LocalFile, LocalConflict, AuditAction, event_ids, prune, list_by_status, update_first,
  update, mark_file_synced, add_conflict, write_audit, or_default,
}
use trinetra_systems.Edge.Store.Sound.{IsSound, IsSound-closed, Distinct}
use trinetra_systems.Edge.Sync.{
  SyncConfig, Backend, Loop, Ack, AckStatus, Answer, ClientError, as_pending, as_syncing, each,
  recover_orphaned_syncing, upload_files, mark_syncing, failed_patch, fail_event, synced_patch,
  waiting_patch, conflict_patch, apply_ack, last_ack, acknowledge, apply_acks, fail_all,
  error_message, tick,
}
use trinetra_systems.Edge.Sync.Closed.{
  KeepsIdentity, as_pending-KeepsIdentity, as_syncing-KeepsIdentity, failed_patch-KeepsIdentity,
  synced_patch-KeepsIdentity, waiting_patch-KeepsIdentity, conflict_patch-KeepsIdentity,
}
use trinetra_systems.Edge.Sync.Round.{Answer-cases, Sent, uploads, tick-Sent}

-- Every event that is being synchronized has one of the ids.
abbrev Within : List String → Store → Type 0
Within ids s =
    (e : QueuedEvent)
    → Memᴰ e s.events
    → e.status ≡ QueueStatus.syncing
    → includes ids e.event_id ≡ true

abbrev SoundWithin : List String → Store → Type 0
SoundWithin ids s = IsSound s × Within ids s

prune-Within : (ids : List String) (s : Store) → Within ids s → Within ids (prune s)
unfolding prune
prune-Within ids s w e m = w e (filter-Mem _ s.events e m).0

-- An event of the patched list is the patched one, or another one.
update_first-Mem :
    (id : String) (patch : QueuedEvent → QueuedEvent) (es : List QueuedEvent) (e : QueuedEvent)
    → Distinct (event_ids es)
    → Memᴰ e (update_first id patch es)
    → ((x : QueuedEvent) × (e ≡ patch x) × (x.event_id ≡ id))
      ⊎ (Memᴰ e es × ((id == e.event_id) ≡ false))
unfolding update_first
update_first-Mem id patch [] e d m = elim m [ ]
update_first-Mem id patch (x ∷ es) e (fresh, d) m = elim (Bool-cases (x.event_id == id)) [
  | inl t ↦ elim (rw t at m) [
    | Memᴰ.head same ↦ inl (x, same, (string_eq.test_iff x.event_id id).0 t)
    | Memᴰ.tail n ↦ inr (Memᴰ.tail n, later n t)
  ]
  | inr f ↦ elim (rw f at m) [
    | Memᴰ.head same ↦ inr (
      Memᴰ.head same,
      eq_comm id e.event_id ∙ ap (λ (y : QueuedEvent). y.event_id == id) same ∙ f,
    )
    | Memᴰ.tail n ↦ elim (update_first-Mem id patch es e d n) [
      | inl p ↦ inl p
      | inr (k, g) ↦ inr (Memᴰ.tail k, g)
    ]
  ]
]
  where
    later : Memᴰ e es → (x.event_id == id) ≡ true → (id == e.event_id) ≡ false
    later n t = elim (Bool-cases (id == e.event_id)) [
      | inr f ↦ f
      | inl u ↦ absurd (
          cc (
            fresh,
            Mem→includes (event_ids es) e.event_id
                (map-Mem (λ (y : QueuedEvent). y.event_id) es e n),
            (string_eq.test_iff x.event_id id).0 t,
            (string_eq.test_iff id e.event_id).0 u,
          ))
    ]

-- A patch that ends the synchronization of an event takes its id off the list.
update-Within :
    (id : String) (patch : QueuedEvent → QueuedEvent) (ids : List String) (s : Store)
    → ((e : QueuedEvent) → (patch e).status ≢ QueueStatus.syncing)
    → IsSound s
    → Within (id ∷ ids) s
    → Within ids (update id patch s)
unfolding update includes
update-Within id patch ids s ends v w = prune-Within ids _ λ e m syncing.
    elim (update_first-Mem id patch s.events e v.events m) [
      | inl (x, same, _) ↦ absurd (ends x (sym (ap (λ (y : QueuedEvent). y.status) same) ∙ syncing))
      | inr (n, other) ↦
          let listed : (id == e.event_id) || includes ids e.event_id ≡ true = w e n syncing in
          rw other at listed
    ]

begin-Within :
    (id : String) (patch : QueuedEvent → QueuedEvent) (ids : List String) (s : Store)
    → ((e : QueuedEvent) → (patch e).event_id ≡ e.event_id)
    → includes ids id ≡ true
    → IsSound s
    → Within ids s
    → Within ids (update id patch s)
unfolding update
begin-Within id patch ids s k listed v w = prune-Within ids _ λ e m syncing.
    elim (update_first-Mem id patch s.events e v.events m) [
      | inl (x, same, named) ↦
          let own : e.event_id ≡ id = ap (λ (y : QueuedEvent). y.event_id) same ∙ k x ∙ named in
          ap (includes ids) own ∙ listed
      | inr (n, _) ↦ w e n syncing
    ]

abbrev Ends : (QueuedEvent → Store → Store) → Type 0
Ends f =
    (e : QueuedEvent) (ids : List String) (s : Store)
    → SoundWithin (e.event_id ∷ ids) s
    → SoundWithin ids (f e s)

each-Ends :
    (f : QueuedEvent → Store → Store)
    → Ends f
    → (events : List QueuedEvent) (s : Store) → SoundWithin (event_ids events) s
    → SoundWithin [] (each f events s)
each-Ends f ends [] s p = p
each-Ends f ends (e ∷ es) s p = each-Ends f ends es (f e s) (ends e (event_ids es) s p)

update_ends :
    (id : String) (patch : QueuedEvent → QueuedEvent) (ids : List String) (s : Store)
    → KeepsIdentity patch
    → ((e : QueuedEvent) → (patch e).status ≢ QueueStatus.syncing)
    → SoundWithin (id ∷ ids) s
    → SoundWithin ids (update id patch s)
update_ends id patch ids s k ends (v, w) =
    (IsSound-closed.updates id patch s tt k v, update-Within id patch ids s ends v w)

audit_keeps :
    (action : AuditAction) (id : String) (ids : List String) (s : Store)
    → SoundWithin ids s
    → SoundWithin ids (write_audit action id s)
unfolding write_audit
audit_keeps action id ids s (v, w) = (IsSound-closed.audits action id s v, prune-Within ids _ w)

file_keeps :
    (id : String) (ids : List String) (s : Store)
    → SoundWithin ids s
    → SoundWithin ids (mark_file_synced id s)
unfolding mark_file_synced
file_keeps id ids s (v, w) = (IsSound-closed.files id s v, prune-Within ids _ w)

either_Within :
    (known : Bool) (ids : List String) (s s' : Store)
    → Within ids s
    → Within ids s'
    → Within ids (if known then s else s')
either_Within true ids s s' w w' = w
either_Within false ids s s' w w' = w'

conflict_keeps :
    (c : LocalConflict) (ids : List String) (s : Store)
    → SoundWithin ids s
    → SoundWithin ids (add_conflict c s)
unfolding add_conflict
conflict_keeps c ids s (v, w) =
    (IsSound-closed.conflicts c s v, prune-Within ids _ (either_Within _ ids s _ w w))

recover-Ends : Ends (λ (e : QueuedEvent). update e.event_id as_pending)
recover-Ends e ids s = update_ends e.event_id as_pending ids s as_pending-KeepsIdentity (λ e h. cc)

failed_status :
    (dead : Bool)
    → (if dead then QueueStatus.dead_letter else QueueStatus.failed) ≢ QueueStatus.syncing
failed_status true h = cc
failed_status false h = cc

fail_event-Ends :
    (config : SyncConfig) (now : ℕ) (message : String) → Ends (λ e. fail_event config now e message)
unfolding fail_event
fail_event-Ends config now message e ids s p = audit_keeps _ _ ids _ (
    update_ends e.event_id (failed_patch config now e message) ids s
      (failed_patch-KeepsIdentity config now e message)
      (λ x. failed_status (not (should_retry (e.retry_count + 1) config.max_retries))) p)

apply_ack-Ends :
    (config : SyncConfig) (now : ℕ) (ack : Ack) (status : AckStatus)
    → Ends (λ e. apply_ack config now e ack status)
unfolding apply_ack
apply_ack-Ends config now ack AckStatus.accepted e ids s p =
    audit_keeps _ _ ids _ (
      update_ends e.event_id (synced_patch now) ids s (synced_patch-KeepsIdentity now) (λ e h. cc)
        p)
apply_ack-Ends config now ack AckStatus.already_processed e ids s p =
    audit_keeps _ _ ids _ (
      update_ends e.event_id (synced_patch now) ids s (synced_patch-KeepsIdentity now) (λ e h. cc)
        p)
apply_ack-Ends config now ack AckStatus.dependency_pending e ids s p =
    update_ends e.event_id (waiting_patch now ack.message) ids s
      (waiting_patch-KeepsIdentity now ack.message) (λ e h. cc) p
apply_ack-Ends config now ack AckStatus.conflict e ids s p = audit_keeps _ _ ids _ (
    conflict_keeps _ ids _ (
      update_ends e.event_id (conflict_patch ack.message) ids s
        (conflict_patch-KeepsIdentity ack.message) (λ e h. cc) p))
apply_ack-Ends config now ack AckStatus.rejected e ids s p =
    fail_event-Ends config now (or_default ack.message "Event rejected") e ids s p

acknowledge-Ends :
    (config : SyncConfig) (now : ℕ) (acks : List Ack) → Ends (acknowledge config now acks)
unfolding acknowledge
acknowledge-Ends config now acks e ids s p = elim (Option-cases (last_ack e.event_id acks)) [
  | inl h ↦
      rw (h, acknowledge) (fail_event-Ends config now "Sync acknowledgement missing" e ids s p)
  | inr (ack, h) ↦ rw (h, acknowledge) (apply_ack-Ends config now ack ack.status e ids s p)
]

recovered : (s : Store) → IsSound s → SoundWithin [] (recover_orphaned_syncing s)
unfolding recover_orphaned_syncing list_by_status QueueStatus-discrete
recovered s v = each-Ends _ recover-Ends (list_by_status QueueStatus.syncing s) s (
  v,
  λ e m syncing.
      let listed : Memᴰ e (filter (λ (x : QueuedEvent). x.status == QueueStatus.syncing) s.events) =
        Mem-filter _ s.events e m (ground arith) in
      Mem→includes _ e.event_id (map-Mem (λ (x : QueuedEvent). x.event_id) _ e listed),
)

uploaded :
    (upload : LocalFile → Answer (Unit {0})) (files : List LocalFile) (s : Store)
    → SoundWithin [] s
    → SoundWithin [] (upload_files upload files s).0
unfolding upload_files
uploaded upload [] s p = p
uploaded upload (f ∷ fs) s p = elim (Answer-cases (upload f)) [
  | inl (done, h) ↦
      rw (h, upload_files)
        (uploaded upload fs (mark_file_synced f.file_id s) (file_keeps f.file_id [] s p))
  | inr (ClientError.auth_failed m, h) ↦ rw (h, upload_files) p
  | inr (ClientError.unavailable m, h) ↦ rw (h, upload_files) p
  | inr (ClientError.other_error m, h) ↦ rw (h, upload_files) (uploaded upload fs s p)
]

each_begins :
    (now : ℕ) (ids : List String) (batch : List QueuedEvent) (s : Store)
    → ((e : QueuedEvent) → Memᴰ e batch → includes ids e.event_id ≡ true)
    → SoundWithin ids s
    → SoundWithin ids (each (λ (e : QueuedEvent). update e.event_id (as_syncing now)) batch s)
each_begins now ids [] s listed p = p
each_begins now ids (e ∷ es) s listed (v, w) =
    each_begins now ids es (update e.event_id (as_syncing now) s) (λ x m. listed x (Memᴰ.tail m))
      (
        IsSound-closed.updates e.event_id (as_syncing now) s tt (as_syncing-KeepsIdentity now) v,
        begin-Within e.event_id (as_syncing now) ids s (λ x. refl) (listed e (Memᴰ.head refl)) v w,
      )

marked :
    (now : ℕ) (batch : List QueuedEvent) (s : Store)
    → SoundWithin [] s
    → SoundWithin (event_ids batch) (mark_syncing now batch s)
unfolding mark_syncing includes
marked now batch s (v, w) =
    each_begins now (event_ids batch) batch s
      (λ e m. Mem→includes _ e.event_id (map-Mem (λ (x : QueuedEvent). x.event_id) batch e m))
      (v, λ e m syncing. absurd (cc (w e m syncing)))

Sent-ends :
    (config : SyncConfig) (now : ℕ) (batch : List QueuedEvent) (s s' : Store)
    → SoundWithin [] s
    → Sent config now batch s s'
    → SoundWithin [] s'
unfolding apply_acks fail_all
Sent-ends config now batch s s' p (inl (acks, e)) =
    rw e (each-Ends _ (acknowledge-Ends config now acks) batch _ (marked now batch s p))
Sent-ends config now batch s s' p (inr (error, e)) =
    rw e (
      each-Ends _ (fail_event-Ends config now (error_message error)) batch _ (marked now batch s p))

-- From a sound store on, a round that is not skipped leaves no event in the status SYNCING,
-- whatever the backend answers and however the batch is chosen.
pub tick-status :
    (config : SyncConfig) (now : ℕ) (backend : Backend) (l : Loop)
    → IsSound l.store
    → l.paused ≡ false
    → l.syncing ≡ false
    → (e : QueuedEvent) → Memᴰ e (tick config now backend l).0.store.events
    → e.status ≢ QueueStatus.syncing
unfolding includes
tick-status config now backend l v running free e m syncing =
    let before : SoundWithin [] (uploads backend l) =
      uploaded backend.upload_file _ _ (recovered l.store v) in
    let after : SoundWithin [] (tick config now backend l).0.store =
      elim (tick-Sent config now backend l) [
        | inl (_, off) ↦ absurd (cc (rw (running, free) at off))
        | inr (inl left) ↦ rw left before
        | inr (inr sent) ↦ Sent-ends config now _ (uploads backend l) _ before sent
      ] in
    absurd (cc (after.1 e m syncing))
