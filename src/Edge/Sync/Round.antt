-- ===== src/Edge/Sync/Round.antt =====
-- What a round of the synchronization keeps.
use trinetra_systems.Common.{
  ℕ, take, Bool-cases, true, ◌||◌, List, [], ◌∷◌, Option, Option-cases, String, string_eq, ◌≡◌, ◌⊎◌,
  inl, inr, refl,
}
use trinetra_systems.Edge.Events.{QueueStatus, QueuedEvent}
use trinetra_systems.Edge.Store.{Store, list_by_status, list_pending_files}
use trinetra_systems.Edge.Store.Sound.{IsSound, IsSound-closed}
use trinetra_systems.Edge.Sync.{
  SyncConfig, Backend, Loop, ClientError, Answer, Ack, files_per_round, recover_orphaned_syncing,
  upload_files, mark_syncing, apply_acks, fail_all, check_health, send, dispatch, batch_of, round,
  tick, with_store, note_failure, succeed,
}
use trinetra_systems.Edge.Sync.Closed.{
  IsClosed, AllFree, recover_closed, upload_closed, mark_closed, apply_acks_closed, fail_all_closed,
}

-- the store when the files have been uploaded, and the error of that
abbrev pub uploaded_of : Backend → Store → Store × Option ClientError
uploaded_of backend s =
    upload_files backend.upload_file (take files_per_round (list_pending_files s)) s

pub Answer-cases {ℓ} :
    {A : Type ℓ} (a : Answer A)
    → ((x : A) × (a ≡ Answer.answered x)) ⊎ ((e : ClientError) × (a ≡ Answer.refused e))
Answer-cases (Answer.answered x) = inl (x, refl)
Answer-cases (Answer.refused e) = inr (e, refl)

-- The store that a sent batch leaves.
abbrev pub Sent : SyncConfig → ℕ → List QueuedEvent → Store → Store → Type 0
Sent config now batch s s' =
    ((acks : List Ack) × (s' ≡ apply_acks config now acks batch (mark_syncing now batch s)))
    ⊎ ((e : ClientError) × (s' ≡ fail_all config now e batch (mark_syncing now batch s)))

send-Sent :
    (config : SyncConfig) (now : ℕ) (backend : Backend) (batch : List QueuedEvent) (l : Loop)
    → Sent config now batch l.store (send config now backend batch l).0.store
unfolding send succeed note_failure
send-Sent config now backend batch l = elim (Answer-cases (backend.sync_batch batch)) [
  | inl (acks, e) ↦ inl (acks, rw (e, send) refl)
  | inr (error, e) ↦ inr (error, rw (e, send) refl)
]

check_health-store :
    (config : SyncConfig) (now : ℕ) (backend : Backend) (l : Loop)
    → (check_health config now backend l).0.store ≡ l.store
unfolding check_health note_failure
check_health-store config now backend l = elim (Answer-cases backend.health) [
  | inl (done, e) ↦ rw e refl
  | inr (error, e) ↦ rw e refl
]

dispatch-Sent :
    (config : SyncConfig) (now : ℕ) (backend : Backend) (batch : List QueuedEvent) (l : Loop)
    → ((dispatch config now backend batch l).0.store ≡ l.store)
      ⊎ Sent config now batch l.store (dispatch config now backend batch l).0.store
dispatch-Sent config now backend [] l = inl (check_health-store config now backend l)
dispatch-Sent config now backend (e ∷ es) l = inr (send-Sent config now backend (e ∷ es) l)

-- A round that is not skipped leaves the store of the uploads, or what sending a batch makes of it.
abbrev pub uploads : Backend → Loop → Store
uploads backend l = (uploaded_of backend (recover_orphaned_syncing l.store)).0

round-Sent :
    (config : SyncConfig) (now : ℕ) (backend : Backend) (l : Loop)
    → ((round config now backend l).0.store ≡ uploads backend l)
      ⊎ Sent config now
          (batch_of config now backend (uploads backend l))
          (uploads backend l)
          (round config now backend l).0.store
unfolding round
round-Sent config now backend l =
    let (s, error) = uploaded_of backend (recover_orphaned_syncing l.store) in
    elim (Option-cases error) [
      | inl e ↦
          rw (e, round)
            (dispatch-Sent config now backend (batch_of config now backend s) (with_store s l))
      | inr (x, e) ↦ inl (rw (e, round) refl)
    ]

pub tick-Sent :
    (config : SyncConfig) (now : ℕ) (backend : Backend) (l : Loop)
    → (((tick config now backend l).0 ≡ l) × (l.paused || l.syncing ≡ true))
      ⊎ (((tick config now backend l).0.store ≡ uploads backend l)
          ⊎ Sent config now
              (batch_of config now backend (uploads backend l))
              (uploads backend l)
              (tick config now backend l).0.store)
unfolding tick
tick-Sent config now backend l = elim (Bool-cases (l.paused || l.syncing)) [
  | inl off ↦ inl (rw (off, tick) (refl, refl))
  | inr on ↦ inr (rw (on, tick) (round-Sent config now backend l))
]

module _ {ℓ κ} {Free : String → Type ℓ} {P : Store → Type κ} (c : IsClosed Free P) where
  pub uploads_closed :
      (backend : Backend) (l : Loop)
      → AllFree Free (list_by_status QueueStatus.syncing l.store)
      → P l.store
      → P (uploads backend l)
  uploads_closed backend l free p =
      upload_closed c backend.upload_file _ _ (recover_closed c l.store free p)

  Sent_closed :
      (config : SyncConfig) (now : ℕ) (batch : List QueuedEvent) (s s' : Store)
      → AllFree Free batch
      → P s
      → Sent config now batch s s'
      → P s'
  Sent_closed config now batch s s' free p (inl (acks, e)) =
      rw e (apply_acks_closed c config now acks batch _ free (mark_closed c now batch s free p))
  Sent_closed config now batch s s' free p (inr (error, e)) =
      rw e (fail_all_closed c config now error batch _ free (mark_closed c now batch s free p))

  pub tick_closed :
      (config : SyncConfig) (now : ℕ) (backend : Backend) (l : Loop)
      → AllFree Free (list_by_status QueueStatus.syncing l.store)
      → AllFree Free (batch_of config now backend (uploads backend l))
      → P l.store
      → P (tick config now backend l).0.store
  tick_closed config now backend l free free' p = elim (tick-Sent config now backend l) [
    | inl (same, _) ↦ rw same p
    | inr (inl left) ↦ rw left (uploads_closed backend l free p)
    | inr (inr sent) ↦
        Sent_closed config now _ (uploads backend l) _ free' (uploads_closed backend l free p) sent
  ]

-- Whatever the backend answers, a round keeps the store sound.
pub tick-IsSound :
    (config : SyncConfig) (now : ℕ) (backend : Backend) (l : Loop)
    → IsSound l.store
    → IsSound (tick config now backend l).0.store
tick-IsSound config now backend l v =
    tick_closed IsSound-closed config now backend l (λ e m. tt) (λ e m. tt) v
