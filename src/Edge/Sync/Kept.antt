-- ===== src/Edge/Sync/Kept.antt =====
-- Which events a round keeps, and which it leaves as they are.
use trinetra_systems.Common.{
  ℕ, filter, any, Bool, Bool-cases, true, false, List, [], ◌∷◌, ◌++◌, Memᴰ, map-Mem, Mem-map,
  filter-Mem, Mem-filter, take-Mem, String, string_eq, includes, includes→Mem, Mem→includes, ◌==◌,
  ◌≡◌, ◌≢◌, ◌⊎◌, inl, inr, refl, sym, ap, ◌∙◌, arith, if◌then◌else◌,
}
use trinetra_systems.Edge.Events.{
  QueueStatus, EventPriority, EventPriority-discrete, QueueStatus-discrete, queue_status_eq,
  QueuedEvent,
}
use trinetra_systems.Edge.Store.{
  Store, LocalConflict, list_by_status, list_pending_for_sync, is_due, prune, pruned_ids,
  is_disposable, event_ids, update, update_first, mark_file_synced, add_conflict, write_audit,
}
use trinetra_systems.Edge.Store.Sound.{IsSound, IsSound-closed, Distinct, update_first-event_ids}
use trinetra_systems.Edge.Sync.{SyncConfig, Backend, Loop, tick}
use trinetra_systems.Edge.Sync.Closed.{KeepsIdentity, IsClosed, AllFree}
use trinetra_systems.Edge.Sync.Round.{uploads, uploads_closed, tick_closed}

-- The store has an event with the id, the payload and the priority of `e`.
abbrev pub Holds : QueuedEvent → Store → Type 0
Holds e s =
    (x : QueuedEvent) × Memᴰ x s.events
    × (x.event_id ≡ e.event_id)
    × (x.payload ≡ e.payload)
    × (x.priority ≡ e.priority)

Mem-update_first :
    (id : String) (patch : QueuedEvent → QueuedEvent) (es : List QueuedEvent) (e : QueuedEvent)
    → Memᴰ e es
    → Memᴰ e (update_first id patch es) ⊎ Memᴰ (patch e) (update_first id patch es)
unfolding update_first
Mem-update_first id patch [] e m = elim m [ ]
Mem-update_first id patch (x ∷ es) e (Memᴰ.head same) = elim (Bool-cases (x.event_id == id)) [
  | inl t ↦ inr (rw t (Memᴰ.head (ap patch same)))
  | inr f ↦ inl (rw f (Memᴰ.head same))
]
Mem-update_first id patch (x ∷ es) e (Memᴰ.tail m) = elim (Bool-cases (x.event_id == id)) [
  | inl t ↦ inl (rw t (Memᴰ.tail m))
  | inr f ↦ elim (Mem-update_first id patch es e m) [
    | inl n ↦ inl (rw f (Memᴰ.tail n))
    | inr n ↦ inr (rw f (Memᴰ.tail n))
  ]
]

Mem-event_ids :
    (es : List QueuedEvent) (e : QueuedEvent)
    → Memᴰ e es
    → includes (event_ids es) e.event_id ≡ true
Mem-event_ids es e m =
    Mem→includes (event_ids es) e.event_id (map-Mem (λ (x : QueuedEvent). x.event_id) es e m)

-- Distinct ids name events.
pub Distinct-unique :
    (es : List QueuedEvent) (a b : QueuedEvent)
    → Distinct (event_ids es)
    → Memᴰ a es
    → Memᴰ b es
    → a.event_id ≡ b.event_id
    → a ≡ b
Distinct-unique [] a b d m n h = elim m [ ]
Distinct-unique (x ∷ es) a b d (Memᴰ.head p) (Memᴰ.head q) h = p ∙ sym q
Distinct-unique (x ∷ es) a b (fresh, d) (Memᴰ.head p) (Memᴰ.tail n) h =
    absurd (cc (fresh, Mem-event_ids es b n, ap (λ (e : QueuedEvent). e.event_id) p))
Distinct-unique (x ∷ es) a b (fresh, d) (Memᴰ.tail m) (Memᴰ.head q) h =
    absurd (cc (fresh, Mem-event_ids es a m, ap (λ (e : QueuedEvent). e.event_id) q))
Distinct-unique (x ∷ es) a b (fresh, d) (Memᴰ.tail m) (Memᴰ.tail n) h =
    Distinct-unique es a b d m n h

-- Pruning takes only synced events of low priority.
prune-Mem :
    (s : Store) (e : QueuedEvent)
    → Distinct (event_ids s.events)
    → Memᴰ e s.events
    → is_disposable e ≡ false
    → Memᴰ e (prune s).events
unfolding prune pruned_ids
prune-Mem s e d m h = elim (Bool-cases (includes (pruned_ids s.events) e.event_id)) [
  | inr f ↦ Mem-filter _ s.events e m (rw f refl)
  | inl t ↦
      let old = filter is_disposable s.events in
      let (x, at, same) =
        Mem-map (λ (x : QueuedEvent). x.event_id) _ e.event_id
          (includes→Mem (pruned_ids s.events) e.event_id t) in
      let (n, low) = filter-Mem is_disposable s.events x (take-Mem _ old x at) in
      let one : e ≡ x = Distinct-unique s.events e x d m n same in
      let low' : is_disposable e ≡ true = rw (← one) at low in absurd (cc)
]

not_disposable : (e : QueuedEvent) → e.priority ≢ EventPriority.low → is_disposable e ≡ false
unfolding EventPriority-discrete
not_disposable e h = elim (Bool-cases (is_disposable e)) [
  | inr f ↦ f
  | inl t ↦ absurd (h (ground arith))
]

abbrev KeptIn : QueuedEvent → Store → Type 0
KeptIn e s = IsSound s × Holds e s

-- What an operation does to the events, before it prunes them, decides whether it keeps one.
prune-Holds :
    (e : QueuedEvent) (s : Store)
    → e.priority ≢ EventPriority.low
    → Distinct (event_ids s.events)
    → Holds e s
    → Holds e (prune s)
prune-Holds e s low d (x, m, i, p, q) =
    (x, prune-Mem s x d m (not_disposable x (λ h. low (sym q ∙ h))), i, p, q)

update-Holds :
    (e : QueuedEvent) (id : String) (patch : QueuedEvent → QueuedEvent) (s : Store)
    → e.priority ≢ EventPriority.low
    → KeepsIdentity patch
    → IsSound s
    → Holds e s
    → Holds e (update id patch s)
unfolding update
update-Holds e id patch s low k v (x, m, i, p, q) =
    let patched = record s { events = update_first id patch s.events } in
    prune-Holds e patched low (rw (update_first-event_ids id patch s.events k.id) v.events)
      (elim (Mem-update_first id patch s.events x m) [
        | inl n ↦ (x, n, i, p, q)
        | inr n ↦ (patch x, n, k.id x ∙ i, k.payload x ∙ p, k.priority x ∙ q)
      ])

-- The operations that change no event.
Holds-of_events :
    (e : QueuedEvent) (s s' : Store)
    → e.priority ≢ EventPriority.low
    → IsSound s
    → s.events ≡ s'.events
    → Holds e s
    → Holds e (prune s')
Holds-of_events e s s' low v same (x, m, i, p, q) =
    prune-Holds e s' low (rw (← same) v.events) (x, rw (← same) m, i, p, q)

abbrev known_or : Bool → Store → Store → Store
known_or known s s' = if known then s else s'

known_or-events :
    (known : Bool) (s s' : Store) → s.events ≡ s'.events → s.events ≡ (known_or known s s').events
known_or-events true s s' e = refl
known_or-events false s s' e = e

abbrev is_known : LocalConflict → Store → Bool
is_known c s = any (λ (d : LocalConflict). d.event_id == c.event_id) s.conflicts

kept_closed :
    (e : QueuedEvent) → e.priority ≢ EventPriority.low → IsClosed (λ _. Unit {0}) (KeptIn e)
unfolding mark_file_synced write_audit add_conflict
kept_closed e low = record {
  updates = λ id patch s free k (v, h).
      (IsSound-closed.updates id patch s tt k v, update-Holds e id patch s low k v h);
  files = λ id s (v, h). (IsSound-closed.files id s v, Holds-of_events e s _ low v refl h);
  conflicts = λ c s (v, h). (
    IsSound-closed.conflicts c s v,
    Holds-of_events e s _ low v (known_or-events (is_known c s) s _ refl) h,
  );
  audits = λ action id s (v, h).
      (IsSound-closed.audits action id s v, Holds-of_events e s _ low v refl h);
}

-- A round never loses an event whose priority is not low: it stays with its id, its payload and
-- its priority, whatever the backend answers.
pub tick-Holds :
    (config : SyncConfig) (now : ℕ) (backend : Backend) (l : Loop) (e : QueuedEvent)
    → IsSound l.store
    → Memᴰ e l.store.events
    → e.priority ≢ EventPriority.low
    → Holds e (tick config now backend l).0.store
tick-Holds config now backend l e v m low =
    (tick_closed (kept_closed e low) config now backend l (λ x n. tt) (λ x n. tt)
      (v, (e, m, refl, refl, refl))).1

-- Updates of other ids leave an event as it is.
abbrev OtherThan : QueuedEvent → String → Type 0
OtherThan e id = id ≢ e.event_id

abbrev StaysIn : QueuedEvent → Store → Type 0
StaysIn e s = IsSound s × Memᴰ e s.events

update_first-other :
    (id : String) (patch : QueuedEvent → QueuedEvent) (es : List QueuedEvent) (e : QueuedEvent)
    → OtherThan e id
    → Memᴰ e es
    → Memᴰ e (update_first id patch es)
unfolding update_first
update_first-other id patch [] e n m = elim m [ ]
update_first-other id patch (x ∷ es) e n (Memᴰ.head same) = elim (Bool-cases (x.event_id == id)) [
  | inl t ↦ absurd (
      n (
        sym ((string_eq.test_iff x.event_id id).0 t)
        ∙ sym (ap (λ (e : QueuedEvent). e.event_id) same)))
  | inr f ↦ rw f (Memᴰ.head same)
]
update_first-other id patch (x ∷ es) e n (Memᴰ.tail m) = elim (Bool-cases (x.event_id == id)) [
  | inl t ↦ rw t (Memᴰ.tail m)
  | inr f ↦ rw f (Memᴰ.tail (update_first-other id patch es e n m))
]

stays_closed :
    (e : QueuedEvent) → e.priority ≢ EventPriority.low → IsClosed (OtherThan e) (StaysIn e)
unfolding update mark_file_synced write_audit add_conflict
stays_closed e low = record {
  updates = λ id patch s free k (v, m). (
    IsSound-closed.updates id patch s tt k v,
    prune-Mem (record s { events = update_first id patch s.events }) e
        (rw (update_first-event_ids id patch s.events k.id) v.events)
        (update_first-other id patch s.events e free m) (not_disposable e low),
  );
  files =
      λ id s (v, m). (IsSound-closed.files id s v, prune-Mem _ e v.events m (not_disposable e low));
  conflicts = λ c s (v, m).
      let with_c = record s { conflicts = s.conflicts ++ c ∷ [] } in
      let same = known_or-events (is_known c s) s with_c refl in
      (
        IsSound-closed.conflicts c s v,
        prune-Mem _ e (rw (← same) v.events) (rw (← same) m) (not_disposable e low),
      );
  audits = λ action id s (v, m).
      (IsSound-closed.audits action id s v, prune-Mem _ e v.events m (not_disposable e low));
}

-- A settled event is neither sent nor recovered.
abbrev pub IsSettled : QueuedEvent → Type 0
IsSettled e = (e.status ≡ QueueStatus.synced) ⊎ (e.status ≡ QueueStatus.dead_letter)

-- The order gives events that it was given.
abbrev pub SortsOwn : Backend → Type 0
SortsOwn backend =
    (events : List QueuedEvent) (e : QueuedEvent) → Memᴰ e (backend.sort events) → Memᴰ e events

other_of_status :
    (s : Store) (e x : QueuedEvent) (test : QueuedEvent → Bool)
    → IsSound s
    → Memᴰ e s.events
    → Memᴰ x s.events
    → test x ≡ true
    → test e ≡ false
    → OtherThan e x.event_id
other_of_status s e x test v m n t f same =
    absurd (cc (t, f, ap test (Distinct-unique s.events x e v.events n m same)))

-- In a sound store an event that is synced or dead, and not of low priority, stays exactly as it
-- is through a round, if the order of the batch gives only events that it was given.
pub tick-Mem_of_settled :
    (config : SyncConfig) (now : ℕ) (backend : Backend) (l : Loop) (e : QueuedEvent)
    → SortsOwn backend
    → IsSound l.store
    → Memᴰ e l.store.events
    → e.priority ≢ EventPriority.low
    → IsSettled e
    → Memᴰ e (tick config now backend l).0.store.events
unfolding list_by_status list_pending_for_sync QueueStatus-discrete
tick-Mem_of_settled config now backend l e sorts v m low settled =
    let c = stays_closed e low in
    let free : AllFree (OtherThan e) (list_by_status QueueStatus.syncing l.store) = λ x n.
      let (at, t) = filter-Mem _ l.store.events x n in
      other_of_status l.store e x (λ y. y.status == QueueStatus.syncing) v m at t (ground arith) in
    let (sound, there) = uploads_closed c backend l free (v, m) in
    (tick_closed c config now backend l free
      (λ x n.
        let (at, t) =
          filter-Mem (is_due now) (uploads backend l).events x
            (sorts _ x (take-Mem config.batch_size _ x n)) in
        other_of_status (uploads backend l) e x (is_due now) sound there at t (ground arith))
      (v, m)).1
