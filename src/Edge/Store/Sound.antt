-- ===== src/Edge/Store/Sound.antt =====
-- What every operation of the store keeps: ids name events and conflicts, and the audit log and
-- the synced events of low priority are bounded.
use mathlib.Core.List.{map-append}
use trinetra_systems.Common.{
  length-drop, keep_last, ℕ, zero, suc, ◌-◌, ◌≤◌, length, take, drop, filter, find, any, includes,
  nat_eq, string_eq, eq_refl, eq_comm, includes-append, Bool, Bool-cases, true, false, not, ◌||◌,
  List, [], ◌∷◌, ◌++◌, map, none, String, ◌==◌, ◌≡◌, refl, sym, ap, ◌∙◌, inl, inr, arith,
}
use trinetra_systems.Edge.Events.{QueuedEvent}
use trinetra_systems.Edge.Store.{
  LocalConflict, AuditAction, Store, max_audit, max_low_priority, is_disposable, event_ids,
  pruned_ids, prune, find_event, update_first, update, mark_file_synced, add_conflict, write_audit,
}
use trinetra_systems.Edge.Sync.Closed.{IsClosed}

abbrev pub Distinct : List String → Type 0
Distinct [] = Unit
Distinct (x ∷ xs) = (includes xs x ≡ false) × Distinct xs

pub Distinct-append :
    (xs : List String) (x : String) → Distinct xs → includes xs x ≡ false → Distinct (xs ++ x ∷ [])
unfolding includes
Distinct-append [] x d h = (refl, tt)
Distinct-append (y ∷ ys) x (fresh, d) h =
    (rw includes-append (ground (arith, eq_comm x y)), Distinct-append ys x d (ground arith))

includes-filter :
    (p : QueuedEvent → Bool) (es : List QueuedEvent) (id : String)
    → includes (event_ids es) id ≡ false
    → includes (event_ids (filter p es)) id ≡ false
unfolding includes filter
includes-filter p [] id h = refl
includes-filter p (e ∷ es) id h = ground (arith, includes-filter p es id)

Distinct-filter :
    (p : QueuedEvent → Bool) (es : List QueuedEvent)
    → Distinct (event_ids es)
    → Distinct (event_ids (filter p es))
unfolding filter
Distinct-filter p [] d = d
Distinct-filter p (e ∷ es) (fresh, d) = elim (Bool-cases (p e)) [
  | inl t ↦ rw t (includes-filter p es e.event_id fresh, Distinct-filter p es d)
  | inr f ↦ rw f (Distinct-filter p es d)
]

pub update_first-event_ids :
    (id : String) (patch : QueuedEvent → QueuedEvent) (es : List QueuedEvent)
    → ((e : QueuedEvent) → (patch e).event_id ≡ e.event_id)
    → event_ids (update_first id patch es) ≡ event_ids es
unfolding update_first
update_first-event_ids id patch [] k = refl
update_first-event_ids id patch (e ∷ es) k = elim (Bool-cases (e.event_id == id)) [
  | inl t ↦ rw t (ap (λ x. x ∷ event_ids es) (k e))
  | inr f ↦ rw f (ap (λ xs. e.event_id ∷ xs) (update_first-event_ids id patch es k))
]

pub find_event-eq-none :
    (id : String) (es : List QueuedEvent)
    → find_event id es ≡ none
    → includes (event_ids es) id ≡ false
unfolding find_event find includes
find_event-eq-none id [] h = refl
find_event-eq-none id (e ∷ es) h = elim (Bool-cases (e.event_id == id)) [
  | inl t ↦ absurd (cc (rw t at h))
  | inr f ↦ rw f (find_event-eq-none id es (rw f at h))
]

-- Which synced events of low priority a pruning leaves.
filter_comm :
    (p q : QueuedEvent → Bool) (es : List QueuedEvent)
    → filter p (filter q es) ≡ filter q (filter p es)
unfolding filter
filter_comm p q [] = refl
filter_comm p q (e ∷ es) = ground (arith, filter_comm p q es)

filter_ext :
    (p q : QueuedEvent → Bool) (es : List QueuedEvent)
    → ((e : QueuedEvent) → includes (event_ids es) e.event_id ≡ true → p e ≡ q e)
    → filter p es ≡ filter q es
unfolding filter includes
filter_ext p q [] h = refl
filter_ext p q (e ∷ es) h =
    let same : p e ≡ q e = h e (rw eq_refl refl) in
    ground (arith, filter_ext p q es (λ x m. h x (ground arith)))

abbrev is_kept : List QueuedEvent → QueuedEvent → Bool
is_kept removed e = not (includes (event_ids removed) e.event_id)

filter-take :
    (k : ℕ) (es : List QueuedEvent)
    → Distinct (event_ids es)
    → filter (is_kept (take k es)) es ≡ drop k es
unfolding filter includes
filter-take zero [] d = refl
filter-take zero (e ∷ es) (fresh, d) = ap (λ xs. e ∷ xs) (filter-take zero es d)
filter-take (suc k) [] d = refl
filter-take (suc k) (e ∷ es) (fresh, d) = rw eq_refl (
    filter_ext (is_kept (e ∷ take k es)) (is_kept (take k es)) es (λ x m. other x m)
    ∙ filter-take k es d)
  where
    other :
        (x : QueuedEvent)
        → includes (event_ids es) x.event_id ≡ true
        → is_kept (e ∷ take k es) x ≡ is_kept (take k es) x
    other x m = elim (Bool-cases (e.event_id == x.event_id)) [
      | inl t ↦ absurd (cc (fresh, m, (string_eq.test_iff e.event_id x.event_id).0 t))
      | inr f ↦ rw f refl
    ]

keep_last-le {ℓ} : {A : Type ℓ} (n : ℕ) (xs : List A) → length (keep_last n xs) ≤ n
unfolding keep_last
keep_last-le n xs = omega (arith, length-drop (length xs - n) xs)

abbrev pub disposable_count : List QueuedEvent → ℕ
disposable_count es = length (filter is_disposable es)

prune_bound :
    (s : Store)
    → Distinct (event_ids s.events)
    → disposable_count (prune s).events ≤ max_low_priority
unfolding prune pruned_ids
prune_bound s d =
    let old = filter is_disposable s.events in
    let over = length old - max_low_priority in
    let left =
      filter_comm is_disposable (is_kept (take over old)) s.events
      ∙ filter-take over old (Distinct-filter is_disposable s.events d) in
    rw left (omega (arith, length-drop over old))

abbrev pub conflict_ids : List LocalConflict → List String
conflict_ids = map (λ (c : LocalConflict). c.event_id)

-- Ids name events, an event has one conflict at most, and both the audit log and the synced
-- events of low priority stay within their limits.
pub record IsSound (s : Store) : Type 0 where
  pub events : Distinct (event_ids s.events)
  pub conflicts : Distinct (conflict_ids s.conflicts)
  pub audit : length s.audit ≤ max_audit
  pub low_priority : disposable_count s.events ≤ max_low_priority

-- A sound store but for the bound on events, which the pruning restores.
pub record IsUnpruned (s : Store) : Type 0 where
  pub events : Distinct (event_ids s.events)
  pub conflicts : Distinct (conflict_ids s.conflicts)
  pub audit : length s.audit ≤ max_audit

pub prune-IsSound : (s : Store) → IsUnpruned s → IsSound (prune s)
unfolding prune
prune-IsSound s u = record {
  events = Distinct-filter _ s.events u.events;
  conflicts = u.conflicts;
  audit = u.audit;
  low_priority = prune_bound s u.events;
}

update-IsSound :
    (id : String) (patch : QueuedEvent → QueuedEvent) (s : Store)
    → ((e : QueuedEvent) → (patch e).event_id ≡ e.event_id)
    → IsSound s
    → IsSound (update id patch s)
unfolding update
update-IsSound id patch s k v = prune-IsSound _ (record {
  events = rw (update_first-event_ids id patch s.events k) v.events;
  conflicts = v.conflicts;
  audit = v.audit;
})

mark_file_synced-IsSound : (id : String) (s : Store) → IsSound s → IsSound (mark_file_synced id s)
unfolding mark_file_synced
mark_file_synced-IsSound id s v =
    prune-IsSound _ (record { events = v.events; conflicts = v.conflicts; audit = v.audit })

no_conflict :
    (id : String) (cs : List LocalConflict)
    → any (λ (c : LocalConflict). c.event_id == id) cs ≡ includes (conflict_ids cs) id
unfolding any includes
no_conflict id [] = refl
no_conflict id (c ∷ cs) = ap (λ b. c.event_id == id || b) (no_conflict id cs)

add_conflict-IsSound : (c : LocalConflict) (s : Store) → IsSound s → IsSound (add_conflict c s)
unfolding add_conflict
add_conflict-IsSound c s v =
    elim (Bool-cases (any (λ (d : LocalConflict). d.event_id == c.event_id) s.conflicts)) [
      | inl known ↦
          rw known (
            prune-IsSound s
              (record { events = v.events; conflicts = v.conflicts; audit = v.audit }))
      | inr fresh ↦ rw fresh (
          prune-IsSound _ (record {
            events = v.events;
            conflicts = rw map-append (
                Distinct-append (conflict_ids s.conflicts) c.event_id v.conflicts
                  (sym (no_conflict c.event_id s.conflicts) ∙ fresh));
            audit = v.audit;
          }))
    ]

write_audit-IsSound :
    (action : AuditAction) (id : String) (s : Store) → IsSound s → IsSound (write_audit action id s)
unfolding write_audit
write_audit-IsSound action id s v =
    prune-IsSound _
      (record { events = v.events; conflicts = v.conflicts; audit = keep_last-le max_audit _ })

-- The operations that a round uses keep the store sound.
pub IsSound-closed : IsClosed (λ _. Unit {0}) IsSound
IsSound-closed = record {
  updates = λ id patch s free k v. update-IsSound id patch s k.id v;
  files = mark_file_synced-IsSound;
  conflicts = add_conflict-IsSound;
  audits = write_audit-IsSound;
}
