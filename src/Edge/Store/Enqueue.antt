-- ===== src/Edge/Store/Enqueue.antt =====
-- Storing an event: soundness, and storing it twice.
use mathlib.Core.List.{map-append}
use trinetra_systems.Common.{
  ℕ, ◌-◌, ◌≤◌, length, take, filter, find, includes, string_eq, eq_refl, Bool-cases, true, false,
  not, List, [], ◌∷◌, ◌++◌, none, some, String, ◌==◌, ◌≡◌, ◌⊎◌, refl, sym, ap, ◌∙◌, inl, inr, arith,
}
use trinetra_systems.Edge.Events.{
  EventPriority, priority_eq, QueueStatus-discrete, Envelope, QueuedEvent, priority_for_event_type,
}
use trinetra_systems.Edge.Store.{
  Store, EnqueueOptions, max_low_priority, is_disposable, event_ids, pruned_ids, prune, find_event,
  created_event, append_event, enqueue, or_default,
}
use trinetra_systems.Edge.Store.Sound.{
  IsSound, Distinct-append, prune-IsSound, disposable_count, find_event-eq-none,
}

filter-true : (es : List QueuedEvent) → filter (λ (e : QueuedEvent). true) es ≡ es
unfolding filter
filter-true [] = refl
filter-true (e ∷ es) = ap (λ xs. e ∷ xs) (filter-true es)

prune_idle : (s : Store) → disposable_count s.events ≤ max_low_priority → prune s ≡ s
unfolding prune pruned_ids includes
prune_idle s h =
    let none_over : length (filter is_disposable s.events) - max_low_priority ≡ 0 = omega arith in
    ap
      (λ n. record s {
        events =
            filter
              (λ (e : QueuedEvent).
                not (includes (event_ids (take n (filter is_disposable s.events))) e.event_id))
              s.events;
      })
      none_over
    ∙ ap (λ es. record s { events = es }) (filter-true s.events)

disposable-append :
    (es : List QueuedEvent) (e : QueuedEvent)
    → is_disposable e ≡ false
    → filter is_disposable (es ++ e ∷ []) ≡ filter is_disposable es
unfolding filter
disposable-append [] e h = rw h refl
disposable-append (x ∷ es) e h = rw (disposable-append es e h) refl

find_event-append :
    (id : String) (es : List QueuedEvent) (e : QueuedEvent)
    → find_event id es ≡ none
    → e.event_id ≡ id
    → find_event id (es ++ e ∷ []) ≡ some e
unfolding find_event find
find_event-append id [] e h same = rw (same, eq_refl id) refl
find_event-append id (x ∷ es) e h same = elim (Bool-cases (x.event_id == id)) [
  | inl t ↦ absurd (cc (rw t at h))
  | inr f ↦ rw f (find_event-append id es e (rw f at h) same)
]

created_stays :
    (s : Store) (e : QueuedEvent)
    → IsSound s
    → is_disposable e ≡ false
    → prune (append_event e s) ≡ append_event e s
created_stays s e v h =
    prune_idle (append_event e s) (rw (disposable-append s.events e h) v.low_priority)

abbrev options_priority : Envelope → EnqueueOptions → EventPriority
options_priority envelope options =
    or_default options.priority (priority_for_event_type envelope.event_type)

abbrev new_event : (Envelope → String) → ℕ → Envelope → EnqueueOptions → QueuedEvent
new_event hash now envelope options =
    created_event hash now envelope options (options_priority envelope options)

-- The two ways in which storing succeeds.
enqueue_cases :
    (hash : Envelope → String) (now : ℕ) (envelope : Envelope) (options : EnqueueOptions)
    (s s' : Store) (stored : QueuedEvent)
    → enqueue hash now envelope options s ≡ some (s', stored)
    → ((find_event envelope.event_id s.events ≡ some stored) × (prune s ≡ s'))
      ⊎ ((find_event envelope.event_id s.events ≡ none)
          × (new_event hash now envelope options ≡ stored)
          × (prune (append_event (new_event hash now envelope options) s) ≡ s'))
unfolding enqueue
enqueue_cases hash now envelope options s s' stored h = ground arith

-- A stored event is found under its id, and the store stays sound.
stored_lem :
    (hash : Envelope → String) (now : ℕ) (envelope : Envelope) (options : EnqueueOptions)
    (s s' : Store) (stored : QueuedEvent)
    → IsSound s
    → enqueue hash now envelope options s ≡ some (s', stored)
    → (find_event envelope.event_id s'.events ≡ some stored) × IsSound s'
unfolding QueueStatus-discrete
stored_lem hash now envelope options s s' stored v h =
    elim (enqueue_cases hash now envelope options s s' stored h) [
      | inl (known, left) ↦
          let same : s ≡ s' = sym (prune_idle s v.low_priority) ∙ left in
          (rw (← same) known, rw (← same) v)
      | inr (fresh, made, left) ↦
          let e = new_event hash now envelope options in
          let same : append_event e s ≡ s' = sym (created_stays s e v (ground arith)) ∙ left in
          (
            rw (← same, ← made) (find_event-append envelope.event_id s.events e fresh refl),
            rw (← left) (
                prune-IsSound (append_event e s) (record {
                  events = rw map-append (
                      Distinct-append (event_ids s.events) e.event_id v.events
                        (find_event-eq-none envelope.event_id s.events fresh));
                  conflicts = v.conflicts;
                  audit = v.audit;
                })),
          )
    ]

-- Storing an envelope again, at any time and with any options, gives the event that the first
-- time stored and leaves the store as it is.
pub enqueue-enqueue :
    (hash : Envelope → String) (now later : ℕ) (envelope : Envelope)
    (options options' : EnqueueOptions) (s s' : Store) (stored : QueuedEvent)
    → IsSound s
    → enqueue hash now envelope options s ≡ some (s', stored)
    → IsSound s' × (enqueue hash later envelope options' s' ≡ some (s', stored))
unfolding enqueue
enqueue-enqueue hash now later envelope options options' s s' stored v h =
    let (known, sound) = stored_lem hash now envelope options s s' stored v h in
    (sound, ground (arith, known, prune_idle s' sound.low_priority))
