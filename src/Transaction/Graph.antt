-- ===== src/Transaction/Graph.antt =====
-- Paths through the platform graph of apps/api/src/domain/transactionState.ts.
use trinetra_systems.Common.{
  true, false, List, [], ◌∷◌, Memᴰ, ◌≡◌, ◌≢◌, refl, arith, ◌⊎◌, ◌↔◌, inl, inr,
}
use trinetra_systems.Transaction.Status.{
  TransactionStatus, TransactionStatus-discrete, status_eq, arrived, identified, document_pending,
  document_verified, material_classified, first_weighment, pending_approval, approved, unloading,
  unloaded, second_weighment, completed, on_hold, rejected, cancelled, exception, can_transition,
  is_terminal_status,
}

-- A history of a transaction: the statuses that it passed, the last move last.
pub data Reach (s : TransactionStatus) : TransactionStatus → Type 0 where
  here : Reach s s
  move : {t u : TransactionStatus} → Reach s t → can_transition t u ≡ true → Reach s u

abbrev pub visits : {s t : TransactionStatus} → Reach s t → List TransactionStatus
visits {t} here = t ∷ []
visits {t} (move r e) = t ∷ visits r

-- The last move of a path that has one.
record LastMove {s u : TransactionStatus} (r : Reach s u) : Type 0 where
  source : TransactionStatus
  before : Reach s source
  edge : can_transition source u ≡ true
  listed : (v : TransactionStatus) → Memᴰ v (visits before) → Memᴰ v (visits r)

last_move : {s u : TransactionStatus} (r : Reach s u) → s ≢ u → LastMove r
last_move here n = absurd (n refl)
last_move (move {t} r e) n = record {
  source = t;
  before = r;
  edge = e;
  listed = λ v m. Memᴰ.tail m;
}

visits_end : {s u : TransactionStatus} (r : Reach s u) → Memᴰ u (visits r)
visits_end here = Memᴰ.head refl
visits_end (move r e) = Memᴰ.head refl

pub to_completed :
    (t : TransactionStatus)
    → can_transition t TransactionStatus.completed ≡ true
    → t ≡ TransactionStatus.second_weighment
unfolding can_transition TransactionStatus-discrete
to_completed t e = ground arith

to_second_weighment :
    (t : TransactionStatus)
    → can_transition t TransactionStatus.second_weighment ≡ true
    → t ≡ TransactionStatus.unloaded
unfolding can_transition TransactionStatus-discrete
to_second_weighment t e = ground arith

to_unloaded :
    (t : TransactionStatus)
    → can_transition t TransactionStatus.unloaded ≡ true
    → t ≡ TransactionStatus.unloading
unfolding can_transition TransactionStatus-discrete
to_unloaded t e = ground arith

reach_unloaded :
    {s u : TransactionStatus} (r : Reach s u)
    → u ≡ TransactionStatus.unloaded
    → s ≢ TransactionStatus.unloaded
    → Memᴰ TransactionStatus.unloading (visits r)
reach_unloaded r e n =
    let l = last_move r (λ p. n (cc)) in
    let same = to_unloaded l.source (rw e at l.edge) in
    l.listed TransactionStatus.unloading (rw (← same) (visits_end l.before))

-- A transaction that is completed has been unloading, unloaded and at its second weighment,
-- whichever of the statuses before unloading it started at.
pub completed_visits :
    {s : TransactionStatus} (r : Reach s TransactionStatus.completed)
    → s ≢ TransactionStatus.completed
    → s ≢ TransactionStatus.second_weighment
    → s ≢ TransactionStatus.unloaded
    → Memᴰ TransactionStatus.unloading (visits r)
      × Memᴰ TransactionStatus.unloaded (visits r)
      × Memᴰ TransactionStatus.second_weighment (visits r)
completed_visits r c w u =
    let l = last_move r c in
    let at_second = to_completed l.source l.edge in
    let k = last_move l.before (λ p. w (cc)) in
    let at_unloaded = to_second_weighment k.source (rw at_second at k.edge) in
    (
      l.listed _ (k.listed _ (reach_unloaded k.before at_unloaded u)),
      l.listed _ (k.listed _ (rw (← at_unloaded) (visits_end k.before))),
      l.listed _ (rw (← at_second) (visits_end l.before)),
    )

-- Nothing leaves a terminal status, nor EXCEPTION.
no_move :
    (s t : TransactionStatus)
    → (is_terminal_status s ≡ true) ⊎ (s ≡ TransactionStatus.exception)
    → can_transition s t ≡ false
unfolding can_transition is_terminal_status TransactionStatus-discrete
no_move s t h = ground arith

-- A path that starts at a terminal status or at EXCEPTION ends there.
terminal_absorbs :
    {s t : TransactionStatus}
    → (is_terminal_status s ≡ true) ⊎ (s ≡ TransactionStatus.exception)
    → Reach s t
    → t ≡ s
terminal_absorbs h here = refl
terminal_absorbs {s} h (move {t} {u} r e) =
    let same = terminal_absorbs h r in absurd (cc (no_move s u h, rw same at e))

is_terminal_status_iff :
    (s : TransactionStatus)
    → (is_terminal_status s ≡ true) ↔ (
        (s ≡ TransactionStatus.completed)
        ⊎ (s ≡ TransactionStatus.rejected)
        ⊎ (s ≡ TransactionStatus.cancelled))
unfolding is_terminal_status TransactionStatus-discrete
is_terminal_status_iff s = ground arith

move_first : {s t u : TransactionStatus} → can_transition s t ≡ true → Reach t u → Reach s u
move_first e here = move here e
move_first e (move r f) = move (move_first e r) f

from_unloading : Reach unloading completed
unfolding can_transition TransactionStatus-discrete
from_unloading = move {t = second_weighment} (move {t = unloaded} (move here refl) refl) refl

from_first_weighment : Reach first_weighment completed
unfolding can_transition TransactionStatus-discrete
from_first_weighment = move_first {t = unloading} refl from_unloading

from_identified : Reach identified completed
unfolding can_transition TransactionStatus-discrete
from_identified = move_first {t = first_weighment} refl from_first_weighment

can_complete :
    (s : TransactionStatus) → s ≢ rejected → s ≢ cancelled → s ≢ exception → Reach s completed
unfolding can_transition TransactionStatus-discrete
can_complete arrived a b c = move_first {t = identified} refl from_identified
can_complete identified a b c = from_identified
can_complete document_pending a b c =
    move_first {t = document_verified} refl
      (move_first {t = first_weighment} refl from_first_weighment)
can_complete document_verified a b c = move_first {t = first_weighment} refl from_first_weighment
can_complete material_classified a b c = move_first {t = first_weighment} refl from_first_weighment
can_complete first_weighment a b c = from_first_weighment
can_complete pending_approval a b c =
    move_first {t = approved} refl (move_first {t = unloading} refl from_unloading)
can_complete approved a b c = move_first {t = unloading} refl from_unloading
can_complete unloading a b c = from_unloading
can_complete unloaded a b c = move {t = second_weighment} (move here refl) refl
can_complete second_weighment a b c = move here refl
can_complete completed a b c = here
can_complete on_hold a b c = move_first {t = identified} refl from_identified
can_complete rejected a b c = absurd (a refl)
can_complete cancelled a b c = absurd (b refl)
can_complete exception a b c = absurd (c refl)

-- A transaction can still be completed exactly when its status is not REJECTED, CANCELLED or
-- EXCEPTION: from every other status the graph has a path to COMPLETED, and from these three none.
pub completed_reachable_iff :
    (s : TransactionStatus)
    → Reach s TransactionStatus.completed ↔ (
        (s ≢ TransactionStatus.rejected)
        × (s ≢ TransactionStatus.cancelled)
        × (s ≢ TransactionStatus.exception))
completed_reachable_iff s = (
  λ r. (
    λ e. absurd (cc (e, terminal_absorbs (inl ((is_terminal_status_iff s).1 (inr (inl e)))) r)),
    λ e. absurd (cc (e, terminal_absorbs (inl ((is_terminal_status_iff s).1 (inr (inr e)))) r)),
    λ e. absurd (cc (e, terminal_absorbs (inr e) r)),
  ),
  λ (a, b, c). can_complete s a b c,
)
