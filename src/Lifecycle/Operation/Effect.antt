-- ===== src/Lifecycle/Operation/Effect.antt =====
-- The effect that the handlers share: one transaction, named by its id, is changed.
use trinetra_systems.Common.{
  string_eq, Bool, Bool-cases, true, false, map, Memᴰ, Option, String, ◌==◌, if◌then◌else◌, ◌≡◌,
  ◌⊎◌, inl, inr, refl, sym, ap, length, ◌+◌, ◌∙◌, arith,
}
use trinetra_systems.Transaction.Status.{TransactionStatus, status_eq, can_transition}
use trinetra_systems.Workflow.Steps.{UnloadingStatus}
use trinetra_systems.Workflow.Guards.{
  assert_can_assign_unloading, assert_can_start_unloading, assert_can_complete_unloading,
  assert_can_record_second_weighment, assert_can_finalize,
}
use trinetra_systems.Weight.Parse.{WeightInput}
use trinetra_systems.Lifecycle.State.{
  WeighmentKind, Weighment, Transaction, Db, Actor, Env, ok, update_where, update_transaction,
}
use trinetra_systems.Lifecycle.Progress.{point_of, assert_mutable}
use trinetra_systems.Lifecycle.Points.{holds, has_occupant}
use trinetra_systems.Lifecycle.Handlers.{
  release_previous, assign_to, with_unloading, with_status, after_second, with_weighment,
  is_claimed, as_completed, assign_unloading, start_unloading, complete_unloading,
  record_second_weighment, finalize_transaction,
}
use trinetra_systems.Lifecycle.Handlers.Runs.{
  start_unloading_run, assign_unloading_run, complete_unloading_run, record_second_weighment_run,
  finalize_transaction_run,
}
use trinetra_systems.Lifecycle.Operation.{Operation, run}
use trinetra_systems.Lifecycle.Operation.Rows.{
  admit-Mem, occupy-transactions, release_held-transactions, release_previous-transactions,
  claim-transactions, twice, claimed_twice, has_occupant_of, completed_keeps, assigned_point,
  started_point,
}

pub record Effect (db db' : Db) : Type 0 where
  pub current : Transaction
  pub change : Transaction → Transaction
  pub rows : db'.transactions ≡ map change db.transactions
  pub keeps_id : (t : Transaction) → (change t).id ≡ t.id
  pub keeps_others : (t : Transaction) → (t.id == current.id) ≡ false → change t ≡ t
  pub is_row : Memᴰ current db.transactions
  pub is_mutable : assert_mutable current.status ≡ ok tt
  pub moves :
      ((change current).status ≡ current.status)
      ⊎ (can_transition current.status (change current).status ≡ true)
  pub takes :
      (point : String)
      → holds point (change current).unloading ≡ true
      → (holds point current.unloading ≡ true) ⊎ (has_occupant point current.id db ≡ false)

-- The effect of changing the rows that a test selects, all of which have the id of one row.
pub change-Effect :
    (current : Transaction) (test : Transaction → Bool) (f : Transaction → Transaction)
    (db db' : Db)
    → Memᴰ current db.transactions
    → assert_mutable current.status ≡ ok tt
    → ((t : Transaction) → test t ≡ true → (t.id == current.id) ≡ true)
    → db'.transactions ≡ map (λ t. if test t then f t else t) db.transactions
    → ((t : Transaction) → (f t).id ≡ t.id)
    → ((f current).status ≡ current.status)
      ⊎ (can_transition current.status (f current).status ≡ true)
    → ((point : String)
        → holds point (f current).unloading ≡ true
        → (holds point current.unloading ≡ true) ⊎ (has_occupant point current.id db ≡ false))
    → Effect db db'
change-Effect current test f db db' m mutable selects rows keeps moves takes =
    let change : Transaction → Transaction = λ t. if test t then f t else t in
    record {
      current = current;
      change = change;
      rows = rows;
      keeps_id = λ t. elim (Bool-cases (test t)) [ inl e ↦ rw e (keeps t) | inr e ↦ rw e refl ];
      keeps_others = λ t e. elim (Bool-cases (test t)) [
        | inl s ↦ absurd (cc (selects t s))
        | inr s ↦ rw s refl
      ];
      is_row = m;
      is_mutable = mutable;
      moves = elim (Bool-cases (test current)) [ inl e ↦ rw e moves | inr e ↦ rw e (inl refl) ];
      takes = λ point h. elim (Bool-cases (test current)) [
        | inl e ↦
            takes point
              (ap (λ b. holds point (if b then f current else current).unloading) (sym e) ∙ h)
        | inr e ↦
            inl (ap (λ b. holds point (if b then f current else current).unloading) (sym e) ∙ h)
      ];
    }

-- Handlers that do not touch the unloading take no point.
keeps_points :
    (current : Transaction) (f : Transaction → Transaction) (db : Db)
    → ((f current).unloading ≡ current.unloading)
    → (point : String) → holds point (f current).unloading ≡ true
    → (holds point current.unloading ≡ true) ⊎ (has_occupant point current.id db ≡ false)
keeps_points current f db e point h = inl (ap (holds point) (sym e) ∙ h)

second-Effect :
    (env : Env) (actor : Actor) (id : String) (input : WeightInput) (wanted : Option String)
    (db db' : Db) (t' : Transaction)
    → record_second_weighment env actor id input wanted db ≡ ok (db', t')
    → Effect db db'
second-Effect env actor id input wanted db db' t' h =
    let (weight, _, (t, admitted, (gross, _, (bridge, _, (net, _, moves, rows, _, _))))) =
      record_second_weighment_run env actor id input wanted db db' t' h in
    let (m, mutable) = admit-Mem env actor id assert_can_record_second_weighment db t admitted in
    let tare : Weighment = record {
      kind = WeighmentKind.tare;
      sequence = length t.weighments + 1;
      weighbridge_id = bridge;
      weight_kg = weight.as_decimal;
    } in
    change-Effect t (λ r. r.id == t.id) (λ r. after_second bridge net (with_weighment tare r)) db
      db' m mutable (λ r e. e)
      (rows
        ∙ twice t.id (after_second bridge net) (with_weighment tare) (λ r. refl) db.transactions)
      (λ r. refl) (inr moves)
      (keeps_points t (λ r. after_second bridge net (with_weighment tare r)) db refl)

finalize-Effect :
    (env : Env) (actor : Actor) (id : String) (db db' : Db) (t' : Transaction)
    → finalize_transaction env actor id db ≡ ok (db', t')
    → Effect db db'
finalize-Effect env actor id db db' t' h =
    let (t, admitted, moves, (gross, _, (tare, _, (net, _, _, (claimed, wins, left, _))))) =
      finalize_transaction_run env actor id db db' t' h in
    let (m, mutable) = admit-Mem env actor id assert_can_finalize db t admitted in
    change-Effect t (is_claimed t.id TransactionStatus.second_weighment) (as_completed net) db db' m
      mutable (λ r e. ground arith)
      (ap (λ (d : Db). d.transactions) left
        ∙ claim-transactions t.id TransactionStatus.second_weighment (as_completed net) db claimed
            wins)
      (λ r. refl) (inr moves) (keeps_points t (as_completed net) db refl)

start-Effect :
    (env : Env) (actor : Actor) (id : String) (db db' : Db) (t' : Transaction)
    → start_unloading env actor id db ≡ ok (db', t')
    → Effect db db'
start-Effect env actor id db db' t' h =
    let (t, admitted, moves, (point, named, (occupied, taken, left))) =
      start_unloading_run env actor id db db' t' h in
    let (m, mutable) = admit-Mem env actor id assert_can_start_unloading db t admitted in
    let (same, idle) = occupy-transactions point t.id db occupied taken in
    let f : Transaction → Transaction = with_status TransactionStatus.unloading in
    let g : Transaction → Transaction = with_unloading UnloadingStatus.in_progress in
    change-Effect t (λ r. r.id == t.id) (λ r. f (g r)) db db' m mutable (λ r e. e)
      (ap (λ (d : Db). d.transactions) left
        ∙ twice t.id f g (λ r. refl) occupied.transactions
        ∙ ap (map (λ (r : Transaction). if r.id == t.id then f (g r) else r)) same)
      (λ r. refl) (inr moves)
      (λ wanted e.
        inr (
          ap (λ p. has_occupant p t.id db) (started_point t.unloading point wanted named e) ∙ idle))

complete-Effect :
    (env : Env) (actor : Actor) (id : String) (db db' : Db) (t' : Transaction)
    → complete_unloading env actor id db ≡ ok (db', t')
    → Effect db db'
complete-Effect env actor id db db' t' h =
    let (t, admitted, moves, (claimed, wins, left)) =
      complete_unloading_run env actor id db db' t' h in
    let (m, mutable) = admit-Mem env actor id assert_can_complete_unloading db t admitted in
    let f : Transaction → Transaction = with_status TransactionStatus.unloaded in
    let g : Transaction → Transaction = with_unloading UnloadingStatus.completed in
    change-Effect t (λ r. r.id == t.id)
      (λ r. if (g r).status == TransactionStatus.unloading then f (g r) else g r) db db' m mutable
      (λ r e. e)
      (ap (λ (d : Db). d.transactions) left
        ∙ claim-transactions t.id TransactionStatus.unloading f _ claimed wins
        ∙ ap
            (map (λ (r : Transaction).
              if is_claimed t.id TransactionStatus.unloading r then f r else r))
            (release_held-transactions (point_of t.unloading) t.id (update_transaction t.id g db))
        ∙ claimed_twice t.id TransactionStatus.unloading f g (λ r. refl) db.transactions)
      (λ r. elim (Bool-cases (r.status == TransactionStatus.unloading)) [
        | inl e ↦ rw e refl
        | inr e ↦ rw e refl
      ])
      (elim (Bool-cases (t.status == TransactionStatus.unloading)) [
        | inl e ↦ rw e (inr moves)
        | inr e ↦ rw e (inl refl)
      ])
      (λ point e.
        absurd (cc (completed_keeps (t.status == TransactionStatus.unloading) t point, e)))

assign-Effect :
    (env : Env) (actor : Actor) (id : String) (wanted : Option String) (db db' : Db)
    (t' : Transaction)
    → assign_unloading env actor id wanted db ≡ ok (db', t')
    → Effect db db'
assign-Effect env actor id wanted db db' t' h =
    let (t, admitted, (point, _, (occupied, taken, left))) =
      assign_unloading_run env actor id wanted db db' t' h in
    let (m, mutable) = admit-Mem env actor id assert_can_assign_unloading db t admitted in
    let released = release_previous (point_of t.unloading) point.id t.id db in
    let kept = release_previous-transactions (point_of t.unloading) point.id t.id db in
    let (same, idle) = occupy-transactions point.id t.id released occupied taken in
    change-Effect t (λ r. r.id == t.id) (assign_to point.id) db db' m mutable (λ r e. e)
      (ap (λ (d : Db). d.transactions) left
        ∙ ap (map (update_where t.id (assign_to point.id))) (same ∙ kept))
      (λ r. refl) (inl refl)
      (λ p e. inr (
        ap (λ q. has_occupant q t.id db) (assigned_point point.id p e)
        ∙ sym (has_occupant_of point.id t.id released db kept)
        ∙ idle))

-- Every operation that succeeds has this effect.
pub run-Effect :
    (env : Env) (actor : Actor) (op : Operation) (db db' : Db) (t' : Transaction)
    → run env actor op db ≡ ok (db', t')
    → Effect db db'
unfolding run
run-Effect env actor (Operation.assign id wanted) db db' t' h =
    assign-Effect env actor id wanted db db' t' h
run-Effect env actor (Operation.start id) db db' t' h = start-Effect env actor id db db' t' h
run-Effect env actor (Operation.complete id) db db' t' h = complete-Effect env actor id db db' t' h
run-Effect env actor (Operation.finalize id) db db' t' h = finalize-Effect env actor id db db' t' h
run-Effect env actor (Operation.second_weighment id input wanted) db db' t' h =
    second-Effect env actor id input wanted db db' t' h
