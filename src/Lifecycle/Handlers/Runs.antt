-- ===== src/Lifecycle/Handlers/Runs.antt =====
-- What a handler that succeeds has passed, and the database that it leaves.
use trinetra_systems.Common.{
  ◌+◌, length, any, Bool, true, false, not, Option, none, some, String, ◌≡◌, ap, ◌∙◌, arith, ◌==◌,
}
use trinetra_systems.Transaction.Status.{TransactionStatus, can_transition}
use trinetra_systems.Workflow.Steps.{UnloadingStatus, WorkflowProgressContext}
use trinetra_systems.Workflow.Guards.{
  assert_can_assign_unloading, assert_can_start_unloading, assert_can_complete_unloading,
  assert_can_record_second_weighment, assert_can_finalize,
}
use trinetra_systems.Weight.Net.{NetWeightResult}
use trinetra_systems.Weight.Parse.{WeightInput, ParsedWeight}
use trinetra_systems.Lifecycle.State.{
  WeighmentKind, kind_eq, Weighment, Transaction, Point, AuditAction, Db, Actor, Env, Reason, ok,
  >>=-eq-ok, unless_refused, unless_refused-eq-ok, require, require-eq-ok, found, found-eq-ok,
  update_transaction, write_audit,
}
use trinetra_systems.Lifecycle.Progress.{
  weighment_of, point_of, transaction_progress, assert_mutable, load_transaction, load_fresh,
}
use trinetra_systems.Lifecycle.Points.{occupy_point}
use trinetra_systems.Workflow.Guards.Refusals.{Refusal}
use trinetra_systems.Lifecycle.Handlers.{
  admit, chosen_point, release_previous, assign_to, assign_unloading, start_unloading, with_status,
  with_unloading, claim, release_held, complete_unloading, matches_assigned, accessible_weighbridge,
  fresh, exception_audit, or_assigned, weight_within, net_weight_of, second_status, after_second,
  with_weighment, record_second_weighment, as_completed, finalize_transaction,
}

fresh_keeps : (id : String) (db db' : Db) (t' : Transaction) → fresh id db ≡ ok (db', t') → db' ≡ db
fresh_keeps id db db' t' h = ground arith

fresh_reads :
    (id : String) (db db' : Db) (t' : Transaction)
    → fresh id db ≡ ok (db', t')
    → load_fresh id db' ≡ ok t'
fresh_reads id db db' t' h = ground arith

audits_keep :
    (net : NetWeightResult) (id : String) (db : Db)
    → (exception_audit net id db).transactions ≡ db.transactions
audits_keep net id db = ground arith

pub admit_steps :
    (env : Env) (actor : Actor) (id : String) (guard : WorkflowProgressContext → Option Refusal)
    (db : Db) (t : Transaction)
    → admit env actor id guard db ≡ ok t
    → (found : Transaction) × (load_transaction actor id db ≡ ok found)
      × (assert_mutable found.status ≡ ok tt)
      × ((progress : WorkflowProgressContext) × (transaction_progress env found ≡ ok progress)
          × (guard progress ≡ none)
          × (found ≡ t))
unfolding admit
admit_steps env actor id guard db t h =
    let (found, loaded, h1) = >>=-eq-ok (load_transaction actor id db) _ h in
    let (_, mutable, h2) = >>=-eq-ok (assert_mutable found.status) _ h1 in
    let (progress, read, h3) = >>=-eq-ok (transaction_progress env found) _ h2 in
    let (_, passed, h4) = >>=-eq-ok (unless_refused (guard progress)) _ h3 in
    (found, loaded, mutable, (progress, read, unless_refused-eq-ok _ passed, cc h4))

pub start_unloading_run :
    (env : Env) (actor : Actor) (id : String) (db db' : Db) (t' : Transaction)
    → start_unloading env actor id db ≡ ok (db', t')
    → (t : Transaction) × (admit env actor id assert_can_start_unloading db ≡ ok t)
      × (can_transition t.status TransactionStatus.unloading ≡ true)
      × ((point : String) × (point_of t.unloading ≡ some point)
          × ((occupied : Db) × (occupy_point point t.id db ≡ ok occupied)
              × (db'
                  ≡ write_audit AuditAction.unloading_started t.id (
                      update_transaction t.id (with_status TransactionStatus.unloading) (
                        update_transaction t.id
                          (with_unloading UnloadingStatus.in_progress)
                          occupied)))))
unfolding start_unloading
start_unloading_run env actor id db db' t' h = ground arith

pub assign_unloading_run :
    (env : Env) (actor : Actor) (id : String) (wanted : Option String) (db db' : Db)
    (t' : Transaction)
    → assign_unloading env actor id wanted db ≡ ok (db', t')
    → (t : Transaction) × (admit env actor id assert_can_assign_unloading db ≡ ok t)
      × ((point : Point) × (chosen_point env actor t wanted db ≡ ok point)
          × ((occupied : Db) × (occupy_point point.id t.id
                  (release_previous (point_of t.unloading) point.id t.id db)
                ≡ ok occupied)
              × (db'
                  ≡ write_audit AuditAction.unloading_point_assigned t.id
                      (update_transaction t.id (assign_to point.id) occupied))))
unfolding assign_unloading
assign_unloading_run env actor id wanted db db' t' h = ground arith

pub complete_unloading_run :
    (env : Env) (actor : Actor) (id : String) (db db' : Db) (t' : Transaction)
    → complete_unloading env actor id db ≡ ok (db', t')
    → (t : Transaction) × (admit env actor id assert_can_complete_unloading db ≡ ok t)
      × (can_transition t.status TransactionStatus.unloaded ≡ true)
      × ((claimed : Db) × (claim t.id TransactionStatus.unloading
              (with_status TransactionStatus.unloaded)
              (release_held
                (point_of t.unloading)
                t.id
                (update_transaction t.id (with_unloading UnloadingStatus.completed) db))
            ≡ ok claimed)
          × (db' ≡ write_audit AuditAction.unloading_completed t.id claimed))
unfolding complete_unloading
complete_unloading_run env actor id db db' t' h = ground arith

of_negation : (b : Bool) → not b ≡ true → b ≡ false
of_negation b h = ground arith

pub record_second_weighment_run :
    (env : Env) (actor : Actor) (id : String) (input : WeightInput) (wanted : Option String)
    (db db' : Db) (t' : Transaction)
    → record_second_weighment env actor id input wanted db ≡ ok (db', t')
    → (weight : ParsedWeight) × (weight_within env input ≡ ok weight)
      × ((t : Transaction) × (admit env actor id assert_can_record_second_weighment db ≡ ok t)
          × ((gross : Weighment) × (weighment_of WeighmentKind.gross t ≡ some gross)
              × ((bridge : String) × (or_assigned wanted t.weighbridge_id ≡ some bridge)
                  × ((net : NetWeightResult) × (net_weight_of env
                          (env.decimal_text gross.weight_kg)
                          weight.as_decimal
                        ≡ ok net)
                      × (can_transition t.status (second_status net) ≡ true)
                      × (db'.transactions
                          ≡ (update_transaction t.id (after_second bridge net) (
                              update_transaction t.id
                                (with_weighment (record {
                                  kind = WeighmentKind.tare;
                                  sequence = length t.weighments + 1;
                                  weighbridge_id = bridge;
                                  weight_kg = weight.as_decimal;
                                }))
                                db)).transactions)
                      × (any (λ (w : Weighment). w.kind == WeighmentKind.tare) t.weighments ≡ false)
                      × (load_fresh t.id db' ≡ ok t')))))
unfolding record_second_weighment
record_second_weighment_run env actor id input wanted db db' t' h =
    let (weight, read, h1) = >>=-eq-ok (weight_within env input) _ h in
    let (t, admitted, h2) =
      >>=-eq-ok (admit env actor id assert_can_record_second_weighment db) _ h1 in
    let (_, untared, h3) =
      >>=-eq-ok
        (require (not (any (λ (w : Weighment). w.kind == WeighmentKind.tare) t.weighments)) 409
          Reason.tare_recorded)
        _ h2 in
    let (gross, has_gross, h4) =
      >>=-eq-ok (found (weighment_of WeighmentKind.gross t) 409 Reason.gross_required) _ h3 in
    let (bridge, named, h5) =
      >>=-eq-ok (found (or_assigned wanted t.weighbridge_id) 400 Reason.weighbridge_required) _
        h4 in
    let (_, _, h6) =
      >>=-eq-ok (require (matches_assigned bridge t.weighbridge_id) 400 Reason.weighbridge_mismatch)
        _ h5 in
    let (scale, _, h7) = >>=-eq-ok (accessible_weighbridge actor bridge db) _ h6 in
    let (_, _, h8) = >>=-eq-ok (require scale.is_active 400 Reason.weighbridge_offline) _ h7 in
    let (net, computed, h9) =
      >>=-eq-ok (net_weight_of env (env.decimal_text gross.weight_kg) weight.as_decimal) _ h8 in
    let (_, moves, h10) =
      >>=-eq-ok
        (require (can_transition t.status (second_status net)) 409
          (Reason.wrong_status (second_status net)))
        _ h9 in
    (
      weight,
      read,
      (
        t,
        admitted,
        (
          gross,
          found-eq-ok (weighment_of WeighmentKind.gross t) _ _ has_gross,
          (
            bridge,
            found-eq-ok (or_assigned wanted t.weighbridge_id) _ _ named,
            (
              net,
              computed,
              require-eq-ok _ _ _ moves,
              ap (λ (d : Db). d.transactions) (fresh_keeps _ _ _ _ h10) ∙ audits_keep net _ _,
              of_negation _ (require-eq-ok _ _ _ untared),
              fresh_reads _ _ _ _ h10,
            ),
          ),
        ),
      ),
    )

pub finalize_transaction_run :
    (env : Env) (actor : Actor) (id : String) (db db' : Db) (t' : Transaction)
    → finalize_transaction env actor id db ≡ ok (db', t')
    → (t : Transaction) × (admit env actor id assert_can_finalize db ≡ ok t)
      × (can_transition t.status TransactionStatus.completed ≡ true)
      × ((gross : Weighment) × (weighment_of WeighmentKind.gross t ≡ some gross)
          × ((tare : Weighment) × (weighment_of WeighmentKind.tare t ≡ some tare)
              × ((net : NetWeightResult) × (net_weight_of env
                      (env.decimal_text gross.weight_kg)
                      (env.decimal_text tare.weight_kg)
                    ≡ ok net)
                  × (net.tare_exceeds_gross ≡ false)
                  × ((claimed : Db) × (claim t.id TransactionStatus.second_weighment
                          (as_completed net)
                          db
                        ≡ ok claimed)
                      × (db' ≡ write_audit AuditAction.transaction_completed t.id claimed)
                      × (load_fresh t.id db' ≡ ok t')))))
unfolding finalize_transaction
finalize_transaction_run env actor id db db' t' h =
    let (t, admitted, h1) = >>=-eq-ok (admit env actor id assert_can_finalize db) _ h in
    let (_, moves, h2) =
      >>=-eq-ok
        (require (can_transition t.status TransactionStatus.completed) 409
          (Reason.wrong_status TransactionStatus.completed))
        _ h1 in
    let (gross, has_gross, h3) =
      >>=-eq-ok (found (weighment_of WeighmentKind.gross t) 409 Reason.weighments_required) _ h2 in
    let (tare, has_tare, h4) =
      >>=-eq-ok (found (weighment_of WeighmentKind.tare t) 409 Reason.weighments_required) _ h3 in
    let (net, computed, h5) =
      >>=-eq-ok
        (net_weight_of env (env.decimal_text gross.weight_kg) (env.decimal_text tare.weight_kg)) _
        h4 in
    let (_, fits, h6) =
      >>=-eq-ok (require (not net.tare_exceeds_gross) 409 Reason.weight_exception) _ h5 in
    let (claimed, wins, h7) =
      >>=-eq-ok (claim t.id TransactionStatus.second_weighment (as_completed net) db) _ h6 in
    (
      t,
      admitted,
      require-eq-ok _ _ _ moves,
      (
        gross,
        found-eq-ok (weighment_of WeighmentKind.gross t) _ _ has_gross,
        (
          tare,
          found-eq-ok (weighment_of WeighmentKind.tare t) _ _ has_tare,
          (
            net,
            computed,
            ground arith,
            (claimed, wins, fresh_keeps _ _ _ _ h7, fresh_reads _ _ _ _ h7),
          ),
        ),
      ),
    )
