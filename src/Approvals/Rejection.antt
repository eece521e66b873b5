-- ===== src/Approvals/Rejection.antt =====
-- What a rejection blocks.
use trinetra_systems.Common.{
  ℕ, string_eq, Mem-filter, map, map-Mem, Memᴰ, Bool-cases, true, not, List, [], ◌∷◌, some, String,
  ◌==◌, ◌≡◌, ◌≢◌, refl, sym, ap, inl, inr, arith, find,
}
use trinetra_systems.Transaction.Status.{TransactionStatus, can_transition}
use trinetra_systems.Workflow.Steps.{WorkflowProgressContext}
use trinetra_systems.Lifecycle.State.{
  ApprovalDecision, ApprovalDecision-discrete, decision_eq, Approval, Transaction, Env, ok, require,
  require-eq-ok, found, ok-injective, >>=-eq-ok,
}
use trinetra_systems.Lifecycle.Progress.{
  orders_of, progress_from, net_of, weighment_of, transaction_progress,
}
use trinetra_systems.Lifecycle.State.{WeighmentKind}
use trinetra_systems.Approvals.{
  User, ApprovalRow, Db, as_approval, rows_of, load_included, is_empty, is_blocked,
  assert_approval_workflow_ready, is_pending_row, decided_row, claim_row, admit_decision,
  set_rejected, reject_request,
}
use trinetra_systems.Approvals.Decisions.{IsAdmitted, admit-IsAdmitted, claimed_pending}

load_included-approvals :
    (id : String) (db : Db) (t : Transaction)
    → load_included id db ≡ ok t
    → map as_approval (rows_of id db) ≡ t.approvals
unfolding load_included
load_included-approvals id db t h =
    let (u, _, same) =
      >>=-eq-ok (found (find (λ (t : Transaction). t.id == id) db.transactions) 404 _) _ h in
    ap (λ (t : Transaction). t.approvals) (ok-injective same)

transaction_progress-rejected :
    (env : Env) (t : Transaction) (progress : WorkflowProgressContext)
    → transaction_progress env t ≡ ok progress
    → orders_of ApprovalDecision.rejected t.approvals ≡ progress.rejected_step_sort_orders
unfolding transaction_progress progress_from
transaction_progress-rejected env t progress h =
    let (net, _, same) =
      >>=-eq-ok
        (net_of env (weighment_of WeighmentKind.gross t) (weighment_of WeighmentKind.tare t)) _ h in
    ap (λ (p : WorkflowProgressContext). p.rejected_step_sort_orders) (ok-injective same)

ready-rejected :
    (env : Env) (t : Transaction)
    → assert_approval_workflow_ready env t ≡ ok tt
    → is_empty (orders_of ApprovalDecision.rejected t.approvals) ≡ true
unfolding assert_approval_workflow_ready
ready-rejected env t h =
    let (progress, got, h1) = >>=-eq-ok (transaction_progress env t) _ h in
    let (_, _, h2) = >>=-eq-ok (require progress.has_gross 409 _) _ h1 in
    rw (transaction_progress-rejected env t progress got)
      (ground (arith, require-eq-ok (not (is_blocked progress)) 409 _ h2))

member_of_nonempty : (ns : List ℕ) (n : ℕ) → Memᴰ n ns → is_empty ns ≡ true → ⊥
member_of_nonempty [] n m h = elim m [ ]
member_of_nonempty (x ∷ ns) n m h = cc

rejected_order :
    (rows : List Approval) (a : Approval)
    → Memᴰ a rows
    → a.decision ≡ ApprovalDecision.rejected
    → Memᴰ a.sort_order (orders_of ApprovalDecision.rejected rows)
unfolding ApprovalDecision-discrete
rejected_order rows a m same =
    map-Mem _ _ a
      (Mem-filter _ rows a m ((decision_eq.test_iff a.decision ApprovalDecision.rejected).1 same))

-- A transaction with a rejected row admits no decision.
blocked :
    (user : User) (env : Env) (id : String) (decision : ApprovalDecision) (db : Db)
    (row current : ApprovalRow) (t : Transaction)
    → Memᴰ row db.rows
    → row.decision ≡ ApprovalDecision.rejected
    → IsAdmitted user env id decision db current t
    → current.transaction_id ≢ row.transaction_id
blocked user env id decision db row current t m rejected a same =
    let own : Memᴰ row (rows_of current.transaction_id db) =
      Mem-filter _ db.rows row m
        ((string_eq.test_iff row.transaction_id current.transaction_id).1 (sym same)) in
    let shown : Memᴰ (as_approval row) t.approvals =
      rw (← load_included-approvals current.transaction_id db t a.loaded)
        (map-Mem as_approval (rows_of current.transaction_id db) row own) in
    member_of_nonempty _ row.sort_order
      (rejected_order t.approvals (as_approval row) shown rejected) (ready-rejected env t a.ready)

reject_steps :
    (user : User) (env : Env) (id reason : String) (db db' : Db)
    → reject_request user env id reason db ≡ ok db'
    → (claimed : Db) × (claim_row user id ApprovalDecision.rejected (some reason) db ≡ ok claimed)
      × (claimed.rows ≡ db'.rows)
unfolding reject_request set_rejected
reject_steps user env id reason db db' h =
    let ((current, t), _, h1) =
      >>=-eq-ok (admit_decision user env id ApprovalDecision.rejected db) _ h in
    let (claimed, got, h2) =
      >>=-eq-ok (claim_row user id ApprovalDecision.rejected (some reason) db) _ h1 in
    let same = ap (λ (d : Db). d.rows) (ok-injective h2) in
    (
      claimed,
      got,
      elim (Bool-cases (can_transition t.status TransactionStatus.rejected)) [
        | inl may ↦ rw may at same
        | inr stays ↦ rw stays at same
      ],
    )

-- After a rejection no approval of the same transaction can be decided.
pub reject_request-blocks :
    (user user' : User) (env : Env) (id id' reason : String) (decision : ApprovalDecision)
    (db db' : Db) (row current : ApprovalRow) (t : Transaction)
    → reject_request user env id reason db ≡ ok db'
    → Memᴰ row db.rows
    → is_pending_row id row ≡ true
    → admit_decision user' env id' decision db' ≡ ok (current, t)
    → current.transaction_id ≢ row.transaction_id
reject_request-blocks user user' env id id' reason decision db db' row current t h m taken next =
    let (claimed, got, same) = reject_steps user env id reason db db' h in
    let stored : Memᴰ (decided_row user ApprovalDecision.rejected (some reason) row) db'.rows =
      rw (← same) (
        claimed_pending user id ApprovalDecision.rejected (some reason) db claimed row got m
          taken) in
    blocked user' env id' decision db' _ current t stored refl
      (admit-IsAdmitted user' env id' decision db' current t next)
