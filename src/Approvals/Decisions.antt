-- ===== src/Approvals/Decisions.antt =====
-- What a decision changes.
use trinetra_systems.Common.{
  ℕ, nat_eq, string_eq, length, filter, find, find-eq-some, map, map-Mem, Memᴰ, Bool, Bool-cases,
  true, false, ◌&&◌, List, [], ◌∷◌, ◌++◌, Option, none, some, String, ◌==◌, ◌≡◌, ◌≢◌, ap, inl, inr,
  arith, if◌then◌else◌,
}
use trinetra_systems.Transaction.Status.{TransactionStatus, status_eq, can_transition}
use trinetra_systems.Workflow.Snapshot.{ApprovalDepartment, WorkflowStep}
use trinetra_systems.Workflow.Steps.{remaining_approval_steps}
use trinetra_systems.Lifecycle.State.{
  ApprovalDecision, ApprovalDecision-discrete, decision_eq, Transaction, Env, ok, require, found,
  found-eq-ok, require-eq-ok, ok-injective, >>=-eq-ok,
}
use trinetra_systems.Lifecycle.Progress.{transaction_progress}
use trinetra_systems.Approvals.{
  User, ApprovalRow, Db, load_included, is_blocked, assert_approval_workflow_ready, is_pending_row,
  decided_row, claim_row, create_approval, ensure_next, ensure_required_approval, admit_decision,
  after_approval, approve_request, can_decide_approval, set_status, has_active_approval_for_step,
  apply_approval_decision,
}

Mem-append-left :
    (row : ApprovalRow) (rows more : List ApprovalRow) → Memᴰ row rows → Memᴰ row (rows ++ more)
Mem-append-left row [] more m = elim m [ ]
Mem-append-left row (x ∷ rows) more (Memᴰ.head e) = Memᴰ.head e
Mem-append-left row (x ∷ rows) more (Memᴰ.tail m) = Memᴰ.tail (Mem-append-left row rows more m)

-- rows that a step keeps
abbrev Keeps : Db → Db → Type 0
Keeps db db' = (row : ApprovalRow) → Memᴰ row db.rows → Memᴰ row db'.rows

create_approval-Keeps :
    (id : String) (t : Transaction) (sort_order : ℕ) (o : Option ApprovalDepartment) (db : Db)
    → Keeps db (create_approval id t sort_order o db)
unfolding create_approval
create_approval-Keeps id t sort_order none db row m = m
create_approval-Keeps id t sort_order (some department) db row m =
    elim (Bool-cases (has_active_approval_for_step t.approvals sort_order)) [
      | inl active ↦ rw active m
      | inr none_active ↦ rw none_active (Mem-append-left row db.rows _ m)
    ]

ensure_next-Keeps :
    (id : String) (t : Transaction) (steps : List WorkflowStep) (db : Db)
    → Keeps db (ensure_next id t steps db)
ensure_next-Keeps id t [] db row m = m
ensure_next-Keeps id t (step ∷ steps) db row m =
    create_approval-Keeps id t step.sort_order step.approval_department db row m

claim_row-eq-ok :
    (user : User) (id : String) (decision : ApprovalDecision) (comments : Option String)
    (db db' : Db)
    → claim_row user id decision comments db ≡ ok db'
    → (length (filter (is_pending_row id) db.rows) == 1 ≡ true)
      × (map
            (λ (row : ApprovalRow).
              if is_pending_row id row then decided_row user decision comments row else row)
            db.rows
          ≡ db'.rows)
unfolding claim_row
claim_row-eq-ok user id decision comments db db' h =
    let (_, got, left) =
      >>=-eq-ok (require (length (filter (is_pending_row id) db.rows) == 1) 409 _) _ h in
    (require-eq-ok _ _ _ got, ap (λ (d : Db). d.rows) (ok-injective left))

-- the checks of a decision that is admitted
pub record IsAdmitted (user : User) (env : Env) (id : String) (decision : ApprovalDecision)
    (db : Db) (current : ApprovalRow) (t : Transaction) : Type 0 where
  pub stored : Memᴰ current db.rows
  pub named : current.id ≡ id
  pub eligible : can_decide_approval user current ≡ true
  pub undecided : apply_approval_decision current.decision decision ≡ true
  pub loaded : load_included current.transaction_id db ≡ ok t
  pub ready : assert_approval_workflow_ready env t ≡ ok tt

pub admit-IsAdmitted :
    (user : User) (env : Env) (id : String) (decision : ApprovalDecision) (db : Db)
    (current : ApprovalRow) (t : Transaction)
    → admit_decision user env id decision db ≡ ok (current, t)
    → IsAdmitted user env id decision db current t
admit-IsAdmitted user env id decision db current t h =
    let wanted : ApprovalRow → Bool =
      λ row. row.id == id && row.organization_id == user.organization_id in
    let (c, got, h1) = >>=-eq-ok (found (find wanted db.rows) 404 _) _ h in
    let (_, _, h2) = >>=-eq-ok (require (user.can_access_site c.site_id) 403 _) _ h1 in
    let (_, may, h3) = >>=-eq-ok (require (can_decide_approval user c) 403 _) _ h2 in
    let (_, open_now, h4) =
      >>=-eq-ok (require (apply_approval_decision c.decision decision) 409 _) _ h3 in
    let (u, loaded, h5) = >>=-eq-ok (load_included c.transaction_id db) _ h4 in
    let (_, ready, h6) = >>=-eq-ok (assert_approval_workflow_ready env u) _ h5 in
    let (m, is_wanted) = find-eq-some wanted db.rows c (found-eq-ok _ _ _ got) in
    let same : (c, u) ≡ (current, t) = ok-injective h6 in
    let same_row : c ≡ current = ap (λ (p : ApprovalRow × Transaction). p.0) same in
    let same_transaction : u ≡ t = ap (λ (p : ApprovalRow × Transaction). p.1) same in
    rw (← same_row, ← same_transaction)
      (record {
        stored = m;
        named = (string_eq.test_iff c.id id).0 (ground (arith, is_wanted));
        eligible = require-eq-ok _ _ _ may;
        undecided = require-eq-ok _ _ _ open_now;
        loaded = loaded;
        ready = ready;
      })

after_approval-Keeps :
    (env : Env) (new_id : String) (t : Transaction) (steps : List WorkflowStep) (db db' : Db)
    → after_approval env new_id t steps db ≡ ok db'
    → Keeps db db'
unfolding set_status ensure_required_approval
after_approval-Keeps env new_id t [] db db' h row m =
    elim (Bool-cases (can_transition t.status TransactionStatus.approved)) [
      | inl may ↦ rw (← ok-injective (rw may at h)) m
      | inr stays ↦ rw (← ok-injective (rw stays at h)) m
    ]
after_approval-Keeps env new_id t (step ∷ steps) db db' h row m =
    let (progress, _, left) = >>=-eq-ok (transaction_progress env t) _ h in
    elim (Bool-cases (is_blocked progress)) [
      | inl blocked ↦ rw (← ok-injective (rw blocked at left)) m
      | inr free ↦ rw (← ok-injective (rw free at left)) (
          ensure_next-Keeps new_id t (remaining_approval_steps progress.snapshot progress) db row m)
    ]

-- the rows after a claim
claimed_row :
    (user : User) (id : String) (decision : ApprovalDecision) (comments : Option String)
    (rows : List ApprovalRow) (row : ApprovalRow)
    → Memᴰ row rows
    → Memᴰ (if is_pending_row id row then decided_row user decision comments row else row) (
        map
          (λ (row : ApprovalRow).
            if is_pending_row id row then decided_row user decision comments row else row)
          rows)
claimed_row user id decision comments rows row m = map-Mem _ rows row m

-- The steps of an approval, up to the rows that it leaves.
approve_steps :
    (user : User) (env : Env) (new_id id : String) (comments : Option String) (db db' : Db)
    → approve_request user env new_id id comments db ≡ ok db'
    → (current : ApprovalRow) × (t : Transaction) × (claimed : Db) × IsAdmitted user env id
        ApprovalDecision.approved db current t
      × (claim_row user id ApprovalDecision.approved comments db ≡ ok claimed)
      × Keeps claimed db'
unfolding approve_request
approve_steps user env new_id id comments db db' h =
    let ((current, t), admitted, h1) =
      >>=-eq-ok (admit_decision user env id ApprovalDecision.approved db) _ h in
    let (claimed, got, h2) =
      >>=-eq-ok (claim_row user id ApprovalDecision.approved comments db) _ h1 in
    let (refreshed, _, h3) = >>=-eq-ok (load_included t.id _) _ h2 in
    let (progress, _, h4) = >>=-eq-ok (transaction_progress env refreshed) _ h3 in
    (
      current,
      t,
      claimed,
      admit-IsAdmitted user env id ApprovalDecision.approved db current t admitted,
      got,
      after_approval-Keeps env new_id refreshed _ _ db' h4,
    )

pub claimed_pending :
    (user : User) (id : String) (decision : ApprovalDecision) (comments : Option String)
    (db claimed : Db) (row : ApprovalRow)
    → claim_row user id decision comments db ≡ ok claimed
    → Memᴰ row db.rows
    → is_pending_row id row ≡ true
    → Memᴰ (decided_row user decision comments row) claimed.rows
claimed_pending user id decision comments db claimed row got m open_now =
    let (_, same) = claim_row-eq-ok user id decision comments db claimed got in
    rw (← same) (rw open_now at (claimed_row user id decision comments db.rows row m))

claimed_other :
    (user : User) (id : String) (decision : ApprovalDecision) (comments : Option String)
    (db claimed : Db) (row : ApprovalRow)
    → claim_row user id decision comments db ≡ ok claimed
    → Memᴰ row db.rows
    → row.decision ≢ ApprovalDecision.pending
    → Memᴰ row claimed.rows
unfolding ApprovalDecision-discrete
claimed_other user id decision comments db claimed row got m decided =
    let (_, same) = claim_row-eq-ok user id decision comments db claimed got in
    let stays : is_pending_row id row ≡ false = ground (arith, decided) in
    rw (← same) (rw stays at (claimed_row user id decision comments db.rows row m))

undecided_is_pending :
    (row : ApprovalRow) (id : String) (decision : ApprovalDecision)
    → row.id ≡ id
    → apply_approval_decision row.decision decision ≡ true
    → (row.decision ≡ ApprovalDecision.pending) × (is_pending_row id row ≡ true)
unfolding apply_approval_decision
undecided_is_pending row id decision same undecided =
    let now_pending : (row.decision == ApprovalDecision.pending) ≡ true =
      ground (arith, undecided) in
    (
      (decision_eq.test_iff row.decision ApprovalDecision.pending).0 now_pending,
      ground (arith, now_pending, (string_eq.test_iff row.id id).1 same),
    )

-- An approval that succeeds takes a pending row, which its user may decide, to APPROVED.
pub approve_request-decides :
    (user : User) (env : Env) (new_id id : String) (comments : Option String) (db db' : Db)
    → approve_request user env new_id id comments db ≡ ok db'
    → (row : ApprovalRow) × Memᴰ row db.rows
      × (row.id ≡ id)
      × (row.decision ≡ ApprovalDecision.pending)
      × (can_decide_approval user row ≡ true)
      × Memᴰ (decided_row user ApprovalDecision.approved comments row) db'.rows
approve_request-decides user env new_id id comments db db' h =
    let (current, t, claimed, a, got, keeps) = approve_steps user env new_id id comments db db' h in
    let (was_pending, taken) =
      undecided_is_pending current id ApprovalDecision.approved a.named a.undecided in
    (
      current,
      a.stored,
      a.named,
      was_pending,
      a.eligible,
      keeps _ (
          claimed_pending user id ApprovalDecision.approved comments db claimed current got a.stored
            taken),
    )

-- An approval leaves every row that has been decided as it is.
pub approve_request-Mem_of_decided :
    (user : User) (env : Env) (new_id id : String) (comments : Option String) (db db' : Db)
    (row : ApprovalRow)
    → approve_request user env new_id id comments db ≡ ok db'
    → Memᴰ row db.rows
    → row.decision ≢ ApprovalDecision.pending
    → Memᴰ row db'.rows
approve_request-Mem_of_decided user env new_id id comments db db' row h m decided =
    let (current, t, claimed, a, got, keeps) = approve_steps user env new_id id comments db db' h in
    keeps row
      (claimed_other user id ApprovalDecision.approved comments db claimed row got m decided)
