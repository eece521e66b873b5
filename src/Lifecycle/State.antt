-- ===== src/Lifecycle/State.antt =====
-- The rows that apps/api/src/modules/transactions/lifecycle.ts reads and writes, its errors, and
-- the chaining of steps that may throw. A database transaction that throws leaves no trace, so a
-- handler returns either an error or the new database.
use trinetra_systems.Common.{
  ℕ, nat_eq, string_eq, Bool, true, false, List, ◌∷◌, map, Option, none, some, String, Eq, eq_of,
  ◌==◌, if◌then◌else◌, ◌≡◌, refl,
}
use trinetra_systems.Transaction.Status.{TransactionStatus, status_eq}
use trinetra_systems.Workflow.Snapshot.{WorkflowSnapshot}
use trinetra_systems.Workflow.Steps.{UnloadingStatus, unloading_status_eq}
use trinetra_systems.Workflow.Guards.Refusals.{Refusal}
use trinetra_systems.Weight.Parse.{WeightError, WeightLimits}

pub data WeighmentKind : Type 0 where
  gross tare other : WeighmentKind

unfoldable pub WeighmentKind-discrete : Discrete WeighmentKind
WeighmentKind-discrete = hlevel

instance abbrev pub kind_eq : Eq WeighmentKind
kind_eq = eq_of WeighmentKind-discrete

pub data ApprovalDecision : Type 0 where
  pending approved rejected hold cancelled : ApprovalDecision

unfoldable pub ApprovalDecision-discrete : Discrete ApprovalDecision
ApprovalDecision-discrete = hlevel

instance abbrev pub decision_eq : Eq ApprovalDecision
decision_eq = eq_of ApprovalDecision-discrete

pub data PointStatus : Type 0 where
  available occupied inactive : PointStatus

unfoldable pub PointStatus-discrete : Discrete PointStatus
PointStatus-discrete = hlevel

instance abbrev pub point_status_eq : Eq PointStatus
point_status_eq = eq_of PointStatus-discrete

-- `weight_kg` is the text that was written to the decimal column.
pub record Weighment : Type 0 where
  pub kind : WeighmentKind
  pub sequence : ℕ
  pub weighbridge_id : String
  pub weight_kg : List ℕ

pub record Approval : Type 0 where
  pub id : String
  pub sort_order : ℕ
  pub department_name : String
  pub decision : ApprovalDecision

pub record Unloading : Type 0 where
  pub point_id : Option String
  pub status : UnloadingStatus

-- `documents` holds for each document whether its status is VERIFIED; `completed_at` and
-- `exception_reason` whether the column is set.
pub record Transaction : Type 0 where
  pub id : String
  pub organization_id : String
  pub site_id : String
  pub status : TransactionStatus
  pub vehicle : Option String
  pub material_id : Option String
  pub weighbridge_id : Option String
  pub snapshot : Option WorkflowSnapshot
  pub weighments : List Weighment
  pub documents : List Bool
  pub approvals : List Approval
  pub unloading : Option Unloading
  pub net_weight_kg : Option (List ℕ)
  pub completed_at : Bool
  pub exception_reason : Bool

pub record Point : Type 0 where
  pub id : String
  pub organization_id : String
  pub site_id : String
  pub code : String
  pub name : String
  pub status : PointStatus
  pub is_active : Bool
  pub allowed_material_ids : List String
  pub sort_order : ℕ
  pub deleted : Bool

pub record AssignmentRule : Type 0 where
  pub id : String
  pub organization_id : String
  pub site_id : String
  pub material_id : Option String
  pub unloading_point_id : String
  pub priority : ℕ
  pub is_active : Bool

pub record Weighbridge : Type 0 where
  pub id : String
  pub organization_id : String
  pub site_id : String
  pub is_active : Bool

pub data AuditAction : Type 0 where
  unloading_point_assigned unloading_started unloading_completed : AuditAction
  second_weighment_recorded net_weight_calculated transaction_exception : AuditAction
  transaction_completed : AuditAction

pub record Audit : Type 0 where
  pub action : AuditAction
  pub entity_id : String

pub record Db : Type 0 where
  pub transactions : List Transaction
  pub points : List Point
  pub rules : List AssignmentRule
  pub weighbridges : List Weighbridge
  pub audits : List Audit

-- The actor with the decisions of middleware/authorize.ts about sites and weighbridges.
pub record Actor : Type 0 where
  pub organization_id : String
  pub can_access_site : String → Bool
  pub can_access_weighbridge : String → String → Bool

-- What the handlers take from the platform: the text of a decimal column that was written as a
-- text, `left.localeCompare(right) <= 0`, and the configured limits of a weight.
pub record Env : Type 0 where
  pub decimal_text : List ℕ → List ℕ
  pub locale_le : String → String → Bool
  pub limits : WeightLimits

pub data Reason : Type 0 where
  refused : Refusal → Reason
  wrong_status : TransactionStatus → Reason
  invalid_weight : WeightError → Reason
  transaction_not_found site_denied completed_locked cancelled_locked : Reason
  point_not_assigned point_not_found point_elsewhere point_inactive : Reason
  material_not_accepted point_occupied no_configured_point : Reason
  weight_outside_limits tare_recorded gross_required weighbridge_required : Reason
  weighbridge_mismatch weighbridge_not_found weighbridge_denied weighbridge_offline : Reason
  weighments_required weight_exception updated_by_other unreadable_weight : Reason
  approval_not_found approval_denied approval_decided approval_too_early approval_blocked : Reason

pub record HttpError : Type 0 where
  pub status : ℕ
  pub reason : Reason

pub data Result {ℓ} (A : Type ℓ) : Type ℓ where
  ok : A → Result A
  failed : HttpError → Result A

infixl 5 ◌>>=◌ ◌>>◌
abbrev pub ◌>>=◌ {κ ℓ} :
    {Value : Type κ} {Answer : Type ℓ} → Result Value → (Value → Result Answer) → Result Answer
failed error >>= next = failed error
ok value >>= next = next value

abbrev pub ◌>>◌ {κ} : {Answer : Type κ} → Result (Unit {0}) → Result Answer → Result Answer
check >> next = check >>= λ _. next

abbrev pub http : ℕ → Reason → HttpError
http status reason = record { status = status; reason = reason }

-- `if (!test) throw new HttpError(status, reason)`
abbrev pub require : Bool → ℕ → Reason → Result (Unit {0})
require true status reason = ok tt
require false status reason = failed (http status reason)

abbrev pub found {ℓ} : {A : Type ℓ} → Option A → ℕ → Reason → Result A
found none status reason = failed (http status reason)
found (some a) status reason = ok a

-- `if (blocked) throw new HttpError(409, blocked)`
abbrev pub unless_refused : Option Refusal → Result (Unit {0})
unless_refused none = ok tt
unless_refused (some refusal) = failed (http 409 (Reason.refused refusal))

-- `tx.transaction.update({ where: { id }, data })`
abbrev pub update_where : String → (Transaction → Transaction) → Transaction → Transaction
update_where id change t = if t.id == id then change t else t

abbrev pub update_transaction : String → (Transaction → Transaction) → Db → Db
update_transaction id change db = record db {
  transactions = map (update_where id change) db.transactions;
}

abbrev pub write_audit : AuditAction → String → Db → Db
write_audit action id db = record db {
  audits = record { action = action; entity_id = id } ∷ db.audits;
}

-- Inversion of a chain that succeeds.
pub >>=-eq-ok {κ ℓ} :
    {Value : Type κ} {Answer : Type ℓ} (first : Result Value) (next : Value → Result Answer)
    {answer : Answer}
    → first >>= next ≡ ok answer
    → (value : Value) × (first ≡ ok value) × (next value ≡ ok answer)
>>=-eq-ok (failed error) next h = cc
>>=-eq-ok (ok value) next h = (value, refl, h)

pub unless_refused-eq-ok : (o : Option Refusal) → unless_refused o ≡ ok tt → o ≡ none
unless_refused-eq-ok none h = refl
unless_refused-eq-ok (some r) h = cc

pub found-eq-ok {ℓ} :
    {A : Type ℓ} (o : Option A) (status : ℕ) (reason : Reason) {a : A}
    → found o status reason ≡ ok a
    → o ≡ some a
found-eq-ok none status reason h = cc
found-eq-ok (some a) status reason h = cc

pub require-eq-ok :
    (b : Bool) (status : ℕ) (reason : Reason) → require b status reason ≡ ok tt → b ≡ true
require-eq-ok true status reason h = refl
require-eq-ok false status reason h = cc

pub ok-injective {ℓ} : {A : Type ℓ} {a b : A} → ok a ≡ ok b → a ≡ b
ok-injective h = cc
