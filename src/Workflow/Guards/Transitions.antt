-- ===== src/Workflow/Guards/Transitions.antt =====
-- A guard that passes leaves a status from which the platform graph allows the step.
use trinetra_systems.Common.{true, none, ◌≡◌, refl, arith, inl, inr}
use trinetra_systems.Transaction.Status.{
  TransactionStatus, TransactionStatus-discrete, can_transition,
}
use trinetra_systems.Workflow.Steps.{WorkflowProgressContext}
use trinetra_systems.Workflow.Guards.{
  assert_can_start_unloading, assert_can_complete_unloading, assert_can_record_second_weighment,
  assert_can_finalize,
}
use trinetra_systems.Workflow.Guards.Unloading.{start-StartParts}
use trinetra_systems.Workflow.Guards.Finalize.{assert_can_finalize-eq-none_iff}

approved-unloading : can_transition TransactionStatus.approved TransactionStatus.unloading ≡ true
unfolding can_transition TransactionStatus-discrete
approved-unloading = refl

first_weighment-unloading :
    can_transition TransactionStatus.first_weighment TransactionStatus.unloading ≡ true
unfolding can_transition TransactionStatus-discrete
first_weighment-unloading = refl

unloading-unloaded : can_transition TransactionStatus.unloading TransactionStatus.unloaded ≡ true
unfolding can_transition TransactionStatus-discrete
unloading-unloaded = refl

unloaded-second_weighment :
    (can_transition TransactionStatus.unloaded TransactionStatus.second_weighment ≡ true)
    × (can_transition TransactionStatus.unloaded TransactionStatus.exception ≡ true)
unfolding can_transition TransactionStatus-discrete
unloaded-second_weighment = (refl, refl)

second_weighment-completed :
    can_transition TransactionStatus.second_weighment TransactionStatus.completed ≡ true
unfolding can_transition TransactionStatus-discrete
second_weighment-completed = refl

pub complete_unloading-status :
    (context : WorkflowProgressContext)
    → assert_can_complete_unloading context ≡ none
    → context.status ≡ TransactionStatus.unloading
unfolding assert_can_complete_unloading
complete_unloading-status context h = ground arith

pub second_weighment-status :
    (context : WorkflowProgressContext)
    → assert_can_record_second_weighment context ≡ none
    → context.status ≡ TransactionStatus.unloaded
unfolding assert_can_record_second_weighment
second_weighment-status context h = ground arith

-- Starting leads to UNLOADING, completing to UNLOADED, the second weighment to SECOND_WEIGHMENT
-- and to EXCEPTION, finalization to COMPLETED: each is an edge of the platform graph from the
-- status at which the guard passes.
pub guards-can_transition :
    (context : WorkflowProgressContext)
    → (assert_can_start_unloading context ≡ none
        → can_transition context.status TransactionStatus.unloading ≡ true)
      × (assert_can_complete_unloading context ≡ none
          → can_transition context.status TransactionStatus.unloaded ≡ true)
      × (assert_can_record_second_weighment context ≡ none
          → (can_transition context.status TransactionStatus.second_weighment ≡ true)
            × (can_transition context.status TransactionStatus.exception ≡ true))
      × (assert_can_finalize context ≡ none
          → can_transition context.status TransactionStatus.completed ≡ true)
guards-can_transition context = (
  (λ h. elim (start-StartParts context h).0 [
    | inl e ↦ rw e approved-unloading
    | inr e ↦ rw e first_weighment-unloading
  ]),
  (λ h. rw (complete_unloading-status context h) unloading-unloaded),
  (λ h. rw (second_weighment-status context h) unloaded-second_weighment),
  (λ h. rw ((assert_can_finalize-eq-none_iff context).0 h).status second_weighment-completed),
)
