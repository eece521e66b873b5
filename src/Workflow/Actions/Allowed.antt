-- ===== src/Workflow/Actions/Allowed.antt =====
-- Which actions a transaction offers.
use trinetra_systems.Common.{
  includes, includes_of_nil, is_none, Bool, true, false, not, ◌&&◌, ◌||◌, List, [], ◌∷◌, ◌++◌,
  Option, none, some, ◌≡◌, ◌≢◌, ◌↔◌, refl, sym, ap, ◌∙◌, arith, ◌==◌, Memᴰ, Mem→includes,
  includes→Mem,
}
use mathlib.Core.Bool.{and-false, and-true, or-false, false-or}
use trinetra_systems.Transaction.Status.{TransactionStatus, status_eq}
use trinetra_systems.Workflow.Steps.{WorkflowProgressContext}
use trinetra_systems.Workflow.Guards.{
  assert_can_record_first_weighment, assert_can_assign_unloading, assert_can_start_unloading,
  assert_can_complete_unloading, assert_can_record_second_weighment, assert_can_finalize,
}
use trinetra_systems.Workflow.Guards.Refusals.{Refusal}
use trinetra_systems.Workflow.Actions.{
  is_waiting_for_review, TransactionAction, TransactionAction-discrete, action_eq, push_if,
  resolve_allowed_actions,
}

includes-append_one :
    (xs : List TransactionAction) (x a : TransactionAction)
    → includes (xs ++ x ∷ []) a ≡ (includes xs a || x == a)
unfolding includes
includes-append_one [] x a = ground arith
includes-append_one (y ∷ ys) x a = ground (arith, includes-append_one ys x a)

includes-push_if :
    (b : Bool) (x a : TransactionAction) (xs : List TransactionAction)
    → includes (push_if b x xs) a ≡ (includes xs a || (b && x == a))
includes-push_if true x a xs = includes-append_one xs x a
includes-push_if false x a xs = ground arith

-- The list built by nine conditional pushes holds an action exactly when its test passed.
abbrev pushes : (b1 b2 b3 b4 b5 b6 b7 b8 b9 : Bool) → List TransactionAction
pushes b1 b2 b3 b4 b5 b6 b7 b8 b9 = push_if b9 TransactionAction.finalize (
    push_if b8 TransactionAction.record_tare (
      push_if b7 TransactionAction.complete_unloading (
        push_if b6 TransactionAction.start_unloading (
          push_if b5 TransactionAction.assign_unloading (
            push_if b4 TransactionAction.record_gross (
              push_if b3 TransactionAction.verify_material (
                push_if b2 TransactionAction.assign_material
                  (push_if b1 TransactionAction.upload_document []))))))))

abbrev test_of : (b1 b2 b3 b4 b5 b6 b7 b8 b9 : Bool) → TransactionAction → Bool
test_of b1 b2 b3 b4 b5 b6 b7 b8 b9 TransactionAction.identify = false
test_of b1 b2 b3 b4 b5 b6 b7 b8 b9 TransactionAction.upload_document = b1
test_of b1 b2 b3 b4 b5 b6 b7 b8 b9 TransactionAction.assign_material = b2
test_of b1 b2 b3 b4 b5 b6 b7 b8 b9 TransactionAction.verify_material = b3
test_of b1 b2 b3 b4 b5 b6 b7 b8 b9 TransactionAction.record_gross = b4
test_of b1 b2 b3 b4 b5 b6 b7 b8 b9 TransactionAction.assign_unloading = b5
test_of b1 b2 b3 b4 b5 b6 b7 b8 b9 TransactionAction.start_unloading = b6
test_of b1 b2 b3 b4 b5 b6 b7 b8 b9 TransactionAction.complete_unloading = b7
test_of b1 b2 b3 b4 b5 b6 b7 b8 b9 TransactionAction.record_tare = b8
test_of b1 b2 b3 b4 b5 b6 b7 b8 b9 TransactionAction.finalize = b9

ruleset bool_laws = (and-false, and-true, or-false, false-or)

includes-pushes :
    (b1 b2 b3 b4 b5 b6 b7 b8 b9 : Bool) (a : TransactionAction)
    → includes (pushes b1 b2 b3 b4 b5 b6 b7 b8 b9) a ≡ (
        false
        || b1 && TransactionAction.upload_document == a
        || b2 && TransactionAction.assign_material == a
        || b3 && TransactionAction.verify_material == a
        || b4 && TransactionAction.record_gross == a
        || b5 && TransactionAction.assign_unloading == a
        || b6 && TransactionAction.start_unloading == a
        || b7 && TransactionAction.complete_unloading == a
        || b8 && TransactionAction.record_tare == a
        || b9 && TransactionAction.finalize == a)
includes-pushes b1 b2 b3 b4 b5 b6 b7 b8 b9 a = simp (includes-push_if, includes_of_nil [] a refl)

pub includes-pushes_test :
    (b1 b2 b3 b4 b5 b6 b7 b8 b9 : Bool) (a : TransactionAction)
    → includes (pushes b1 b2 b3 b4 b5 b6 b7 b8 b9) a ≡ test_of b1 b2 b3 b4 b5 b6 b7 b8 b9 a
unfolding TransactionAction-discrete
includes-pushes_test b1 b2 b3 b4 b5 b6 b7 b8 b9 TransactionAction.identify =
    includes-pushes b1 b2 b3 b4 b5 b6 b7 b8 b9 TransactionAction.identify ∙ simp bool_laws
includes-pushes_test b1 b2 b3 b4 b5 b6 b7 b8 b9 TransactionAction.upload_document =
    includes-pushes b1 b2 b3 b4 b5 b6 b7 b8 b9 TransactionAction.upload_document ∙ simp bool_laws
includes-pushes_test b1 b2 b3 b4 b5 b6 b7 b8 b9 TransactionAction.assign_material =
    includes-pushes b1 b2 b3 b4 b5 b6 b7 b8 b9 TransactionAction.assign_material ∙ simp bool_laws
includes-pushes_test b1 b2 b3 b4 b5 b6 b7 b8 b9 TransactionAction.verify_material =
    includes-pushes b1 b2 b3 b4 b5 b6 b7 b8 b9 TransactionAction.verify_material ∙ simp bool_laws
includes-pushes_test b1 b2 b3 b4 b5 b6 b7 b8 b9 TransactionAction.record_gross =
    includes-pushes b1 b2 b3 b4 b5 b6 b7 b8 b9 TransactionAction.record_gross ∙ simp bool_laws
includes-pushes_test b1 b2 b3 b4 b5 b6 b7 b8 b9 TransactionAction.assign_unloading =
    includes-pushes b1 b2 b3 b4 b5 b6 b7 b8 b9 TransactionAction.assign_unloading ∙ simp bool_laws
includes-pushes_test b1 b2 b3 b4 b5 b6 b7 b8 b9 TransactionAction.start_unloading =
    includes-pushes b1 b2 b3 b4 b5 b6 b7 b8 b9 TransactionAction.start_unloading ∙ simp bool_laws
includes-pushes_test b1 b2 b3 b4 b5 b6 b7 b8 b9 TransactionAction.complete_unloading =
    includes-pushes b1 b2 b3 b4 b5 b6 b7 b8 b9 TransactionAction.complete_unloading ∙ simp bool_laws
includes-pushes_test b1 b2 b3 b4 b5 b6 b7 b8 b9 TransactionAction.record_tare =
    includes-pushes b1 b2 b3 b4 b5 b6 b7 b8 b9 TransactionAction.record_tare ∙ simp bool_laws
includes-pushes_test b1 b2 b3 b4 b5 b6 b7 b8 b9 TransactionAction.finalize =
    includes-pushes b1 b2 b3 b4 b5 b6 b7 b8 b9 TransactionAction.finalize ∙ simp bool_laws

-- The guard that the operation behind an action applies.
abbrev pub guard_of : TransactionAction → Option (WorkflowProgressContext → Option Refusal)
guard_of TransactionAction.record_gross = some assert_can_record_first_weighment
guard_of TransactionAction.assign_unloading = some assert_can_assign_unloading
guard_of TransactionAction.start_unloading = some assert_can_start_unloading
guard_of TransactionAction.complete_unloading = some assert_can_complete_unloading
guard_of TransactionAction.record_tare = some assert_can_record_second_weighment
guard_of TransactionAction.finalize = some assert_can_finalize
guard_of _ = none

abbrev pub IsOpen : WorkflowProgressContext → Type 0
IsOpen context =
    (context.status ≢ TransactionStatus.arrived)
    × (context.status ≢ TransactionStatus.completed)
    × (context.is_completed ≡ false)

abbrev is_uploading : WorkflowProgressContext → Bool
is_uploading context =
    (context.status == TransactionStatus.identified
      || context.status == TransactionStatus.document_pending)
    && not context.has_gross

abbrev is_assigning : WorkflowProgressContext → Bool
is_assigning context =
    (context.status == TransactionStatus.identified
      || context.status == TransactionStatus.document_verified
      || context.status == TransactionStatus.material_classified)
    && not context.has_gross

abbrev pushes_of : WorkflowProgressContext → List TransactionAction
pushes_of context =
    pushes (is_uploading context) (is_assigning context) (is_waiting_for_review context)
      (is_none (assert_can_record_first_weighment context))
      (is_none (assert_can_assign_unloading context)) (is_none (assert_can_start_unloading context))
      (is_none (assert_can_complete_unloading context))
      (is_none (assert_can_record_second_weighment context)) (is_none (assert_can_finalize context))

resolve_allowed_actions_open :
    (context : WorkflowProgressContext)
    → IsOpen context
    → resolve_allowed_actions context ≡ pushes_of context
unfolding resolve_allowed_actions
resolve_allowed_actions_open context (a, c, o) =
    let not_arrived : (context.status == TransactionStatus.arrived) ≡ false = ground arith in
    let not_completed : (context.status == TransactionStatus.completed) ≡ false = ground arith in
    rw (not_arrived, o, not_completed)

is_none_iff : (o : Option Refusal) → (is_none o ≡ true) ↔ (o ≡ none)
is_none_iff none = ((λ h. refl), (λ h. refl))
is_none_iff (some r) = ((λ h. absurd (cc)), (λ h. absurd (cc)))

offered_iff :
    (context : WorkflowProgressContext) (action : TransactionAction) (o : Option Refusal)
    → IsOpen context
    → includes (pushes_of context) action ≡ is_none o
    → Memᴰ action (resolve_allowed_actions context) ↔ (o ≡ none)
offered_iff context action o open' e = (
  (λ m. (is_none_iff o).0 (
      sym e
      ∙ Mem→includes (pushes_of context) action
          (rw (resolve_allowed_actions_open context open') at m))),
  (λ h.
      rw (resolve_allowed_actions_open context open')
        (includes→Mem (pushes_of context) action (e ∙ (is_none_iff o).1 h))),
)

test-eq :
    (context : WorkflowProgressContext) (f guard : WorkflowProgressContext → Option Refusal)
    → some f ≡ some guard
    → is_none (f context) ≡ is_none (guard context)
test-eq context f guard g =
    ap
      (λ (o : Option (WorkflowProgressContext → Option Refusal)). elim o [
        | none ↦ false
        | some h ↦ is_none (h context)
      ])
      g

offered_by_guard :
    (context : WorkflowProgressContext) (action : TransactionAction)
    (guard : WorkflowProgressContext → Option Refusal)
    → guard_of action ≡ some guard
    → test_of
        (is_uploading context)
        (is_assigning context)
        (is_waiting_for_review context)
        (is_none (assert_can_record_first_weighment context))
        (is_none (assert_can_assign_unloading context))
        (is_none (assert_can_start_unloading context))
        (is_none (assert_can_complete_unloading context))
        (is_none (assert_can_record_second_weighment context))
        (is_none (assert_can_finalize context))
        action
      ≡ is_none (guard context)
offered_by_guard context TransactionAction.record_gross guard g = test-eq context _ guard g
offered_by_guard context TransactionAction.assign_unloading guard g = test-eq context _ guard g
offered_by_guard context TransactionAction.start_unloading guard g = test-eq context _ guard g
offered_by_guard context TransactionAction.complete_unloading guard g = test-eq context _ guard g
offered_by_guard context TransactionAction.record_tare guard g = test-eq context _ guard g
offered_by_guard context TransactionAction.finalize guard g = test-eq context _ guard g
offered_by_guard context TransactionAction.identify guard g = cc
offered_by_guard context TransactionAction.upload_document guard g = cc
offered_by_guard context TransactionAction.assign_material guard g = cc
offered_by_guard context TransactionAction.verify_material guard g = cc

-- On a transaction that has been identified and is not completed, an action is offered exactly
-- when the guard that its operation applies would let it pass.
pub resolve_allowed_actions_iff :
    (context : WorkflowProgressContext) (action : TransactionAction)
    (guard : WorkflowProgressContext → Option Refusal)
    → IsOpen context
    → guard_of action ≡ some guard
    → Memᴰ action (resolve_allowed_actions context) ↔ (guard context ≡ none)
resolve_allowed_actions_iff context action guard open' g =
    offered_iff context action (guard context) open'
      (includes-pushes_test _ _ _ _ _ _ _ _ _ action ∙ offered_by_guard context action guard g)
