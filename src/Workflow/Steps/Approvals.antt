-- ===== src/Workflow/Steps/Approvals.antt =====
-- When no approval step remains.
use trinetra_systems.Common.{
  ℕ, ◌<◌, filter, filter-eq-nil, filter_of_none, includes, includes→Mem, Mem→includes, Bool, true,
  false, ◌&&◌, List, [], ◌∷◌, Memᴰ, Option, none, some, ◌≡◌, ◌≢◌, refl, ◌↔◌, ◌⊎◌, arith, ◌==◌,
  nat_eq, inl, inr, Bool-cases,
}
use trinetra_systems.Workflow.Snapshot.{
  ApprovalDepartment, WorkflowCapability, capability_eq, WorkflowConfig, WorkflowStep,
  WorkflowSnapshot, required_approval_departments, departments,
}
use trinetra_systems.Workflow.Steps.{
  WorkflowProgressContext, is_remaining, remaining_approval_steps, requirement_of,
  resolve_approval_requirement,
}

-- Automatic continuation: configured, with a threshold that the recorded weight stays below.
abbrev pub ContinuesAutomatically : WorkflowConfig → Option ℕ → Type 0
ContinuesAutomatically config gross =
    (config.auto_continue ≡ true)
    × ((threshold : ℕ) × (weight : ℕ) × (config.approval_threshold ≡ some threshold)
        × (gross ≡ some weight)
        × (weight < threshold))

-- Every required approval step that names a department has its sort order among the approved.
abbrev pub ApprovalsGranted : WorkflowSnapshot → List ℕ → Type 0
ApprovalsGranted snapshot approved =
    (step : WorkflowStep)
    → Memᴰ step snapshot.steps
    → step.capability ≡ WorkflowCapability.approval
    → step.is_required ≡ true
    → step.approval_department ≢ none
    → Memᴰ step.sort_order approved

is_remaining-eq-false_iff :
    (approved : List ℕ) (step : WorkflowStep)
    → (is_remaining approved step ≡ false) ↔ (
        step.capability ≡ WorkflowCapability.approval
        → step.is_required ≡ true
        → step.approval_department ≢ none
        → includes approved step.sort_order ≡ true)
unfolding is_remaining
is_remaining-eq-false_iff approved step = ((λ h c r d. ground arith), (λ h. ground arith))

filter-remaining-eq-nil_iff :
    (approved : List ℕ) (snapshot : WorkflowSnapshot)
    → (filter (is_remaining approved) snapshot.steps ≡ []) ↔ ApprovalsGranted snapshot approved
filter-remaining-eq-nil_iff approved snapshot = (
  (λ h step m c r d.
      includes→Mem approved step.sort_order
        ((is_remaining-eq-false_iff approved step).0 (filter-eq-nil _ _ h step m) c r d)),
  (λ h. filter_of_none (is_remaining approved) snapshot.steps (λ step m.
      (is_remaining-eq-false_iff approved step).1
        (λ c r d. Mem→includes approved step.sort_order (h step m c r d)))),
)

abbrev is_approval_step : WorkflowStep → Bool
is_approval_step step = step.capability == WorkflowCapability.approval && step.is_required

departments-eq-nil :
    (steps : List WorkflowStep)
    → departments (filter is_approval_step steps) ≡ []
    → (step : WorkflowStep) → Memᴰ step steps
    → step.capability ≡ WorkflowCapability.approval
    → step.is_required ≡ true
    → step.approval_department ≡ none
unfolding departments filter
departments-eq-nil [] h step m c r = elim m [ ]
departments-eq-nil (s ∷ steps) h step (Memᴰ.head e) c r = ground arith
departments-eq-nil (s ∷ steps) h step (Memᴰ.tail m) c r =
    departments-eq-nil steps (ground arith) step m c r

not-required_of_auto :
    (auto : Bool) (threshold gross : Option ℕ) (d : List ApprovalDepartment) (t w : ℕ)
    → auto ≡ true
    → threshold ≡ some t
    → gross ≡ some w
    → w < t
    → (requirement_of auto threshold gross d).required ≡ false
not-required_of_auto auto threshold gross [] t w a p q l = refl
not-required_of_auto auto threshold gross (d ∷ ds) t w a p q l = ground arith

auto_of_not-required :
    (auto : Bool) (threshold gross : Option ℕ) (d : ApprovalDepartment)
    (ds : List ApprovalDepartment)
    → (requirement_of auto threshold gross (d ∷ ds)).required ≡ false
    → (auto ≡ true) × ((t : ℕ) × (w : ℕ) × (threshold ≡ some t) × (gross ≡ some w) × (w < t))
auto_of_not-required true (some t) (some w) d ds h = (refl, (t, w, refl, refl, ground arith))
auto_of_not-required true (some t) none d ds h = absurd (cc)
auto_of_not-required true none gross d ds h = absurd (cc)
auto_of_not-required false threshold gross d ds h = absurd (cc)

not-required-cases :
    (snapshot : WorkflowSnapshot) (gross : Option ℕ) (approved : List ℕ)
    → (resolve_approval_requirement (some snapshot) gross).required ≡ false
    → ContinuesAutomatically snapshot.config gross ⊎ ApprovalsGranted snapshot approved
unfolding resolve_approval_requirement required_approval_departments
not-required-cases snapshot gross approved h =
    go (departments (filter is_approval_step snapshot.steps)) refl h
  where
    go :
        (ds : List ApprovalDepartment)
        → departments (filter is_approval_step snapshot.steps) ≡ ds
        → (requirement_of snapshot.config.auto_continue snapshot.config.approval_threshold gross
            ds).required
          ≡ false
        → ContinuesAutomatically snapshot.config gross ⊎ ApprovalsGranted snapshot approved
    go [] e h = inr (λ step m c r d. absurd (d (departments-eq-nil snapshot.steps e step m c r)))
    go (d ∷ ds) e h = inl (auto_of_not-required _ _ _ d ds h)

not_required :
    (snapshot : WorkflowSnapshot) (gross : Option ℕ) (t w : ℕ)
    → snapshot.config.auto_continue ≡ true
    → snapshot.config.approval_threshold ≡ some t
    → gross ≡ some w
    → w < t
    → (resolve_approval_requirement (some snapshot) gross).required ≡ false
unfolding resolve_approval_requirement
not_required snapshot gross t w = not-required_of_auto _ _ gross _ t w

-- No approval step remains exactly when the workflow continues automatically below its threshold,
-- or every required approval step is approved.
pub remaining-eq-nil_iff :
    (snapshot : WorkflowSnapshot) (context : WorkflowProgressContext)
    → (remaining_approval_steps (some snapshot) context ≡ []) ↔ (
        ContinuesAutomatically snapshot.config context.gross_weight
        ⊎ ApprovalsGranted snapshot context.approved_step_sort_orders)
unfolding remaining_approval_steps
remaining-eq-nil_iff snapshot context =
    elim (Bool-cases (resolve_approval_requirement (some snapshot) context.gross_weight).required) [
      | inl needed ↦ rw needed (
        (λ h. inr ((filter-remaining-eq-nil_iff context.approved_step_sort_orders snapshot).0 h)),
        (λ h. elim h [
          | inl (auto, (t, w, p, q, l)) ↦
              absurd (cc (not_required snapshot context.gross_weight t w auto p q l))
          | inr granted ↦
              (filter-remaining-eq-nil_iff context.approved_step_sort_orders snapshot).1 granted
        ]),
      )
      | inr free ↦ rw free (
        (λ h.
            not-required-cases snapshot context.gross_weight context.approved_step_sort_orders
              free),
        (λ h. refl),
      )
    ]
