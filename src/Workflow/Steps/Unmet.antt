-- ===== src/Workflow/Steps/Unmet.antt =====
-- When the list of unmet required steps is empty.
use trinetra_systems.Common.{
  ◌<◌, find, filter-eq-nil, filter_of_none, true, false, List, [], ◌∷◌, map, Memᴰ, Option, none,
  some, ◌≡◌, refl, ◌↔◌, arith, ◌==◌,
}
use trinetra_systems.Workflow.Snapshot.{
  WorkflowCapability, capability_eq, WorkflowStep, WorkflowSnapshot,
}
use trinetra_systems.Workflow.Steps.{
  WorkflowProgressContext, is_step_satisfied, is_unmet, unmet_before, unmet_required_steps,
}

-- Every required step that is ordered before the first step of the capability is satisfied.
abbrev pub StepsDoneBefore :
    WorkflowSnapshot → WorkflowCapability → WorkflowProgressContext → Type 0
StepsDoneBefore snapshot capability context =
    (target step : WorkflowStep)
    → find (λ (s : WorkflowStep). s.capability == capability) snapshot.steps ≡ some target
    → Memᴰ step snapshot.steps
    → step.is_required ≡ true
    → step.sort_order < target.sort_order
    → is_step_satisfied step context ≡ true

map-eq-nil : (xs : List WorkflowStep) → map (λ (s : WorkflowStep). s.capability) xs ≡ [] → xs ≡ []
map-eq-nil [] h = refl
map-eq-nil (x ∷ xs) h = cc

is_unmet-eq-false_iff :
    (target step : WorkflowStep) (context : WorkflowProgressContext)
    → (is_unmet target context step ≡ false) ↔ (
        step.is_required ≡ true
        → step.sort_order < target.sort_order
        → is_step_satisfied step context ≡ true)
unfolding is_unmet
is_unmet-eq-false_iff target step context = (λ h r l. ground arith, λ h. ground arith)

unmet_before-eq-nil_iff :
    (found : Option WorkflowStep) (snapshot : WorkflowSnapshot) (context : WorkflowProgressContext)
    → (unmet_before found snapshot context ≡ []) ↔ (
        (target step : WorkflowStep)
        → found ≡ some target
        → Memᴰ step snapshot.steps
        → step.is_required ≡ true
        → step.sort_order < target.sort_order
        → is_step_satisfied step context ≡ true)
unfolding unmet_before
unmet_before-eq-nil_iff none snapshot context = ((λ h target step e. cc), (λ h. refl))
unmet_before-eq-nil_iff (some t) snapshot context = (
  (λ h target step e m r l.
      let same : t ≡ target = cc in
      (is_unmet-eq-false_iff t step context).0
        (filter-eq-nil _ snapshot.steps (map-eq-nil _ h) step m) r (rw same l)),
  (λ h. rw (
      filter_of_none (is_unmet t context) snapshot.steps
        (λ step m. (is_unmet-eq-false_iff t step context).1 (h t step refl m)))),
)

-- No required step is unmet exactly when all the required steps before the capability are done.
pub unmet-eq-nil_iff :
    (snapshot : WorkflowSnapshot) (capability : WorkflowCapability)
    (context : WorkflowProgressContext)
    → (unmet_required_steps snapshot capability context ≡ [])
      ↔ StepsDoneBefore snapshot capability context
unfolding unmet_required_steps
unmet-eq-nil_iff snapshot capability context =
    unmet_before-eq-nil_iff (find (λ (s : WorkflowStep). s.capability == capability) snapshot.steps)
      snapshot context
