-- ===== src/Edge/OfflinePolicy/Granted.antt =====
-- Which actions `evaluateOfflineAction` allows, by the policy and the visit.
use trinetra_systems.Common.{
  ℕ, Bool, Bool-cases, true, false, ◌&&◌, ltb, Option, none, some, ◌≡◌, ◌↔◌, ◌⊎◌, ◌≤◌, inl, inr,
  refl, arith,
}
use trinetra_systems.Edge.OfflinePolicy.{
  OfflineCapability, OfflinePolicy, OfflineAction, OfflineAction-discrete, action_eq,
  OfflineContext, is_granted, is_config_stale, action_needs_fresh_config, flag, capability,
  decide_action, evaluate_offline_action,
}

-- The policy, written apart from the code: each action has a setting, which for a reading is a
-- switch, and for some actions a central decision is due, to some only by the visit.
abbrev pub switched : Bool → OfflineCapability
switched true = OfflineCapability.allowed
switched false = OfflineCapability.blocked

abbrev pub setting : OfflinePolicy → OfflineAction → OfflineCapability
setting policy OfflineAction.read_weight = switched policy.allow_weight_read
setting policy OfflineAction.anpr = switched policy.allow_anpr
setting policy OfflineAction.document_capture = switched policy.allow_document_capture
setting policy OfflineAction.basic_transaction = switched policy.allow_basic_transaction_recording
setting policy OfflineAction.weight_anomaly = switched policy.allow_weight_anomaly_detection
setting policy OfflineAction.transaction_completion = policy.transaction_completion
setting policy OfflineAction.material_verification = policy.material_verification
setting policy OfflineAction.approval = policy.approvals
setting policy OfflineAction.config_change = policy.config_changes
setting policy OfflineAction.user_management = policy.user_management
setting policy OfflineAction.hardware_config = policy.hardware_config_changes

abbrev pub IsCentral : OfflineContext → OfflineAction → Type 0
IsCentral c OfflineAction.read_weight = ⊥
IsCentral c OfflineAction.anpr = ⊥
IsCentral c OfflineAction.document_capture = ⊥
IsCentral c OfflineAction.basic_transaction = ⊥
IsCentral c OfflineAction.weight_anomaly = ⊥
IsCentral c OfflineAction.transaction_completion =
    (c.requires_central_authorization ≡ true) ⊎ (c.approval_required ≡ true)
IsCentral c OfflineAction.material_verification =
    (c.requires_central_authorization ≡ true) ⊎ (c.material_verification_required ≡ true)
IsCentral c OfflineAction.approval = Unit {0}
IsCentral c OfflineAction.config_change = Unit {0}
IsCentral c OfflineAction.user_management = Unit {0}
IsCentral c OfflineAction.hardware_config = Unit {0}

abbrev pub Grants : OfflineCapability → Type 0 → Type 0
Grants k central =
    (k ≡ OfflineCapability.allowed) ⊎ ((k ≡ OfflineCapability.conditional) × ¬ central)

-- The setting is ALLOWED, or it is CONDITIONAL and no central decision is due.
abbrev pub Permits : OfflinePolicy → OfflineContext → OfflineAction → Type 0
Permits policy c action = Grants (setting policy action) (IsCentral c action)

capability_iff :
    (k : OfflineCapability) (central : Bool) (action : OfflineAction) (due : Type 0)
    → ((central ≡ true) ↔ due)
    → (is_granted (capability k central action) ≡ true) ↔ Grants k due
capability_iff OfflineCapability.allowed central action due h = (λ _. inl refl, λ _. refl)
capability_iff OfflineCapability.conditional true action due h =
    (λ e. absurd (cc), λ g. elim g [ inl e ↦ absurd (cc) | inr (_, n) ↦ absurd (n (h.0 refl)) ])
capability_iff OfflineCapability.conditional false action due h =
    (λ _. inr (refl, λ d. cc (h.1 d)), λ _. refl)
capability_iff OfflineCapability.blocked central action due h =
    (λ e. absurd (cc), λ g. elim g [ inl e ↦ absurd (cc) | inr (e, _) ↦ absurd (cc) ])

flag_iff :
    (permitted : Bool) (action : OfflineAction)
    → (is_granted (flag permitted action) ≡ true) ↔ Grants (switched permitted) ⊥
flag_iff true action = (λ _. inl refl, λ _. refl)
flag_iff false action =
    (λ e. absurd (cc), λ g. elim g [ inl e ↦ absurd (cc) | inr (e, _) ↦ absurd (cc) ])

decide_action_iff :
    (policy : OfflinePolicy) (c : OfflineContext) (action : OfflineAction)
    → (is_granted (decide_action policy c action) ≡ true) ↔ Permits policy c action
unfolding decide_action
decide_action_iff policy c OfflineAction.transaction_completion =
    capability_iff policy.transaction_completion _ _ _ (ground arith)
decide_action_iff policy c OfflineAction.material_verification =
    capability_iff policy.material_verification _ _ _ (ground arith)
decide_action_iff policy c OfflineAction.read_weight = flag_iff _ _
decide_action_iff policy c OfflineAction.anpr = flag_iff _ _
decide_action_iff policy c OfflineAction.document_capture = flag_iff _ _
decide_action_iff policy c OfflineAction.basic_transaction = flag_iff _ _
decide_action_iff policy c OfflineAction.weight_anomaly = flag_iff _ _
decide_action_iff policy c OfflineAction.approval =
    capability_iff policy.approvals _ _ _ (λ _. tt, λ _. refl)
decide_action_iff policy c OfflineAction.config_change =
    capability_iff policy.config_changes _ _ _ (λ _. tt, λ _. refl)
decide_action_iff policy c OfflineAction.user_management =
    capability_iff policy.user_management _ _ _ (λ _. tt, λ _. refl)
decide_action_iff policy c OfflineAction.hardware_config =
    capability_iff policy.hardware_config_changes _ _ _ (λ _. tt, λ _. refl)

-- The instant up to which the policy holds, itself included, is not past, where it has one.
abbrev pub NotExpired : Option ℕ → ℕ → Type 0
NotExpired none now = Unit {0}
NotExpired (some until) now = now ≤ until

-- Reading a weight or a plate, capturing a document, an approval and the administration, which an
-- expired policy still decides.
abbrev pub IsDecidedWhenExpired : OfflineAction → Type 0
IsDecidedWhenExpired OfflineAction.read_weight = Unit {0}
IsDecidedWhenExpired OfflineAction.anpr = Unit {0}
IsDecidedWhenExpired OfflineAction.document_capture = Unit {0}
IsDecidedWhenExpired OfflineAction.basic_transaction = ⊥
IsDecidedWhenExpired OfflineAction.weight_anomaly = ⊥
IsDecidedWhenExpired OfflineAction.transaction_completion = ⊥
IsDecidedWhenExpired OfflineAction.material_verification = ⊥
IsDecidedWhenExpired OfflineAction.approval = Unit {0}
IsDecidedWhenExpired OfflineAction.config_change = Unit {0}
IsDecidedWhenExpired OfflineAction.user_management = Unit {0}
IsDecidedWhenExpired OfflineAction.hardware_config = Unit {0}

NotExpired-iff :
    (until : Option ℕ) (now : ℕ)
    → (elim until [ none ↦ false | some u ↦ ltb u now ] ≡ false) ↔ NotExpired until now
NotExpired-iff none now = (λ _. tt, λ _. refl)
NotExpired-iff (some until) now = ground arith

IsDecidedWhenExpired-iff :
    (action : OfflineAction)
    → (action_needs_fresh_config action ≡ false) ↔ IsDecidedWhenExpired action
unfolding action_needs_fresh_config OfflineAction-discrete
IsDecidedWhenExpired-iff OfflineAction.read_weight = (λ _. tt, λ _. refl)
IsDecidedWhenExpired-iff OfflineAction.anpr = (λ _. tt, λ _. refl)
IsDecidedWhenExpired-iff OfflineAction.document_capture = (λ _. tt, λ _. refl)
IsDecidedWhenExpired-iff OfflineAction.basic_transaction = (λ e. absurd (cc), λ e. absurd e)
IsDecidedWhenExpired-iff OfflineAction.weight_anomaly = (λ e. absurd (cc), λ e. absurd e)
IsDecidedWhenExpired-iff OfflineAction.transaction_completion = (λ e. absurd (cc), λ e. absurd e)
IsDecidedWhenExpired-iff OfflineAction.material_verification = (λ e. absurd (cc), λ e. absurd e)
IsDecidedWhenExpired-iff OfflineAction.approval = (λ _. tt, λ _. refl)
IsDecidedWhenExpired-iff OfflineAction.config_change = (λ _. tt, λ _. refl)
IsDecidedWhenExpired-iff OfflineAction.user_management = (λ _. tt, λ _. refl)
IsDecidedWhenExpired-iff OfflineAction.hardware_config = (λ _. tt, λ _. refl)

both_false_iff :
    {A B : Type 0} (a b : Bool) → ((a ≡ false) ↔ A) → ((b ≡ false) ↔ B) → (a && b ≡ false) ↔ (A ⊎ B)
both_false_iff false b h k = (λ _. inl (h.0 refl), λ _. refl)
both_false_iff true b h k =
    (λ e. inr (k.0 e), λ e. elim e [ inl a ↦ absurd (cc (h.1 a)) | inr b ↦ k.1 b ])

-- An action is allowed offline exactly when its setting in the policy is ALLOWED, or CONDITIONAL
-- with no central decision due, and the policy has not run out: the instant up to which it holds,
-- if it has one, is not past, or the action is the reading of a weight or of a plate, the capture of
-- a document, an approval, or a change of the configuration, the users or the hardware.
pub evaluate_offline_action_iff :
    (policy : OfflinePolicy) (action : OfflineAction) (c : OfflineContext)
    → (is_granted (evaluate_offline_action policy action c) ≡ true) ↔ (
        (NotExpired policy.valid_until c.now_ms ⊎ IsDecidedWhenExpired action)
        × Permits policy c action)
unfolding evaluate_offline_action
evaluate_offline_action_iff policy action c =
    let given = decide_action_iff policy c action in
    let fresh =
      both_false_iff (is_config_stale policy c.now_ms) (action_needs_fresh_config action)
        (NotExpired-iff policy.valid_until c.now_ms) (IsDecidedWhenExpired-iff action) in
    elim (Bool-cases (is_config_stale policy c.now_ms && action_needs_fresh_config action)) [
      | inl stale ↦ rw stale (λ e. absurd (cc), λ (e, _). absurd (cc (fresh.1 e)))
      | inr f ↦ rw f (λ e. (fresh.0 f, given.0 e), λ (_, p). given.1 p)
    ]
