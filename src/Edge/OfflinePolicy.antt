-- ===== src/Edge/OfflinePolicy.antt =====
-- apps/api/src/domain/offlinePolicy.ts: what a gateway may do without the server.
pub mod Granted
use trinetra_systems.Common.{
  ℕ, Bool, Bool-cases, true, false, ◌&&◌, ◌||◌, Eq, eq_of, ◌==◌, ltb, Option, none, some,
  if◌then◌else◌, ◌≡◌, ◌↔◌, ◌⊎◌, ◌≤◌, inl, inr, refl, arith,
}

pub data OfflineCapability : Type 0 where
  allowed conditional blocked : OfflineCapability

-- `valid_until` is the instant of the policy's `validUntil`, where it is a date. The version, the
-- source, the time stamp and the greatest age are not read by the decisions.
pub record OfflinePolicy : Type 0 where
  pub valid_until : Option ℕ
  pub allow_weight_read : Bool
  pub allow_anpr : Bool
  pub allow_document_capture : Bool
  pub allow_basic_transaction_recording : Bool
  pub allow_weight_anomaly_detection : Bool
  pub transaction_completion : OfflineCapability
  pub material_verification : OfflineCapability
  pub approvals : OfflineCapability
  pub config_changes : OfflineCapability
  pub user_management : OfflineCapability
  pub hardware_config_changes : OfflineCapability

pub data OfflineAction : Type 0 where
  read_weight anpr document_capture basic_transaction weight_anomaly : OfflineAction
  transaction_completion material_verification approval config_change : OfflineAction
  user_management hardware_config : OfflineAction

unfoldable pub OfflineAction-discrete : Discrete OfflineAction
OfflineAction-discrete = hlevel

instance abbrev pub action_eq : Eq OfflineAction
action_eq = eq_of OfflineAction-discrete

-- A flag that the caller leaves out is `false`.
pub record OfflineContext : Type 0 where
  pub now_ms : ℕ
  pub requires_central_authorization : Bool
  pub approval_required : Bool
  pub material_verification_required : Bool

-- the reasons of `OfflineDecision`; a block names what was asked for
pub data OfflineDecision : Type 0 where
  granted granted_conditionally refresh_required : OfflineDecision
  refused : OfflineAction → OfflineDecision

abbrev pub is_granted : OfflineDecision → Bool
is_granted OfflineDecision.granted = true
is_granted OfflineDecision.granted_conditionally = true
is_granted OfflineDecision.refresh_required = false
is_granted (OfflineDecision.refused action) = false

abbrev pub is_config_stale : OfflinePolicy → ℕ → Bool
is_config_stale policy now = elim policy.valid_until [ none ↦ false | some until ↦ ltb until now ]

unfoldable pub action_needs_fresh_config : OfflineAction → Bool
action_needs_fresh_config action =
    action == OfflineAction.transaction_completion
    || action == OfflineAction.material_verification
    || action == OfflineAction.weight_anomaly
    || action == OfflineAction.basic_transaction

abbrev pub flag : Bool → OfflineAction → OfflineDecision
flag permitted action =
    if permitted then OfflineDecision.granted else OfflineDecision.refused action

abbrev pub capability : OfflineCapability → Bool → OfflineAction → OfflineDecision
capability OfflineCapability.allowed central action = OfflineDecision.granted
capability OfflineCapability.conditional central action =
    if central then OfflineDecision.refused action else OfflineDecision.granted_conditionally
capability OfflineCapability.blocked central action = OfflineDecision.refused action

-- the `switch` over the action
unfoldable pub decide_action : OfflinePolicy → OfflineContext → OfflineAction → OfflineDecision
decide_action policy c OfflineAction.read_weight =
    flag policy.allow_weight_read OfflineAction.read_weight
decide_action policy c OfflineAction.anpr = flag policy.allow_anpr OfflineAction.anpr
decide_action policy c OfflineAction.document_capture =
    flag policy.allow_document_capture OfflineAction.document_capture
decide_action policy c OfflineAction.basic_transaction =
    flag policy.allow_basic_transaction_recording OfflineAction.basic_transaction
decide_action policy c OfflineAction.weight_anomaly =
    flag policy.allow_weight_anomaly_detection OfflineAction.weight_anomaly
decide_action policy c OfflineAction.transaction_completion =
    capability policy.transaction_completion
      (c.requires_central_authorization || c.approval_required) OfflineAction.transaction_completion
decide_action policy c OfflineAction.material_verification =
    capability policy.material_verification
      (c.material_verification_required || c.requires_central_authorization)
      OfflineAction.material_verification
decide_action policy c OfflineAction.approval =
    capability policy.approvals true OfflineAction.approval
decide_action policy c OfflineAction.config_change =
    capability policy.config_changes true OfflineAction.config_change
decide_action policy c OfflineAction.user_management =
    capability policy.user_management true OfflineAction.user_management
decide_action policy c OfflineAction.hardware_config =
    capability policy.hardware_config_changes true OfflineAction.hardware_config

unfoldable pub evaluate_offline_action :
    OfflinePolicy → OfflineAction → OfflineContext → OfflineDecision
evaluate_offline_action policy action c =
    if is_config_stale policy c.now_ms && action_needs_fresh_config action
    then OfflineDecision.refresh_required
    else decide_action policy c action
