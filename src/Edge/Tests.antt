-- ===== src/Edge/Tests.antt =====
-- The gateway's connectivity and policy at sample values.
use trinetra_systems.Common.{◌≤◌, true, false, [], ◌∷◌, some, ◌≡◌, ◌↔◌, ◌⊎◌, refl, arith}
use trinetra_systems.Edge.Connectivity.{
  ConnectivityState, ConnectivityState-discrete, default_hysteresis, Observation,
  create_connectivity_machine, Manager, observe, observe_connectivity,
}
use trinetra_systems.Edge.Connectivity.Agreement.{as_seen, observe-observe_connectivity}
use trinetra_systems.Edge.Connectivity.Hysteresis.{observe_all, is_offline, observe_all-offline_iff}
use trinetra_systems.Edge.OfflinePolicy.{
  OfflineCapability, OfflinePolicy, OfflineAction, OfflineContext, is_granted,
  evaluate_offline_action,
}
use trinetra_systems.Edge.OfflinePolicy.Granted.{
  NotExpired, IsDecidedWhenExpired, Permits, evaluate_offline_action_iff,
}

abbrev lost : Observation
lost = record {
  internet_online = false;
  backend_reachable = false;
  hardware_online = true;
  auth_failed = false;
  is_syncing = false;
  pending_critical = 0;
  open_conflicts = 0;
}

abbrev gateway : Manager
gateway = record {
  simulated_disconnect = false;
  machine = create_connectivity_machine ConnectivityState.online;
  events = [];
}

observe-observe_connectivity_example :
    (observe default_hysteresis gateway lost).machine
    ≡ observe_connectivity default_hysteresis gateway.machine (as_seen false lost)
observe-observe_connectivity_example = observe-observe_connectivity default_hysteresis gateway lost

three_lost : is_offline gateway.machine ≡ false
unfolding ConnectivityState-discrete
three_lost = refl

observe_all-offline_iff_example :
    (is_offline (observe_all default_hysteresis gateway.machine (lost ∷ lost ∷ lost ∷ [])) ≡ true)
    ↔ (3 ≤ 3)
observe_all-offline_iff_example =
    observe_all-offline_iff default_hysteresis gateway.machine (lost ∷ lost ∷ lost ∷ [])
      ((refl, refl), ((refl, refl), ((refl, refl), tt))) three_lost (omega arith)

abbrev away : Manager
away = record gateway { machine = create_connectivity_machine ConnectivityState.offline }

-- the defaults of the policy, valid until the instant 100
abbrev default_policy : OfflinePolicy
default_policy = record {
  valid_until = some 100;
  allow_weight_read = true;
  allow_anpr = true;
  allow_document_capture = true;
  allow_basic_transaction_recording = true;
  allow_weight_anomaly_detection = true;
  transaction_completion = OfflineCapability.conditional;
  material_verification = OfflineCapability.conditional;
  approvals = OfflineCapability.blocked;
  config_changes = OfflineCapability.blocked;
  user_management = OfflineCapability.blocked;
  hardware_config_changes = OfflineCapability.blocked;
}

abbrev alone : OfflineContext
alone = record {
  now_ms = 50;
  requires_central_authorization = false;
  approval_required = false;
  material_verification_required = false;
}

evaluate_offline_action_iff_example :
    (is_granted (evaluate_offline_action default_policy OfflineAction.transaction_completion alone)
      ≡ true)
    ↔ ((NotExpired (some 100) 50 ⊎ IsDecidedWhenExpired OfflineAction.transaction_completion)
        × Permits default_policy alone OfflineAction.transaction_completion)
evaluate_offline_action_iff_example =
    evaluate_offline_action_iff default_policy OfflineAction.transaction_completion alone
