-- ===== src/Edge/Connectivity.antt =====
-- apps/api/src/domain/connectivityState.ts and apps/edge/src/connectivity/manager.ts: the states
-- of a connection, as the server derives them and as the gateway keeps them.
pub mod Agreement
pub mod Hysteresis
use trinetra_systems.Common.{
  ℕ, ◌+◌, Bool, true, false, not, ◌&&◌, ◌||◌, List, [], ◌∷◌, Eq, eq_of, ◌==◌, ◌!=◌, ltb, leb,
  if◌then◌else◌,
}

pub data ConnectivityState : Type 0 where
  online degraded offline syncing recovering error : ConnectivityState

unfoldable pub ConnectivityState-discrete : Discrete ConnectivityState
ConnectivityState-discrete = hlevel

instance abbrev pub connectivity_eq : Eq ConnectivityState
connectivity_eq = eq_of ConnectivityState-discrete

pub record HysteresisConfig : Type 0 where
  pub fail_threshold : ℕ
  pub recover_threshold : ℕ

abbrev pub default_hysteresis : HysteresisConfig
default_hysteresis = record { fail_threshold = 3; recover_threshold = 2 }

pub record Observation : Type 0 where
  pub internet_online : Bool
  pub backend_reachable : Bool
  pub hardware_online : Bool
  pub auth_failed : Bool
  pub is_syncing : Bool
  pub pending_critical : ℕ
  pub open_conflicts : ℕ

pub record Machine : Type 0 where
  pub state : ConnectivityState
  pub consecutive_failures : ℕ
  pub consecutive_successes : ℕ

abbrev pub create_connectivity_machine : ConnectivityState → Machine
create_connectivity_machine state = record {
  state = state;
  consecutive_failures = 0;
  consecutive_successes = 0;
}

abbrev pub was_away : ConnectivityState → Bool
was_away s =
    s == ConnectivityState.offline
    || s == ConnectivityState.recovering
    || s == ConnectivityState.syncing
    || s == ConnectivityState.error

abbrev pub is_partial : Observation → Bool
is_partial o = not o.hardware_online || not o.internet_online

-- the state after an answer of the backend
unfoldable pub reached_state :
    HysteresisConfig → ConnectivityState → ℕ → Observation → ConnectivityState
reached_state config state successes o =
    if o.is_syncing
    then ConnectivityState.syncing
    else if was_away state
    then if ltb successes config.recover_threshold
      then ConnectivityState.recovering
      else if ltb 0 o.pending_critical || ltb 0 o.open_conflicts
      then ConnectivityState.recovering
      else if is_partial o
      then ConnectivityState.degraded
      else ConnectivityState.online
    else if is_partial o
    then ConnectivityState.degraded
    else ConnectivityState.online

unfoldable pub observe_connectivity : HysteresisConfig → Machine → Observation → Machine
observe_connectivity config m o =
    if o.auth_failed
    then record {
      state = ConnectivityState.error;
      consecutive_failures = m.consecutive_failures + 1;
      consecutive_successes = 0;
    }
    else if o.backend_reachable
    then record {
      state = reached_state config m.state (m.consecutive_successes + 1) o;
      consecutive_failures = 0;
      consecutive_successes = m.consecutive_successes + 1;
    }
    else if ltb (m.consecutive_failures + 1) config.fail_threshold
        && m.state != ConnectivityState.offline
    then record {
      state = if m.state == ConnectivityState.online then ConnectivityState.degraded else m.state;
      consecutive_failures = m.consecutive_failures + 1;
      consecutive_successes = 0;
    }
    else record {
      state = ConnectivityState.offline;
      consecutive_failures = m.consecutive_failures + 1;
      consecutive_successes = 0;
    }

-- The fields of the gateway's `ConnectivityManager`, with the events that it writes to the audit
-- log of its store, the last one first.
pub data Entered : Type 0 where
  offline_entered online_restored : ConnectivityState → Entered

pub record Manager : Type 0 where
  pub simulated_disconnect : Bool
  pub machine : Machine
  pub events : List Entered

abbrev pub connected : Bool → Bool → Bool
connected simulated observed = if simulated then false else observed

unfoldable pub simulate_disconnect : HysteresisConfig → Bool → Manager → Manager
simulate_disconnect config away m =
    if away
    then record m {
      simulated_disconnect = true;
      machine = record m.machine {
        state = ConnectivityState.offline;
        consecutive_failures = config.fail_threshold;
      };
    }
    else record m { simulated_disconnect = false }

unfoldable pub is_backend_online : Manager → Bool
is_backend_online m =
    not m.simulated_disconnect
    && (m.machine.state == ConnectivityState.online
        || m.machine.state == ConnectivityState.degraded
        || m.machine.state == ConnectivityState.syncing)

-- `this.state` after the three branches of `observe`
unfoldable pub manager_reached :
    HysteresisConfig → ConnectivityState → ℕ → Bool → Observation → ConnectivityState
manager_reached config previous successes internet o =
    if o.is_syncing
    then ConnectivityState.syncing
    else if was_away previous
    then if ltb successes config.recover_threshold
        || ltb 0 o.pending_critical
        || ltb 0 o.open_conflicts
      then ConnectivityState.recovering
      else if not o.hardware_online || not internet
      then ConnectivityState.degraded
      else ConnectivityState.online
    else if not o.hardware_online || not internet
    then ConnectivityState.degraded
    else ConnectivityState.online

unfoldable pub manager_lost : HysteresisConfig → ConnectivityState → ℕ → ConnectivityState
manager_lost config previous failures =
    if leb config.fail_threshold failures || previous == ConnectivityState.offline
    then ConnectivityState.offline
    else if previous == ConnectivityState.online
    then ConnectivityState.degraded
    else previous

unfoldable pub manager_machine : HysteresisConfig → Machine → Bool → Bool → Observation → Machine
manager_machine config m internet backend o =
    if o.auth_failed
    then record {
      state = ConnectivityState.error;
      consecutive_failures = m.consecutive_failures + 1;
      consecutive_successes = 0;
    }
    else if backend
    then record {
      state = manager_reached config m.state (m.consecutive_successes + 1) internet o;
      consecutive_failures = 0;
      consecutive_successes = m.consecutive_successes + 1;
    }
    else record {
      state = manager_lost config m.state (m.consecutive_failures + 1);
      consecutive_failures = m.consecutive_failures + 1;
      consecutive_successes = 0;
    }

abbrev pub entered : ConnectivityState → ConnectivityState → List Entered → List Entered
entered previous next events =
    let gone =
      if previous != ConnectivityState.offline && next == ConnectivityState.offline
      then Entered.offline_entered previous ∷ events
      else events in
    if previous != ConnectivityState.online && next == ConnectivityState.online
    then Entered.online_restored previous ∷ gone
    else gone

unfoldable pub observe : HysteresisConfig → Manager → Observation → Manager
observe config m o =
    let machine =
      manager_machine config m.machine (connected m.simulated_disconnect o.internet_online)
        (connected m.simulated_disconnect o.backend_reachable) o in
    record m { machine = machine; events = entered m.machine.state machine.state m.events }
