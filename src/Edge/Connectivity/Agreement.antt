-- ===== src/Edge/Connectivity/Agreement.antt =====
-- The gateway and the server take an observation in the same way.
use trinetra_systems.Common.{Bool, ◌≡◌, arith}
use trinetra_systems.Edge.Connectivity.{
  connectivity_eq, HysteresisConfig, Observation, Manager, connected, reached_state,
  observe_connectivity, manager_reached, manager_lost, manager_machine, observe,
}

-- what the gateway takes an observation to be while a disconnect is simulated
abbrev pub as_seen : Bool → Observation → Observation
as_seen simulated o = record o {
  internet_online = connected simulated o.internet_online;
  backend_reachable = connected simulated o.backend_reachable;
}

-- The gateway's connectivity after an observation is the one that the server derives from the
-- same counters, once a simulated disconnect has hidden the network from the observation.
pub observe-observe_connectivity :
    (config : HysteresisConfig) (m : Manager) (o : Observation)
    → (observe config m o).machine
      ≡ observe_connectivity config m.machine (as_seen m.simulated_disconnect o)
unfolding observe observe_connectivity manager_machine manager_reached manager_lost reached_state
observe-observe_connectivity config m o = ground arith
