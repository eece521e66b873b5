-- ===== src/Edge/Connectivity/Hysteresis.antt =====
-- How many observations it takes to go offline, and to come back.
use trinetra_systems.Common.{
  ◌+◌, ◌≤◌, ◌<◌, Bool, Bool-cases, true, false, not, ◌&&◌, List, [], ◌∷◌, All, length, ◌==◌, ltb,
  ◌≡◌, ◌↔◌, ◌⊎◌, inl, inr, arith,
}
use trinetra_systems.Edge.Connectivity.{
  ConnectivityState, ConnectivityState-discrete, connectivity_eq, HysteresisConfig, Observation,
  Machine, Manager, observe, observe_connectivity,
}

-- observations, the first one first
unfoldable pub observe_all : HysteresisConfig → Machine → List Observation → Machine
observe_all config m [] = m
observe_all config m (o ∷ os) = observe_all config (observe_connectivity config m o) os

abbrev pub IsLost : Observation → Type 0
IsLost o = (o.auth_failed ≡ false) × (o.backend_reachable ≡ false)

abbrev pub is_offline : Machine → Bool
is_offline m = m.state == ConnectivityState.offline

lost_step :
    (config : HysteresisConfig) (m : Machine) (o : Observation)
    → IsLost o
    → ((observe_connectivity config m o).consecutive_failures ≡ m.consecutive_failures + 1)
      × (is_offline (observe_connectivity config m o)
          ≡ not (ltb (m.consecutive_failures + 1) config.fail_threshold && not (is_offline m)))
unfolding observe_connectivity ConnectivityState-discrete
lost_step config m o h = (ground arith, ground arith)

stays_offline :
    (config : HysteresisConfig) (m : Machine) (os : List Observation)
    → All IsLost os
    → is_offline m ≡ true
    → is_offline (observe_all config m os) ≡ true
unfolding observe_all
stays_offline config m [] h e = e
stays_offline config m (o ∷ os) (h, hs) e =
    let (_, s) = lost_step config m o h in
    stays_offline config (observe_connectivity config m o) os hs (ground arith)

-- While the backend does not answer, a connection that was not offline is offline from the
-- observation on at which the failures in a row reach the threshold, and not before.
pub observe_all-offline_iff :
    (config : HysteresisConfig) (m : Machine) (os : List Observation)
    → All IsLost os
    → is_offline m ≡ false
    → m.consecutive_failures < config.fail_threshold
    → (is_offline (observe_all config m os) ≡ true)
      ↔ (config.fail_threshold ≤ m.consecutive_failures + length os)
unfolding observe_all
observe_all-offline_iff config m [] h e few = ground arith
observe_all-offline_iff config m (o ∷ os) (h, hs) e few =
    let (count, s) = lost_step config m o h in
    let next = observe_connectivity config m o in
    elim (Bool-cases (ltb (m.consecutive_failures + 1) config.fail_threshold)) [
      | inl more ↦
          let ih = observe_all-offline_iff config next os hs (ground arith) (ground arith) in
          (λ p. ground (arith, ih.0 p), λ q. ih.1 (ground arith))
      | inr less ↦ (λ _. ground arith, λ _. stays_offline config next os hs (ground arith))
    ]

-- the gateway's observations, the first one first
unfoldable pub observe_every : HysteresisConfig → Manager → List Observation → Manager
observe_every config m [] = m
observe_every config m (o ∷ os) = observe_every config (observe config m o) os

-- A connection that was lost and has not come back.
abbrev pub IsDown : ConnectivityState → Type 0
IsDown s =
    (s ≡ ConnectivityState.offline)
    ⊎ (s ≡ ConnectivityState.recovering)
    ⊎ (s ≡ ConnectivityState.error)

abbrev pub IsNotSyncing : Observation → Type 0
IsNotSyncing o = o.is_syncing ≡ false
