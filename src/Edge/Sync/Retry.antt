-- ===== src/Edge/Sync/Retry.antt =====
-- The delay before a retry, and the number of retries.
use native.Mathlib.Nat.{pow-succ'}
use trinetra_systems.Common.{
  ℕ, suc, ◌+◌, ◌*◌, ◌^◌, ◌≤◌, min, length, List, [], ◌∷◌, String, ◌≡◌, ◌↔◌, arith,
}
use trinetra_systems.Edge.Events.{QueueStatus, QueuedEvent, next_retry_delay_ms, should_retry}
use trinetra_systems.Edge.Sync.{SyncConfig, failed_patch}

doubled : (base p max_ms : ℕ) → min max_ms (base * (2 * p)) ≡ min max_ms (2 * min max_ms (base * p))
doubled base p max_ms = grind arith

-- The delay is the base for an event that has not failed, doubles with each failure, and is cut at
-- the maximum at each of these steps.
pub next_retry_delay_ms_bounds :
    (retry_count base_ms max_ms : ℕ)
    → (next_retry_delay_ms 0 base_ms max_ms ≡ min max_ms base_ms)
      × (next_retry_delay_ms (suc retry_count) base_ms max_ms
          ≡ min max_ms (2 * next_retry_delay_ms retry_count base_ms max_ms))
      × (next_retry_delay_ms retry_count base_ms max_ms ≤ max_ms)
unfolding next_retry_delay_ms
next_retry_delay_ms_bounds r base max_ms =
    (omega arith, rw (pow-succ' 2 r) (doubled base (2 ^ r) max_ms), omega arith)

-- failures one after the other, each at an instant and with a message
unfoldable pub failures : SyncConfig → List (ℕ × String) → QueuedEvent → QueuedEvent
failures config [] e = e
failures config ((now, message) ∷ rest) e =
    failures config rest (failed_patch config now e message e)

failures-retry_count :
    (config : SyncConfig) (causes : List (ℕ × String)) (e : QueuedEvent)
    → (failures config causes e).retry_count ≡ e.retry_count + length causes
unfolding failures
failures-retry_count config [] e = omega arith
failures-retry_count config ((now, message) ∷ rest) e =
    omega (arith, failures-retry_count config rest (failed_patch config now e message e))

-- An event that fails again and again is dead from the failure on that reaches the greatest number
-- of retries, and waits for a retry before it.
pub failures-dead_letter_iff :
    (config : SyncConfig) (causes : List (ℕ × String)) (now : ℕ) (message : String)
    (e : QueuedEvent)
    → ((failures config ((now, message) ∷ causes) e).status ≡ QueueStatus.dead_letter)
      ↔ (config.max_retries ≤ e.retry_count + suc (length causes))
unfolding failures should_retry
failures-dead_letter_iff config [] now message e = ground arith
failures-dead_letter_iff config ((later, next) ∷ causes) now message e =
    let ih =
      failures-dead_letter_iff config causes later next (failed_patch config now e message e) in
    (λ h. omega (arith, ih.0 h), λ h. ih.1 (omega arith))
