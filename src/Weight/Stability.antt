-- ===== src/Weight/Stability.antt =====
-- apps/api/src/domain/stability.ts: whether a row of readings is stable. A reading is a number of
-- thousandths of a kilogram, an instant a number of milliseconds. Readings are natural numbers, as
-- the parsers of the indicators refuse a weight of zero or less, and `consecutive_readings` is
-- positive, as the check of the configuration asks.
pub mod Window
pub mod History
pub mod Tests
use trinetra_systems.Common.{
  ℕ, keep_last, ◌+◌, ◌-◌, ◌≤◌, min, max, length, drop, ltb, leb, Bool, true, false, List, [], ◌∷◌,
  ◌++◌, Option, none, some, ◌≡◌, ◌↔◌, refl, arith, if◌then◌else◌,
}

pub data WeightQuality : Type 0 where
  stable unstable invalid no_data device_error : WeightQuality

pub record StabilityConfig : Type 0 where
  pub tolerance : ℕ
  pub consecutive_readings : ℕ
  pub duration_ms : ℕ

pub record Sample : Type 0 where
  pub milli_kg : ℕ
  pub at_ms : ℕ

unfoldable pub smallest : ℕ → List Sample → ℕ
smallest least [] = least
smallest least (s ∷ samples) = smallest (if ltb s.milli_kg least then s.milli_kg else least) samples

unfoldable pub greatest : ℕ → List Sample → ℕ
greatest most [] = most
greatest most (s ∷ samples) = greatest (if ltb most s.milli_kg then s.milli_kg else most) samples

abbrev pub last_of : Sample → List Sample → Sample
last_of s [] = s
last_of s (next ∷ samples) = last_of next samples

abbrev pub quality_of : StabilityConfig → List Sample → WeightQuality
quality_of config [] = WeightQuality.unstable
quality_of config (first ∷ rest) =
    let last = last_of first rest in
    let window = first ∷ rest in
    if ltb last.at_ms (first.at_ms + config.duration_ms)
    then WeightQuality.unstable
    else if leb (greatest first.milli_kg window) (smallest first.milli_kg window + config.tolerance)
    then WeightQuality.stable
    else WeightQuality.unstable

unfoldable pub quality : StabilityConfig → List Sample → WeightQuality
quality config samples =
    if ltb (length samples) config.consecutive_readings
    then WeightQuality.unstable
    else quality_of config (keep_last config.consecutive_readings samples)

abbrev pub kept_samples : StabilityConfig → ℕ
kept_samples config = max config.consecutive_readings 8

unfoldable pub add : StabilityConfig → Sample → List Sample → List Sample × WeightQuality
add config sample samples =
    let pushed = samples ++ sample ∷ [] in
    let kept =
      if ltb (kept_samples config) (length pushed)
      then keep_last (kept_samples config) pushed
      else pushed in
    (kept, quality config kept)
