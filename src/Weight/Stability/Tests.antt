-- ===== src/Weight/Stability/Tests.antt =====
-- A live reading at sample values.
use trinetra_systems.Common.{◌≤◌, keep_last, length, ◌++◌, List, [], ◌∷◌, ◌≡◌, ◌↔◌}
use trinetra_systems.Weight.Stability.{
  WeightQuality, StabilityConfig, Sample, kept_samples, quality, add,
}
use trinetra_systems.Weight.Stability.Window.{IsSteady, quality-stable_iff}
use trinetra_systems.Weight.Stability.History.{add-quality}

abbrev simulator : StabilityConfig
simulator = record { tolerance = 5000; consecutive_readings = 3; duration_ms = 1000 }

abbrev readings : List Sample
readings =
    record { milli_kg = 900; at_ms = 0 }
    ∷ record { milli_kg = 24100000; at_ms = 500 }
    ∷ record { milli_kg = 24103000; at_ms = 1000 }
    ∷ record { milli_kg = 24101000; at_ms = 1600 }
    ∷ []

quality-stable_iff_example :
    (quality simulator readings ≡ WeightQuality.stable)
    ↔ ((3 ≤ length readings) × IsSteady simulator (keep_last 3 readings))
quality-stable_iff_example = quality-stable_iff simulator readings

abbrev settled : Sample
settled = record { milli_kg = 24102000; at_ms = 2100 }

add-quality_example : add simulator settled (keep_last (kept_samples simulator) readings) ≡ (
  keep_last (kept_samples simulator) (readings ++ settled ∷ []),
  quality simulator (readings ++ settled ∷ []),
)
add-quality_example = add-quality simulator readings settled
