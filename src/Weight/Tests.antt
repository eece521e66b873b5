-- ===== src/Weight/Tests.antt =====
-- Weights of 3.5 kg and 1.25 kg.
use trinetra_systems.Common.{ℕ, all, true, List, [], ◌∷◌, some, ◌≡◌, ◌↔◌, refl}
use trinetra_systems.Common.Int.{pos, negsuc, ◌+ℤ◌}
use trinetra_systems.Weight.Decimal.{
  trim, value_from, split_digits, fraction_of, unsigned_amount, kg_to_milligrams,
  milligrams_to_kg_decimal,
}
use trinetra_systems.Weight.Decimal.RoundTrip.{kg_to_milligrams-milligrams_to_kg_decimal}
use trinetra_systems.Weight.Net.{
  NetWeightResult, calculate_net_weight, calculate_net_weight_lem, ◌<ℤ◌,
}

abbrev gross : List ℕ
gross = b'3' ∷ b'.' ∷ b'5' ∷ []

abbrev tare : List ℕ
tare = b'1' ∷ b'.' ∷ b'2' ∷ b'5' ∷ []

unfoldable computed : Unit {0}
unfolding trim value_from split_digits fraction_of unsigned_amount kg_to_milligrams all
computed = tt

reads_gross : kg_to_milligrams gross ≡ some (pos 3500)
unfolding computed
reads_gross = refl

reads_tare : kg_to_milligrams tare ≡ some (pos 1250)
unfolding computed
reads_tare = refl

kg_to_milligrams-milligrams_to_kg_decimal_example :
    kg_to_milligrams (milligrams_to_kg_decimal (negsuc 1249)) ≡ some (negsuc 1249)
kg_to_milligrams-milligrams_to_kg_decimal_example =
    kg_to_milligrams-milligrams_to_kg_decimal (negsuc 1249)

calculate_net_weight_lem_example :
    (r : NetWeightResult) × (calculate_net_weight gross tare ≡ some r)
    × (r.net_milligrams +ℤ pos 1250 ≡ pos 3500)
    × (kg_to_milligrams r.net_as_decimal ≡ some r.net_milligrams)
    × ((r.tare_exceeds_gross ≡ true) ↔ ◌<ℤ◌ (pos 3500) (pos 1250))
calculate_net_weight_lem_example =
    calculate_net_weight_lem gross tare (pos 3500) (pos 1250) reads_gross reads_tare
