-- ===== src/Weight/Parse.antt =====
-- apps/api/src/domain/weight.ts: the weight that an operator enters.
-- A number is its thousandths, so it is finite and has three decimals at most.
use trinetra_systems.Common.{
  ℕ, zero, suc, filter, nat_eq, ltb, Bool, true, false, ◌||◌, List, [], ◌∷◌, Option, none, some,
  ◌!=◌, if◌then◌else◌,
}
use trinetra_systems.Common.Int.{ℤ, pos, negsuc}
use trinetra_systems.Weight.Decimal.{trim, unsigned_amount, unsigned_decimal}

pub record WeightLimits : Type 0 where
  pub min_kg : ℕ
  pub max_kg : ℕ

pub record ParsedWeight : Type 0 where
  pub kg : ℕ
  pub as_decimal : List ℕ

pub data WeightError : Type 0 where
  required not_positive negative not_greater_than_zero : WeightError

pub data WeightInput : Type 0 where
  number : ℤ → WeightInput
  text : List ℕ → WeightInput
  other : WeightInput

pub data Parsed : Type 0 where
  parsed : ParsedWeight → Parsed
  invalid : WeightError → Parsed

abbrev validated : ℕ → List ℕ → Parsed
validated zero digits = Parsed.invalid WeightError.not_greater_than_zero
validated (suc n) digits = Parsed.parsed (record { kg = suc n; as_decimal = digits })

-- `value.trim().replace(/,/g, "")`
abbrev pub normalized : List ℕ → List ℕ
normalized value = filter (λ c. c != b',') (trim value)

abbrev is_blank : List ℕ → Bool
is_blank [] = true
is_blank (c ∷ cs) = false

abbrev parsed_amount : List ℕ → Option ℕ → Parsed
parsed_amount digits none = Parsed.invalid WeightError.not_positive
parsed_amount digits (some n) = validated n digits

unfoldable pub parse_weight_kg : WeightInput → Parsed
parse_weight_kg (WeightInput.number (pos n)) = validated n (unsigned_decimal n)
parse_weight_kg (WeightInput.number (negsuc n)) = Parsed.invalid WeightError.negative
parse_weight_kg (WeightInput.text value) =
    if is_blank (trim value)
    then Parsed.invalid WeightError.required
    else parsed_amount (normalized value) (unsigned_amount (normalized value))
parse_weight_kg WeightInput.other = Parsed.invalid WeightError.required

-- `assertWeightWithinLimits`: whether the weight is refused
unfoldable pub outside_limits : ParsedWeight → WeightLimits → Bool
outside_limits weight limits = ltb weight.kg limits.min_kg || ltb limits.max_kg weight.kg
