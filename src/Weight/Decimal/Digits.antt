-- ===== src/Weight/Decimal/Digits.antt =====
-- The decimal digits of a number: their value and their characters.
use trinetra_systems.Common.{
  ℕ, zero, suc, ◌+◌, ◌/◌, ◌%◌, ◌<◌, ltb, length, all, nat_eq, Bool, true, ◌&&◌, List, [], ◌∷◌, ◌≡◌,
  ◌≢◌, refl, ap, ◌∙◌, arith, inl, inr, Bool-cases, ◌==◌,
}
use trinetra_systems.Weight.Decimal.{is_digit, value_from, digits_fuel, decimal, pad_start}

value_from-digits_fuel :
    (fuel n : ℕ) (acc : List ℕ)
    → n < fuel
    → value_from 0 (digits_fuel fuel n acc) ≡ value_from n acc
unfolding value_from digits_fuel
value_from-digits_fuel zero n acc h = absurd (omega arith)
value_from-digits_fuel (suc fuel) n acc h = elim (Bool-cases (ltb n 10)) [
  | inl small ↦ rw small (ap (λ k. value_from k acc) (ground arith))
  | inr large ↦ rw large (
      value_from-digits_fuel fuel (n / 10) ((b'0' + n % 10) ∷ acc) (ground arith)
      ∙ ap (λ k. value_from k acc) (omega arith))
]

all-digits_fuel :
    (fuel n : ℕ) (acc : List ℕ)
    → all is_digit acc ≡ true
    → all is_digit (digits_fuel fuel n acc) ≡ true
unfolding all digits_fuel
all-digits_fuel zero n acc h = h
all-digits_fuel (suc fuel) n acc h =
    let digit : is_digit (b'0' + n % 10) ≡ true = ground arith in
    let more = all-digits_fuel fuel (n / 10) ((b'0' + n % 10) ∷ acc) (rw digit h) in
    elim (Bool-cases (ltb n 10)) [ inl small ↦ rw small (rw digit h) | inr large ↦ rw large more ]

-- A number is the value of its decimal digits.
pub value_from-decimal : (n : ℕ) → value_from 0 (decimal n) ≡ n
unfolding decimal value_from
value_from-decimal n = value_from-digits_fuel (suc n) n [] (omega arith)

pub all-decimal : (n : ℕ) → all is_digit (decimal n) ≡ true
unfolding decimal all
all-decimal n = all-digits_fuel (suc n) n [] refl

digits_fuel-ne-nil : (fuel n c : ℕ) (acc : List ℕ) → digits_fuel fuel n (c ∷ acc) ≢ []
unfolding digits_fuel
digits_fuel-ne-nil zero n c acc = λ h. cc
digits_fuel-ne-nil (suc fuel) n c acc = elim (Bool-cases (ltb n 10)) [
  | inl small ↦ rw small (λ h. cc)
  | inr large ↦ rw large (digits_fuel-ne-nil fuel (n / 10) (b'0' + n % 10) (c ∷ acc))
]

pub decimal-ne-nil : (n : ℕ) → decimal n ≢ []
unfolding decimal
decimal-ne-nil n = elim (Bool-cases (ltb n 10)) [
  | inl small ↦ rw small (λ h. cc)
  | inr large ↦ rw large (digits_fuel-ne-nil n (n / 10) (b'0' + n % 10) [])
]

-- Over the fractions every value is checked by evaluation.
every_fraction : (ℕ → Bool) → ℕ → Bool
every_fraction test zero = true
every_fraction test (suc bound) = every_fraction test bound && test bound

every_fraction_lem :
    (test : ℕ → Bool) (bound f : ℕ) → f < bound → every_fraction test bound ≡ true → test f ≡ true
unfolding every_fraction
every_fraction_lem test zero f l h = absurd (omega arith)
every_fraction_lem test (suc bound) f l h = ground (arith, every_fraction_lem test bound f)

-- The test of a padded fraction: three digits with the fraction's value.
fits : ℕ → Bool
fits f =
    let padded = pad_start (decimal f) in
    length padded == 3 && all is_digit padded && value_from 0 padded == f

fits_table : every_fraction fits 1000 ≡ true
unfolding every_fraction fits decimal all value_from
fits_table = refl

pub record IsFraction (f : ℕ) : Type 0 where
  pub three : length (pad_start (decimal f)) ≡ 3
  pub digits : all is_digit (pad_start (decimal f)) ≡ true
  pub value : value_from 0 (pad_start (decimal f)) ≡ f

pub pad_start-IsFraction : (f : ℕ) → f < 1000 → IsFraction f
unfolding fits
pad_start-IsFraction f h = let ok = every_fraction_lem fits 1000 f h fits_table in ground arith
