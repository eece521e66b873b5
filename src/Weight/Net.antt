-- ===== src/Weight/Net.antt =====
-- apps/api/src/domain/netWeight.ts: `calculateNetWeight`. `none` is the thrown error.
use trinetra_systems.Common.{
  ℕ, ◌+◌, ◌<◌, Bool, true, List, Option, none, some, ◌≡◌, ◌↔◌, arith, Option-cases, inl, inr,
}
use trinetra_systems.Common.Int.{ℤ, pos, pos_part, neg_part, ◌+ℤ◌, ◌-ℤ◌, ltb_ℤ}
use trinetra_systems.Weight.Decimal.{kg_to_milligrams, milligrams_to_kg_decimal}
use trinetra_systems.Weight.Decimal.RoundTrip.{kg_to_milligrams-milligrams_to_kg_decimal}

pub record NetWeightResult : Type 0 where
  pub net_as_decimal : List ℕ
  pub tare_exceeds_gross : Bool
  pub net_milligrams : ℤ

abbrev pub net_result : ℤ → NetWeightResult
net_result net = record {
  net_as_decimal = milligrams_to_kg_decimal net;
  tare_exceeds_gross = ltb_ℤ net (pos 0);
  net_milligrams = net;
}

infixl 5 ◌>>=◌
abbrev ◌>>=◌ {ℓ κ} : {A : Type ℓ} {B : Type κ} → Option A → (A → Option B) → Option B
none >>= k = none
some a >>= k = k a

unfoldable pub calculate_net_weight : List ℕ → List ℕ → Option NetWeightResult
calculate_net_weight gross tare = do
  a ← kg_to_milligrams gross
  b ← kg_to_milligrams tare
  some (net_result (a -ℤ b))

abbrev pub ◌<ℤ◌ : ℤ → ℤ → Type 0
◌<ℤ◌ a b = pos_part a + neg_part b < pos_part b + neg_part a

sub_add : (a b : ℤ) → (a -ℤ b) +ℤ b ≡ a
unfolding ◌+ℤ◌ ◌-ℤ◌
sub_add a b = ground arith

pub sub_negative : (a b : ℤ) → ltb_ℤ (a -ℤ b) (pos 0) ≡ ltb_ℤ a b
unfolding ◌-ℤ◌
sub_negative a b = ground arith

sub_negative_iff : (a b : ℤ) → (ltb_ℤ (a -ℤ b) (pos 0) ≡ true) ↔ ◌<ℤ◌ a b
unfolding ◌-ℤ◌
sub_negative_iff a b = ground arith

-- For two weights that can be read the net weight is their exact difference, its text reads back
-- as the difference, and the tare is reported to exceed the gross weight exactly when it does.
pub calculate_net_weight_lem :
    (gross tare : List ℕ) (a b : ℤ)
    → kg_to_milligrams gross ≡ some a
    → kg_to_milligrams tare ≡ some b
    → (r : NetWeightResult) × (calculate_net_weight gross tare ≡ some r)
      × (r.net_milligrams +ℤ b ≡ a)
      × (kg_to_milligrams r.net_as_decimal ≡ some r.net_milligrams)
      × ((r.tare_exceeds_gross ≡ true) ↔ ◌<ℤ◌ a b)
unfolding calculate_net_weight
calculate_net_weight_lem gross tare a b p q = (
  net_result (a -ℤ b),
  rw (p, q),
  sub_add a b,
  kg_to_milligrams-milligrams_to_kg_decimal (a -ℤ b),
  sub_negative_iff a b,
)

-- A net weight that is given is of two weights that can be read.
pub calculate_net_weight-eq-some :
    (gross tare : List ℕ) (r : NetWeightResult)
    → calculate_net_weight gross tare ≡ some r
    → (a : ℤ) × (b : ℤ) × (kg_to_milligrams gross ≡ some a)
      × (kg_to_milligrams tare ≡ some b)
      × (r ≡ net_result (a -ℤ b))
unfolding calculate_net_weight
calculate_net_weight-eq-some gross tare r h = elim (Option-cases (kg_to_milligrams gross)) [
  | inl none_a ↦ absurd (cc (rw none_a at h))
  | inr (a, read_a) ↦ elim (Option-cases (kg_to_milligrams tare)) [
    | inl none_b ↦ absurd (cc (rw (read_a, none_b) at h))
    | inr (b, read_b) ↦ (a, b, read_a, read_b, cc (rw (read_a, read_b) at h))
  ]
]
