-- ===== src/Weight/Stability/Window.antt =====
-- The window of a stable reading.
use trinetra_systems.Common.{
  ℕ, ◌+◌, ◌≤◌, keep_last, length, ltb, Memᴰ, Bool-cases, List, [], ◌∷◌, ◌≡◌, ◌↔◌, ◌⊎◌, refl, inl,
  inr, arith,
}
use trinetra_systems.Weight.Stability.{
  WeightQuality, StabilityConfig, Sample, smallest, greatest, last_of, quality_of, quality,
}

from_le_greatest : (most : ℕ) (samples : List Sample) → most ≤ greatest most samples
unfolding greatest
from_le_greatest most [] = omega arith
from_le_greatest most (s ∷ samples) = elim (Bool-cases (ltb most s.milli_kg)) [
  | inl t ↦ rw t (ground (arith, from_le_greatest s.milli_kg samples, t))
  | inr f ↦ rw f (from_le_greatest most samples)
]

le_greatest :
    (most : ℕ) (samples : List Sample) (a : Sample)
    → Memᴰ a samples
    → a.milli_kg ≤ greatest most samples
unfolding greatest
le_greatest most [] a m = elim m [ ]
le_greatest most (s ∷ samples) a (Memᴰ.head e) = elim (Bool-cases (ltb most s.milli_kg)) [
  | inl t ↦ rw (t, e) (from_le_greatest s.milli_kg samples)
  | inr f ↦ rw (f, e) (ground (arith, from_le_greatest most samples, f))
]
le_greatest most (s ∷ samples) a (Memᴰ.tail m) = elim (Bool-cases (ltb most s.milli_kg)) [
  | inl t ↦ rw t (le_greatest s.milli_kg samples a m)
  | inr f ↦ rw f (le_greatest most samples a m)
]

greatest_attained :
    (most : ℕ) (samples : List Sample)
    → (greatest most samples ≡ most)
      ⊎ ((a : Sample) × Memᴰ a samples × (greatest most samples ≡ a.milli_kg))
unfolding greatest
greatest_attained most [] = inl refl
greatest_attained most (s ∷ samples) = elim (Bool-cases (ltb most s.milli_kg)) [
  | inl t ↦ elim (greatest_attained s.milli_kg samples) [
    | inl e ↦ inr (s, Memᴰ.head refl, rw t e)
    | inr (a, m, e) ↦ inr (a, Memᴰ.tail m, rw t e)
  ]
  | inr f ↦ elim (greatest_attained most samples) [
    | inl e ↦ inl (rw f e)
    | inr (a, m, e) ↦ inr (a, Memᴰ.tail m, rw f e)
  ]
]

smallest_le_from : (least : ℕ) (samples : List Sample) → smallest least samples ≤ least
unfolding smallest
smallest_le_from least [] = omega arith
smallest_le_from least (s ∷ samples) = elim (Bool-cases (ltb s.milli_kg least)) [
  | inl t ↦ rw t (ground (arith, smallest_le_from s.milli_kg samples, t))
  | inr f ↦ rw f (smallest_le_from least samples)
]

smallest_le :
    (least : ℕ) (samples : List Sample) (a : Sample)
    → Memᴰ a samples
    → smallest least samples ≤ a.milli_kg
unfolding smallest
smallest_le least [] a m = elim m [ ]
smallest_le least (s ∷ samples) a (Memᴰ.head e) = elim (Bool-cases (ltb s.milli_kg least)) [
  | inl t ↦ rw (t, e) (smallest_le_from s.milli_kg samples)
  | inr f ↦ rw (f, e) (ground (arith, smallest_le_from least samples, f))
]
smallest_le least (s ∷ samples) a (Memᴰ.tail m) = elim (Bool-cases (ltb s.milli_kg least)) [
  | inl t ↦ rw t (smallest_le s.milli_kg samples a m)
  | inr f ↦ rw f (smallest_le least samples a m)
]

smallest_attained :
    (least : ℕ) (samples : List Sample)
    → (smallest least samples ≡ least)
      ⊎ ((a : Sample) × Memᴰ a samples × (smallest least samples ≡ a.milli_kg))
unfolding smallest
smallest_attained least [] = inl refl
smallest_attained least (s ∷ samples) = elim (Bool-cases (ltb s.milli_kg least)) [
  | inl t ↦ elim (smallest_attained s.milli_kg samples) [
    | inl e ↦ inr (s, Memᴰ.head refl, rw t e)
    | inr (a, m, e) ↦ inr (a, Memᴰ.tail m, rw t e)
  ]
  | inr f ↦ elim (smallest_attained least samples) [
    | inl e ↦ inl (rw f e)
    | inr (a, m, e) ↦ inr (a, Memᴰ.tail m, rw f e)
  ]
]

attained_in :
    (first : Sample) (rest : List Sample) (n : ℕ)
    → (n ≡ first.milli_kg) ⊎ ((a : Sample) × Memᴰ a (first ∷ rest) × (n ≡ a.milli_kg))
    → (a : Sample) × Memᴰ a (first ∷ rest) × (n ≡ a.milli_kg)
attained_in first rest n (inl e) = (first, Memᴰ.head refl, e)
attained_in first rest n (inr found) = found

-- A window is steady when it takes its time and any two of its readings are within the tolerance.
abbrev pub IsSteady : StabilityConfig → List Sample → Type 0
IsSteady config [] = ⊥
IsSteady config (first ∷ rest) =
    (first.at_ms + config.duration_ms ≤ (last_of first rest).at_ms)
    × ((a b : Sample)
        → Memᴰ a (first ∷ rest)
        → Memᴰ b (first ∷ rest)
        → a.milli_kg ≤ b.milli_kg + config.tolerance)

spread :
    (first : Sample) (rest : List Sample) (tolerance : ℕ)
    → ((a b : Sample)
        → Memᴰ a (first ∷ rest)
        → Memᴰ b (first ∷ rest)
        → a.milli_kg ≤ b.milli_kg + tolerance)
    → greatest first.milli_kg (first ∷ rest) ≤ smallest first.milli_kg (first ∷ rest) + tolerance
spread first rest tolerance close =
    let (a, m, top) = attained_in first rest _ (greatest_attained first.milli_kg (first ∷ rest)) in
    let (b, n, low) = attained_in first rest _ (smallest_attained first.milli_kg (first ∷ rest)) in
    omega (arith, close a b m n, top, low)

quality_of-stable_iff :
    (config : StabilityConfig) (window : List Sample)
    → (quality_of config window ≡ WeightQuality.stable) ↔ IsSteady config window
quality_of-stable_iff config [] = (λ h. cc, λ h. absurd h)
quality_of-stable_iff config (first ∷ rest) = (
  λ h. (
    ground (arith, h),
    λ a b m n.
        let top = le_greatest first.milli_kg (first ∷ rest) a m in
        let low = smallest_le first.milli_kg (first ∷ rest) b n in ground (arith, h, top, low),
  ),
  λ h. ground (arith, h.0, spread first rest config.tolerance h.1),
)

-- A row of readings is stable exactly when it is long enough and its last readings, as many as
-- the configuration asks for, are steady.
pub quality-stable_iff :
    (config : StabilityConfig) (samples : List Sample)
    → (quality config samples ≡ WeightQuality.stable) ↔ (
        (config.consecutive_readings ≤ length samples)
        × IsSteady config (keep_last config.consecutive_readings samples))
unfolding quality
quality-stable_iff config samples =
    let steady = quality_of-stable_iff config (keep_last config.consecutive_readings samples) in
    elim (Bool-cases (ltb (length samples) config.consecutive_readings)) [
      | inl t ↦ rw t (λ h. cc, λ h. absurd (ground (arith, h.0, t)))
      | inr f ↦ rw f (λ h. (ground (arith, f), steady.0 h), λ h. steady.1 h.1)
    ]
