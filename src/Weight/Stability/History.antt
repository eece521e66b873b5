-- ===== src/Weight/Stability/History.antt =====
-- The tracker keeps the last readings only.
use trinetra_systems.Common.{
  ℕ, zero, suc, ◌+◌, ◌-◌, ◌≤◌, min, keep_last, length-drop, drop, length, ltb, Bool-cases, List, [],
  ◌∷◌, ◌++◌, ◌≡◌, refl, sym, ap, ap₂, ◌∙◌, inl, inr, arith, if◌then◌else◌,
}
use trinetra_systems.Weight.Stability.{
  WeightQuality, StabilityConfig, Sample, quality_of, quality, kept_samples, add,
}

drop-append : (n : ℕ) (xs ys : List Sample) → n ≤ length xs → drop n xs ++ ys ≡ drop n (xs ++ ys)
drop-append zero xs ys h = refl
drop-append (suc n) [] ys h = absurd (omega arith)
drop-append (suc n) (x ∷ xs) ys h = drop-append n xs ys (omega arith)

drop_nil : (n : ℕ) → drop {A = Sample} n [] ≡ []
drop_nil zero = refl
drop_nil (suc n) = refl

drop-drop : (a b : ℕ) (xs : List Sample) → drop a (drop b xs) ≡ drop (b + a) xs
drop-drop a zero xs = ap (λ n. drop n xs) (omega arith)
drop-drop a (suc b) [] = drop_nil a ∙ sym (drop_nil (suc b + a))
drop-drop a (suc b) (x ∷ xs) =
    let more : suc (b + a) ≡ suc b + a = omega arith in
    drop-drop a b xs ∙ ap (λ n. drop n (x ∷ xs)) more

pushed_length : (xs : List Sample) (x : Sample) → length (xs ++ x ∷ []) ≡ length xs + 1
pushed_length [] x = omega arith
pushed_length (y ∷ xs) x = omega (arith, pushed_length xs x)

-- keeping the last ones of what was kept
keep_last-keep_last :
    (n k : ℕ) (xs : List Sample) → n ≤ k → keep_last n (keep_last k xs) ≡ keep_last n xs
unfolding keep_last
keep_last-keep_last n k xs le =
    let over = length xs - k in
    let same : over + (length (drop over xs) - n) ≡ length xs - n =
      omega (arith, length-drop over xs) in
    drop-drop (length (drop over xs) - n) over xs ∙ ap (λ m. drop m xs) same

length-keep_last : (k : ℕ) (xs : List Sample) → length (keep_last k xs) ≡ min k (length xs)
unfolding keep_last
length-keep_last k xs = omega (arith, length-drop (length xs - k) xs)

-- a reading added to what was kept of the earlier ones
kept_more :
    (k : ℕ) (xs : List Sample) (x : Sample)
    → keep_last k (keep_last k xs ++ x ∷ []) ≡ keep_last k (xs ++ x ∷ [])
unfolding keep_last
kept_more k xs x =
    let all = xs ++ x ∷ [] in
    let over = length xs - k in
    let inner : drop over xs ++ x ∷ [] ≡ drop over all =
      drop-append over xs (x ∷ []) (omega arith) in
    let same : over + (length (drop over all) - k) ≡ length all - k =
      omega (arith, length-drop over all, pushed_length xs x) in
    ap (λ ys. drop (length ys - k) ys) inner
    ∙ drop-drop (length (drop over all) - k) over all
    ∙ ap (λ m. drop m all) same

kept_short : (k : ℕ) (xs : List Sample) → length xs ≤ k → keep_last k xs ≡ xs
unfolding keep_last
kept_short k xs le =
    let none_over : length xs - k ≡ 0 = omega arith in ap (λ m. drop m xs) none_over

quality-keep_last :
    (config : StabilityConfig) (xs : List Sample)
    → quality config (keep_last (kept_samples config) xs) ≡ quality config xs
unfolding quality
quality-keep_last config xs =
    let n = config.consecutive_readings in
    let k = kept_samples config in
    let test : ltb (length (keep_last k xs)) n ≡ ltb (length xs) n =
      ground (arith, length-keep_last k xs) in
    ap₂ (λ short window. if short then WeightQuality.unstable else quality_of config window) test
      (keep_last-keep_last n k xs (omega arith))

-- The tracker, which keeps some of the last readings only, answers as if it kept them all, and its
-- state is what is left of the whole row.
pub add-quality :
    (config : StabilityConfig) (readings : List Sample) (x : Sample)
    → add config x (keep_last (kept_samples config) readings)
      ≡ (keep_last (kept_samples config) (readings ++ x ∷ []), quality config (readings ++ x ∷ []))
unfolding add
add-quality config readings x =
    let k = kept_samples config in
    let pushed = keep_last k readings ++ x ∷ [] in
    let all = readings ++ x ∷ [] in
    elim (Bool-cases (ltb k (length pushed))) [
      | inl t ↦ rw t (
          ap (λ kept. (kept, quality config kept)) (kept_more k readings x)
          ∙ ap (λ q. (keep_last k all, q)) (quality-keep_last config all))
      | inr f ↦ rw f (
          ap (λ kept. (kept, quality config kept))
            (sym (kept_short k pushed (ground (arith, f))) ∙ kept_more k readings x)
          ∙ ap (λ q. (keep_last k all, q)) (quality-keep_last config all))
    ]
