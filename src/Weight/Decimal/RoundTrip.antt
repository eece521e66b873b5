-- ===== src/Weight/Decimal/RoundTrip.antt =====
-- Reading back a printed amount.
use trinetra_systems.Common.{
  ℕ, suc, ◌+◌, ◌*◌, ◌/◌, ◌%◌, length, all, nat_eq, Bool, true, false, ◌||◌, List, [], ◌∷◌, ◌++◌,
  some, ◌≡◌, ◌≢◌, refl, ap, ◌∙◌, arith, ◌==◌,
}
use trinetra_systems.Common.Int.{ℤ, pos, negsuc, neg-pos_suc}
use trinetra_systems.Weight.Decimal.{
  trim_start, trim_end, trim, is_digit, value_from, pad_end, pad_start, split_digits, fraction_of,
  amount_of, unsigned_amount, sign_and_amount, signed, kg_to_milligrams, decimal, unsigned_decimal,
  milligrams_to_kg_decimal,
}
use trinetra_systems.Weight.Decimal.Digits.{
  value_from-decimal, all-decimal, decimal-ne-nil, pad_start-IsFraction,
}

-- The characters of a printed amount.
abbrev is_printed : ℕ → Bool
is_printed c = is_digit c || c == b'.' || c == b'-'

trim_start_of_printed : (cs : List ℕ) → all is_printed cs ≡ true → trim_start cs ≡ cs
unfolding trim_start all
trim_start_of_printed [] h = refl
trim_start_of_printed (c ∷ cs) h = ground arith

trim_end_of_printed : (cs : List ℕ) → all is_printed cs ≡ true → trim_end cs ≡ cs
unfolding trim_end all
trim_end_of_printed [] h = refl
trim_end_of_printed (c ∷ []) h = ground arith
trim_end_of_printed (c ∷ d ∷ ds) h =
    let rest : trim_end (d ∷ ds) ≡ d ∷ ds = trim_end_of_printed (d ∷ ds) (ground arith) in
    rw (rest, trim_end)

trim_of_printed : (cs : List ℕ) → all is_printed cs ≡ true → trim cs ≡ cs
unfolding trim
trim_of_printed cs h = rw (trim_start_of_printed cs h) (trim_end_of_printed cs h)

split_digits-append :
    (xs ys : List ℕ) → all is_digit xs ≡ true → split_digits (xs ++ b'.' ∷ ys) ≡ (xs, b'.' ∷ ys)
unfolding split_digits all
split_digits-append [] ys h = refl
split_digits-append (x ∷ xs) ys h = ground (arith, split_digits-append xs ys)

pad_end_of_three : (ds : List ℕ) → length ds ≡ 3 → pad_end ds ≡ ds
pad_end_of_three [] h = absurd (omega arith)
pad_end_of_three (a ∷ []) h = absurd (omega arith)
pad_end_of_three (a ∷ b ∷ []) h = absurd (omega arith)
pad_end_of_three (a ∷ b ∷ c ∷ ds) h = refl

fraction_of_three :
    (ds : List ℕ) → length ds ≡ 3 → all is_digit ds ≡ true → fraction_of (b'.' ∷ ds) ≡ some ds
unfolding fraction_of
fraction_of_three ds l a = rw (l, a)

all-printed :
    (xs ys : List ℕ)
    → all is_digit xs ≡ true
    → all is_digit ys ≡ true
    → all is_printed (xs ++ b'.' ∷ ys) ≡ true
unfolding all
all-printed [] [] h k = refl
all-printed [] (y ∷ ys) h k = ground (arith, all-printed [] ys)
all-printed (x ∷ xs) ys h k = ground (arith, all-printed xs ys)

amount_of_cons :
    (whole fraction : List ℕ)
    → whole ≢ []
    → amount_of whole (some fraction)
      ≡ some (value_from 0 whole * 1000 + value_from 0 (pad_end fraction))
amount_of_cons [] fraction n = absurd (n refl)
amount_of_cons (c ∷ cs) fraction n = refl

pub unsigned_amount-unsigned_decimal : (n : ℕ) → unsigned_amount (unsigned_decimal n) ≡ some n
unfolding unsigned_amount unsigned_decimal
unsigned_amount-unsigned_decimal n =
    let fraction = pad_start-IsFraction (n % 1000) (omega arith) in
    rw
      (
        split_digits-append (decimal (n / 1000)) (pad_start (decimal (n % 1000)))
            (all-decimal (n / 1000)),
        fraction_of_three (pad_start (decimal (n % 1000))) fraction.three fraction.digits,
        amount_of_cons (decimal (n / 1000)) (pad_start (decimal (n % 1000)))
            (decimal-ne-nil (n / 1000)),
        pad_end_of_three (pad_start (decimal (n % 1000))) fraction.three,
        value_from-decimal (n / 1000),
        fraction.value,
      )
      (ap some (omega arith))

unsigned_decimal-printed : (n : ℕ) → all is_printed (unsigned_decimal n) ≡ true
unfolding unsigned_decimal
unsigned_decimal-printed n =
    all-printed (decimal (n / 1000)) (pad_start (decimal (n % 1000))) (all-decimal (n / 1000))
      (pad_start-IsFraction (n % 1000) (omega arith)).digits

-- A text that begins with a digit has no sign.
sign_of_digits :
    (xs ys : List ℕ)
    → xs ≢ []
    → all is_digit xs ≡ true
    → sign_and_amount (xs ++ ys) ≡ signed false (unsigned_amount (xs ++ ys))
unfolding all
sign_of_digits [] ys n h = absurd (n refl)
sign_of_digits (x ∷ xs) ys n h = let other : (x == b'-') ≡ false = ground arith in rw other

sign_and_amount-unsigned_decimal : (n : ℕ) → sign_and_amount (unsigned_decimal n) ≡ some (pos n)
unfolding unsigned_decimal
sign_and_amount-unsigned_decimal n =
    sign_of_digits (decimal (n / 1000)) (b'.' ∷ pad_start (decimal (n % 1000)))
      (decimal-ne-nil (n / 1000)) (all-decimal (n / 1000))
    ∙ ap (signed false) (unsigned_amount-unsigned_decimal n)

-- Reading back the printed form of any amount, negative ones included, gives the amount.
pub kg_to_milligrams-milligrams_to_kg_decimal :
    (amount : ℤ) → kg_to_milligrams (milligrams_to_kg_decimal amount) ≡ some amount
unfolding kg_to_milligrams milligrams_to_kg_decimal
kg_to_milligrams-milligrams_to_kg_decimal (pos n) =
    rw (trim_of_printed (unsigned_decimal n) (unsigned_decimal-printed n))
      (sign_and_amount-unsigned_decimal n)
kg_to_milligrams-milligrams_to_kg_decimal (negsuc n) =
    let printed : all is_printed (b'-' ∷ unsigned_decimal (suc n)) ≡ true =
      unfold all in unsigned_decimal-printed (suc n) in
    rw (trim_of_printed (b'-' ∷ unsigned_decimal (suc n)) printed)
      (rw (unsigned_amount-unsigned_decimal (suc n)) (ap some (neg-pos_suc n)))
