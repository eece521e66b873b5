-- ===== src/Weight/Decimal.antt =====
-- apps/api/src/domain/netWeight.ts: `kgToMilligrams` and `milligramsToKgDecimal`.
-- A text is the list of its code points. An amount is a whole number of thousandths of a kilogram,
-- which the code calls milligrams. `none` is the thrown error.
pub mod Digits
pub mod RoundTrip
use trinetra_systems.Common.{
  ℕ, zero, suc, ◌+◌, ◌-◌, ◌*◌, ◌/◌, ◌%◌, ltb, leb, length, all, includes, nat_eq, Bool, true, false,
  ◌&&◌, ◌||◌, not, List, [], ◌∷◌, ◌++◌, Option, none, some, ◌==◌, if◌then◌else◌,
}
use trinetra_systems.Common.Int.{ℤ, pos, negsuc, neg}

-- What `String.prototype.trim` removes: the white space and line terminators of ECMAScript.
abbrev pub is_space : ℕ → Bool
is_space c =
    (leb 9 c && leb c 13)
    || c == 32
    || c == 160
    || c == 0x1680
    || (leb 0x2000 c && leb c 0x200a)
    || c == 0x2028
    || c == 0x2029
    || c == 0x202f
    || c == 0x205f
    || c == 0x3000
    || c == 0xfeff

trim_start : List ℕ → List ℕ
trim_start [] = []
trim_start (c ∷ cs) = let rest = trim_start cs in if is_space c then rest else c ∷ cs

abbrev cons_unless_space : ℕ → List ℕ → List ℕ
cons_unless_space c [] = if is_space c then [] else c ∷ []
cons_unless_space c (d ∷ ds) = c ∷ d ∷ ds

trim_end : List ℕ → List ℕ
trim_end [] = []
trim_end (c ∷ cs) = cons_unless_space c (trim_end cs)

unfoldable pub trim : List ℕ → List ℕ
unfolding trim_start trim_end
trim text = trim_end (trim_start text)

-- `\d`
abbrev pub is_digit : ℕ → Bool
is_digit c = leb b'0' c && leb c b'9'

-- `BigInt(text)` of a text of digits
unfoldable pub value_from : ℕ → List ℕ → ℕ
value_from n [] = n
value_from n (c ∷ cs) = value_from (n * 10 + (c - b'0')) cs

-- `fraction.padEnd(3, "0")`
abbrev pub pad_end : List ℕ → List ℕ
pad_end [] = b'0' ∷ b'0' ∷ b'0' ∷ []
pad_end (a ∷ []) = a ∷ b'0' ∷ b'0' ∷ []
pad_end (a ∷ b ∷ []) = a ∷ b ∷ b'0' ∷ []
pad_end digits = digits

-- the digits in front, and what follows them
unfoldable pub split_digits : List ℕ → List ℕ × List ℕ
split_digits [] = ([], [])
split_digits (c ∷ cs) =
    let (digits, rest) = split_digits cs in if is_digit c then (c ∷ digits, rest) else ([], c ∷ cs)

-- `(\.\d{1,3})?$`: the digits of the fraction, none where the text does not match
unfoldable pub fraction_of : List ℕ → Option (List ℕ)
unfolding all
fraction_of [] = some []
fraction_of (c ∷ digits) =
    if c == b'.' && all is_digit digits && leb 1 (length digits) && leb (length digits) 3
    then some digits
    else none

abbrev pub amount_of : List ℕ → Option (List ℕ) → Option ℕ
amount_of [] fraction = none
amount_of (c ∷ cs) none = none
amount_of (c ∷ cs) (some digits) =
    some (value_from 0 (c ∷ cs) * 1000 + value_from 0 (pad_end digits))

-- the text without its sign
unfoldable pub unsigned_amount : List ℕ → Option ℕ
unsigned_amount text = let (whole, rest) = split_digits text in amount_of whole (fraction_of rest)

abbrev pub signed : Bool → Option ℕ → Option ℤ
signed negative none = none
signed true (some n) = some (neg (pos n))
signed false (some n) = some (pos n)

abbrev pub sign_and_amount : List ℕ → Option ℤ
sign_and_amount [] = none
sign_and_amount (c ∷ cs) =
    if c == b'-' then signed true (unsigned_amount cs) else signed false (unsigned_amount (c ∷ cs))

unfoldable pub kg_to_milligrams : List ℕ → Option ℤ
kg_to_milligrams text = sign_and_amount (trim text)

-- `n.toString()` on fuel: `digits_fuel (suc n) n` is complete
digits_fuel : ℕ → ℕ → List ℕ → List ℕ
digits_fuel zero n acc = acc
digits_fuel (suc fuel) n acc =
    let last = (b'0' + n % 10) ∷ acc in
    let more = digits_fuel fuel (n / 10) last in if ltb n 10 then last else more

unfoldable pub decimal : ℕ → List ℕ
unfolding digits_fuel
decimal n = digits_fuel (suc n) n []

-- `text.padStart(3, "0")`
abbrev pub pad_start : List ℕ → List ℕ
pad_start [] = b'0' ∷ b'0' ∷ b'0' ∷ []
pad_start (a ∷ []) = b'0' ∷ b'0' ∷ a ∷ []
pad_start (a ∷ b ∷ []) = b'0' ∷ a ∷ b ∷ []
pad_start digits = digits

unfoldable pub unsigned_decimal : ℕ → List ℕ
unsigned_decimal n = decimal (n / 1000) ++ b'.' ∷ pad_start (decimal (n % 1000))

unfoldable pub milligrams_to_kg_decimal : ℤ → List ℕ
milligrams_to_kg_decimal (pos n) = unsigned_decimal n
milligrams_to_kg_decimal (negsuc n) = b'-' ∷ unsigned_decimal (suc n)
