-- ===== src/Common/Equality.antt =====
-- `===` as an interface: a Boolean test that decides equality.
use Prim.Native.Nat.{ℕ}
use Prim.Native.String.{String}
use mathlib.Core.Path.{◌≡◌, refl, sym, ◌∙◌}
use mathlib.Core.Logic.{◌↔◌, inl, inr}
use mathlib.Core.Bool.{Bool, true, false, ◌||◌, not}
use mathlib.Core.List.{List, [], ◌∷◌, ◌++◌, Memᴰ}
use native.Mathlib.Omega.{arith}
use text.Mathlib.Text.{◌==◌ as str_eq}
use text.Mathlib.TextEquality.{eq_iff}
use trinetra_systems.Common.Tests.{eqb, eqb_iff, Bool-cases}

pub record Eq {ℓ} (A : Type ℓ) : Type ℓ where
  pub test_equal : A → A → Bool
  pub test_iff : (a b : A) → (test_equal a b ≡ true) ↔ (a ≡ b)

infix 50 ◌==◌ ◌!=◌
abbrev pub ◌==◌ {ℓ} : {A : Type ℓ} ⦃e : Eq A⦄ → A → A → Bool
◌==◌ ⦃e⦄ = e.test_equal

abbrev pub ◌!=◌ {ℓ} : {A : Type ℓ} ⦃e : Eq A⦄ → A → A → Bool
◌!=◌ ⦃e⦄ a b = not (e.test_equal a b)

instance abbrev pub nat_eq : Eq ℕ
nat_eq = record { test_equal = eqb; test_iff = eqb_iff }

instance abbrev pub string_eq : Eq String
string_eq = record { test_equal = str_eq; test_iff = eq_iff }

-- The test that a decision gives.
abbrev pub is_yes {ℓ} : {A : Type ℓ} → Dec A → Bool
is_yes (yes p) = true
is_yes (no p) = false

pub is_yes_iff {ℓ} : {A : Type ℓ} (d : Dec A) → (is_yes d ≡ true) ↔ A
is_yes_iff (yes p) = ((λ _. p), (λ _. refl))
is_yes_iff (no p) = ((λ e. absurd (cc)), (λ a. absurd (p a)))

-- An enumeration compares by its decision.
abbrev pub eq_of {ℓ} : {A : Type ℓ} → Discrete A → Eq A
eq_of d = record { test_equal = λ a b. is_yes (d a b); test_iff = λ a b. is_yes_iff (d a b) }

module _ {ℓ} {A : Type ℓ} ⦃e : Eq A⦄ where
  -- `Array.prototype.includes`
  unfoldable pub includes : List A → A → Bool
  includes [] a = false
  includes (x ∷ xs) a = x == a || includes xs a

  pub eq_refl : (a : A) → (a == a) ≡ true
  eq_refl a = (e.test_iff a a).1 refl

module _ {ℓ} {A : Type ℓ} ⦃e : Eq A⦄ where
  pub includes→Mem : (xs : List A) (a : A) → includes xs a ≡ true → Memᴰ a xs
  unfolding includes
  includes→Mem [] a h = cc
  includes→Mem (x ∷ xs) a h = elim (Bool-cases (e.test_equal x a)) [
    | inl t ↦ Memᴰ.head (sym ((e.test_iff x a).0 t))
    | inr f ↦ Memᴰ.tail (includes→Mem xs a (ground arith))
  ]

  pub Mem→includes : (xs : List A) (a : A) → Memᴰ a xs → includes xs a ≡ true
  unfolding includes
  Mem→includes [] a m = elim m [ ]
  Mem→includes (x ∷ xs) a (Memᴰ.head h) = rw ((e.test_iff x a).1 (sym h))
  Mem→includes (x ∷ xs) a (Memᴰ.tail m) = ground (arith, Mem→includes xs a m)

  pub includes_of_nil : (xs : List A) (a : A) → xs ≡ [] → includes xs a ≡ false
  unfolding includes
  includes_of_nil [] a h = refl
  includes_of_nil (x ∷ xs) a h = cc

  pub eq_comm : (a b : A) → (a == b) ≡ (b == a)
  eq_comm a b = elim (Bool-cases (e.test_equal a b)) [
    | inl t ↦ t ∙ sym ((e.test_iff b a).1 (sym ((e.test_iff a b).0 t)))
    | inr f ↦ elim (Bool-cases (e.test_equal b a)) [
      | inl t ↦ absurd (cc (f, (e.test_iff a b).1 (sym ((e.test_iff b a).0 t))))
      | inr g ↦ f ∙ sym g
    ]
  ]

  pub includes-append :
      (xs ys : List A) (a : A) → includes (xs ++ ys) a ≡ includes xs a || includes ys a
  unfolding includes
  includes-append [] ys a = refl
  includes-append (x ∷ xs) ys a = ground (arith, includes-append xs ys a)
