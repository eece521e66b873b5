-- ===== src/Common/Lists.antt =====
-- Lists measured and indexed by native numbers, and the array methods that take a Boolean test.
use Prim.Native.Nat.{ℕ, zero, suc, ◌-◌}
use mathlib.Core.Path.{◌≡◌, refl, sym, ap, ◌∙◌}
use mathlib.Core.Bool.{Bool, true, false, ◌&&◌, ◌||◌}
use mathlib.Core.List.{List, [], ◌∷◌, ◌++◌, map, Memᴰ}
use mathlib.Core.Logic.{inl, inr}
use mathlib.Core.Option.{Option, none, some}
use native.Mathlib.Omega.{arith}
use trinetra_systems.Common.Tests.{if◌then◌else◌, Bool-cases}

module _ {ℓ} {A : Type ℓ} where
  abbrev pub length : List A → ℕ
  length [] = 0
  length (x ∷ xs) = suc (length xs)

  unfoldable pub find : (A → Bool) → List A → Option A
  find p [] = none
  find p (x ∷ xs) = if p x then some x else find p xs

  unfoldable pub filter : (A → Bool) → List A → List A
  filter p [] = []
  filter p (x ∷ xs) = let rest = filter p xs in if p x then x ∷ rest else rest

  unfoldable pub any : (A → Bool) → List A → Bool
  any p [] = false
  any p (x ∷ xs) = p x || any p xs

  unfoldable pub all : (A → Bool) → List A → Bool
  all p [] = true
  all p (x ∷ xs) = p x && all p xs

  abbrev pub take : ℕ → List A → List A
  take zero xs = []
  take (suc n) [] = []
  take (suc n) (x ∷ xs) = x ∷ take n xs

  abbrev pub drop : ℕ → List A → List A
  drop zero xs = xs
  drop (suc n) [] = []
  drop (suc n) (x ∷ xs) = drop n xs

pub length-drop {ℓ} : {A : Type ℓ} (k : ℕ) (xs : List A) → length (drop k xs) ≡ length xs - k
length-drop zero xs = omega arith
length-drop (suc k) [] = omega arith
length-drop (suc k) (x ∷ xs) = omega (arith, length-drop k xs)

-- `xs.slice(-n)` for a positive n
unfoldable pub keep_last {ℓ} : {A : Type ℓ} → ℕ → List A → List A
keep_last n xs = drop (length xs - n) xs

module _ {ℓ κ} {A : Type ℓ} (P : A → Type κ) where
  abbrev pub All : List A → Type κ
  All [] = Unit
  All (x ∷ xs) = P x × All xs

module _ {ℓ} {A : Type ℓ} where
  pub filter-eq-nil :
      (p : A → Bool) (xs : List A) → filter p xs ≡ [] → (x : A) → Memᴰ x xs → p x ≡ false
  unfolding filter
  filter-eq-nil p [] h x m = elim m [ ]
  filter-eq-nil p (y ∷ ys) h x (Memᴰ.head e) = elim (Bool-cases (p y)) [
    | inl t ↦ absurd (cc (rw t at h))
    | inr f ↦ rw e f
  ]
  filter-eq-nil p (y ∷ ys) h x (Memᴰ.tail m) = filter-eq-nil p ys (ground arith) x m

  pub filter_of_none :
      (p : A → Bool) (xs : List A) → ((x : A) → Memᴰ x xs → p x ≡ false) → filter p xs ≡ []
  unfolding filter
  filter_of_none p [] h = refl
  filter_of_none p (y ∷ ys) h =
      rw (h y (Memᴰ.head refl)) (filter_of_none p ys (λ x m. h x (Memᴰ.tail m)))

  pub find-eq-some :
      (p : A → Bool) (xs : List A) (x : A) → find p xs ≡ some x → Memᴰ x xs × (p x ≡ true)
  unfolding find
  find-eq-some p [] x h = cc
  find-eq-some p (y ∷ ys) x h = elim (Bool-cases (p y)) [
    | inl t ↦ (Memᴰ.head (ground (arith)), ground arith)
    | inr f ↦ let (m, e) = find-eq-some p ys x (ground arith) in (Memᴰ.tail m, e)
  ]

  pub Mem-eq-any : (p : A → Bool) (xs : List A) (x : A) → any p xs ≡ false → Memᴰ x xs → p x ≡ false
  unfolding any
  Mem-eq-any p [] x h m = elim m [ ]
  Mem-eq-any p (y ∷ ys) x h (Memᴰ.head e) = rw e (ground arith)
  Mem-eq-any p (y ∷ ys) x h (Memᴰ.tail m) = Mem-eq-any p ys x (ground arith) m

  pub find_of_append :
      (p : A → Bool) (xs ys : List A) (x : A) → find p xs ≡ some x → find p (xs ++ ys) ≡ some x
  unfolding find
  find_of_append p [] ys x h = cc
  find_of_append p (y ∷ xs) ys x h = elim (Bool-cases (p y)) [
    | inl t ↦ rw t (rw t at h)
    | inr f ↦ rw f (find_of_append p xs ys x (rw f at h))
  ]

  pub find_appended :
      (p : A → Bool) (xs : List A) (x : A)
      → any p xs ≡ false
      → p x ≡ true
      → find p (xs ++ x ∷ []) ≡ some x
  unfolding find any
  find_appended p [] x h e = rw e refl
  find_appended p (y ∷ xs) x h e = elim (Bool-cases (p y)) [
    | inl t ↦ absurd (cc (rw t at h))
    | inr f ↦ rw f (find_appended p xs x (rw f at h) e)
  ]

module _ {ℓ κ} {A : Type ℓ} {B : Type κ} where
  -- Where a member of a mapped list comes from.
  pub Mem-map :
      (f : A → B) (xs : List A) (y : B) → Memᴰ y (map f xs) → (x : A) × Memᴰ x xs × (y ≡ f x)
  Mem-map f [] y m = elim m [ ]
  Mem-map f (x ∷ xs) y (Memᴰ.head e) = (x, Memᴰ.head refl, e)
  Mem-map f (x ∷ xs) y (Memᴰ.tail m) = let (z, at, e) = Mem-map f xs y m in (z, Memᴰ.tail at, e)

  pub map-Mem : (f : A → B) (xs : List A) (x : A) → Memᴰ x xs → Memᴰ (f x) (map f xs)
  map-Mem f [] x m = elim m [ ]
  map-Mem f (y ∷ ys) x (Memᴰ.head e) = Memᴰ.head (ap f e)
  map-Mem f (y ∷ ys) x (Memᴰ.tail m) = Memᴰ.tail (map-Mem f ys x m)

pub map-map {ℓ} :
    {A : Type ℓ} (f g : A → A) (xs : List A) → map f (map g xs) ≡ map (λ x. f (g x)) xs
map-map f g [] = refl
map-map f g (x ∷ xs) = ap (λ ys. f (g x) ∷ ys) (map-map f g xs)

module _ {ℓ} {A : Type ℓ} where
  pub filter-Mem :
      (p : A → Bool) (xs : List A) (a : A) → Memᴰ a (filter p xs) → Memᴰ a xs × (p a ≡ true)
  unfolding filter
  filter-Mem p [] a m = elim m [ ]
  filter-Mem p (x ∷ xs) a m = elim (Bool-cases (p x)) [
    | inl t ↦ elim (rw t at m) [
      | Memᴰ.head e ↦ (Memᴰ.head e, rw e t)
      | Memᴰ.tail n ↦ let (at, q) = filter-Mem p xs a n in (Memᴰ.tail at, q)
    ]
    | inr f ↦ let (at, q) = filter-Mem p xs a (rw f at m) in (Memᴰ.tail at, q)
  ]

  pub Mem-filter :
      (p : A → Bool) (xs : List A) (a : A) → Memᴰ a xs → p a ≡ true → Memᴰ a (filter p xs)
  unfolding filter
  Mem-filter p [] a m h = elim m [ ]
  Mem-filter p (x ∷ xs) a (Memᴰ.head e) h = rw (ap p (sym e) ∙ h) (Memᴰ.head e)
  Mem-filter p (x ∷ xs) a (Memᴰ.tail m) h = elim (Bool-cases (p x)) [
    | inl t ↦ rw t (Memᴰ.tail (Mem-filter p xs a m h))
    | inr f ↦ rw f (Mem-filter p xs a m h)
  ]

  pub take-Mem : (n : ℕ) (xs : List A) (a : A) → Memᴰ a (take n xs) → Memᴰ a xs
  take-Mem zero xs a m = elim m [ ]
  take-Mem (suc n) [] a m = elim m [ ]
  take-Mem (suc n) (x ∷ xs) a (Memᴰ.head e) = Memᴰ.head e
  take-Mem (suc n) (x ∷ xs) a (Memᴰ.tail m) = Memᴰ.tail (take-Mem n xs a m)
