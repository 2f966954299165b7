-- ===== src/Prelude/Lists.antt =====
-- Lists with Boolean tests: the queries and bulk updates that the services run over rows.
use Prim.Native.Nat.{ℕ, suc, ◌≤◌}
use mathlib.Core.Path.{◌≡◌, refl}
use mathlib.Core.Logic.{inl, inr}
use mathlib.Core.Bool.{Bool, true, false, ◌&&◌, ◌||◌}
use mathlib.Core.Option.{Option, none, some}
use mathlib.Core.List.{List, [], ◌∷◌, ◌++◌}
use native.Mathlib.Omega.{arith}
use iceberg_ttx.Prelude.Tests.{if◌then◌else◌, Bool-cases}
use iceberg_ttx.Prelude.Classes.{Eq, ◌==◌}

module _ {ℓ} {A : Type ℓ} where
  abbrev pub length : List A → ℕ
  length [] = 0
  length (x ∷ xs) = suc (length xs)

  abbrev pub any : (A → Bool) → List A → Bool
  any p [] = false
  any p (x ∷ xs) = p x || any p xs

  abbrev pub all : (A → Bool) → List A → Bool
  all p [] = true
  all p (x ∷ xs) = p x && all p xs

  -- SELECT ... WHERE p
  abbrev pub select : (A → Bool) → List A → List A
  select p [] = []
  select p (x ∷ xs) = let rest = select p xs in if p x then x ∷ rest else rest

  -- The first row of a query, `.first()` or `.one_or_none()`.
  abbrev pub find : (A → Bool) → List A → Option A
  find p [] = none
  find p (x ∷ xs) = if p x then some x else find p xs

  -- UPDATE ... WHERE p
  abbrev pub update : (A → Bool) → (A → A) → List A → List A
  update p f [] = []
  update p f (x ∷ xs) = (if p x then f x else x) ∷ update p f xs

  abbrev pub null : List A → Bool
  null [] = true
  null (x ∷ xs) = false

  -- A predicate of every element, by recursion.
  abbrev pub All {κ} : (A → Type κ) → List A → Type κ
  All P [] = Unit
  All P (x ∷ xs) = P x × All P xs

module _ {ℓ} {A : Type ℓ} where
  pub find-holds : (p : A → Bool) (xs : List A) {x : A} → find p xs ≡ some x → p x ≡ true
  find-holds p [] h = cc
  find-holds p (y ∷ xs) {x} h = elim (Bool-cases (p y)) [
    | inl t ↦ let q : y ≡ x = ground arith in rw q at t
    | inr f ↦ find-holds p xs (ground arith)
  ]

  pub any-append : (p : A → Bool) (xs ys : List A) → any p (xs ++ ys) ≡ (any p xs || any p ys)
  any-append p [] ys = refl
  any-append p (x ∷ xs) ys = ground (arith, any-append p xs ys)

  pub All-append {κ} : (P : A → Type κ) (ys zs : List A) → All P ys → All P zs → All P (ys ++ zs)
  All-append P [] zs hy hz = hz
  All-append P (y ∷ ys) zs hy hz = (hy.0, All-append P ys zs hy.1 hz)

  pub All-find {κ} :
      (P : A → Type κ) (p : A → Bool) (xs : List A) {x : A} → All P xs → find p xs ≡ some x → P x
  All-find P p [] h e = cc
  All-find P p (y ∷ xs) {x} h e = elim (Bool-cases (p y)) [
    | inl t ↦ let q : y ≡ x = ground arith in rw q at h.0
    | inr f ↦ All-find P p xs h.1 (ground arith)
  ]

  pub All-update {κ} :
      (P : A → Type κ) (p : A → Bool) (f : A → A)
      → ((x : A) → p x ≡ true → P x → P (f x))
      → (xs : List A) → All P xs
      → All P (update p f xs)
  All-update P p f keep [] h = tt
  All-update P p f keep (x ∷ xs) h = elim (Bool-cases (p x)) [
    | inl t ↦ rw t (keep x t h.0, All-update P p f keep xs h.1)
    | inr n ↦ rw n (h.0, All-update P p f keep xs h.1)
  ]

  pub any-select : (p q : A → Bool) (xs : List A) → any p (select q xs) ≡ any (λ x. q x && p x) xs
  any-select p q [] = refl
  any-select p q (x ∷ xs) = ground (arith, any-select p q xs)

  pub length-select-le : (p : A → Bool) (xs : List A) → length (select p xs) ≤ length xs
  length-select-le p [] = omega arith
  length-select-le p (x ∷ xs) = ground (arith, length-select-le p xs)

  pub length-update : (p : A → Bool) (f : A → A) (xs : List A) → length (update p f xs) ≡ length xs
  length-update p f [] = refl
  length-update p f (x ∷ xs) = ground (arith, length-update p f xs)

module _ {ℓ} {A : Type ℓ} ⦃e : Eq A⦄ where
  -- x in xs
  abbrev pub contains : A → List A → Bool
  contains x = any (λ y. x == y)

  -- len(xs) != len(set(xs))
  abbrev pub has_duplicates : List A → Bool
  has_duplicates [] = false
  has_duplicates (x ∷ xs) = contains x xs || has_duplicates xs

  -- A set, as the list of the first occurrences from the right.
  abbrev pub to_set : List A → List A
  to_set [] = []
  to_set (x ∷ xs) = let rest = to_set xs in if contains x rest then rest else x ∷ rest
