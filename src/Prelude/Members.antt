-- ===== src/Prelude/Members.antt =====
-- The Boolean queries and membership.
use Prim.Native.Nat.{◌<◌}
use mathlib.Core.Path.{◌≡◌, refl, sym, ap}
use mathlib.Core.Logic.{◌⊎◌, inl, inr}
use mathlib.Core.Bool.{Bool, true, false}
use mathlib.Core.Option.{none, some}
use mathlib.Core.List.{List, [], ◌∷◌, map, Memᴰ}
use mathlib.Core.List.Memᴰ
use native.Mathlib.Omega.{arith}
use iceberg_ttx.Prelude.Tests.{Bool-cases, is_none}
use iceberg_ttx.Prelude.Lists.{any, all, find, select, length, All, length-select-le}

module _ {ℓ} {A : Type ℓ} where
  pub any-mem : (p : A → Bool) (x : A) (xs : List A) → Memᴰ x xs → p x ≡ true → any p xs ≡ true
  any-mem p x [] m h = elim m [ ]
  any-mem p x (y ∷ ys) (Memᴰ.head e) h = let q : p y ≡ true = rw e at h in rw q
  any-mem p x (y ∷ ys) (Memᴰ.tail m) h = ground (arith, any-mem p x ys m h)

  pub mem-any : (p : A → Bool) (xs : List A) → any p xs ≡ true → (x : A) × Memᴰ x xs × (p x ≡ true)
  mem-any p [] h = cc
  mem-any p (x ∷ xs) h = elim (Bool-cases (p x)) [
    | inl t ↦ (x, Memᴰ.head refl, t)
    | inr f ↦ let (y, m, e) = mem-any p xs (rw f at h) in (y, Memᴰ.tail m, e)
  ]

  pub mem-select_of :
      (p : A → Bool) (x : A) (xs : List A) → Memᴰ x xs → p x ≡ true → Memᴰ x (select p xs)
  mem-select_of p x [] m h = elim m [ ]
  mem-select_of p x (y ∷ ys) (Memᴰ.head e) h = let q : p y ≡ true = rw e at h in rw q (Memᴰ.head e)
  mem-select_of p x (y ∷ ys) (Memᴰ.tail m) h = elim (Bool-cases (p y)) [
    | inl t ↦ rw t (Memᴰ.tail (mem-select_of p x ys m h))
    | inr f ↦ rw f (mem-select_of p x ys m h)
  ]

  pub mem-select :
      (p : A → Bool) (x : A) (xs : List A) → Memᴰ x (select p xs) → Memᴰ x xs × (p x ≡ true)
  mem-select p x [] m = elim m [ ]
  mem-select p x (y ∷ ys) m = elim (Bool-cases (p y)) [
    | inl t ↦ elim (Memᴰ.cases_cons (rw t at m)) [
      | inl e ↦ (Memᴰ.head e, rw (← e) at t)
      | inr r ↦ let s = mem-select p x ys r in (Memᴰ.tail s.0, s.1)
    ]
    | inr f ↦ let s = mem-select p x ys (rw f at m) in (Memᴰ.tail s.0, s.1)
  ]

  pub all-mem : (p : A → Bool) (x : A) (xs : List A) → Memᴰ x xs → all p xs ≡ true → p x ≡ true
  all-mem p x [] m h = elim m [ ]
  all-mem p x (y ∷ ys) (Memᴰ.head e) h = let q : p y ≡ true = ground arith in rw e q
  all-mem p x (y ∷ ys) (Memᴰ.tail m) h = all-mem p x ys m (ground arith)

  pub All-mem {κ} : (P : A → Type κ) (x : A) (xs : List A) → Memᴰ x xs → All P xs → P x
  All-mem P x [] m h = elim m [ ]
  All-mem P x (y ∷ ys) (Memᴰ.head e) h = rw e h.0
  All-mem P x (y ∷ ys) (Memᴰ.tail m) h = All-mem P x ys m h.1

  -- A selection drops something, or it keeps all.
  pub select-cases :
      (p : A → Bool) (xs : List A) → (select p xs ≡ xs) ⊎ (length (select p xs) < length xs)
  select-cases p [] = inl refl
  select-cases p (x ∷ xs) = elim (Bool-cases (p x)) [
    | inl t ↦ elim (select-cases p xs) [
      | inl e ↦ inl (rw t (ap (◌∷◌ x) e))
      | inr l ↦ inr (rw t (omega arith))
    ]
    | inr f ↦ inr (rw f (omega (arith, length-select-le p xs)))
  ]

  pub mem-of_find : (p : A → Bool) (xs : List A) {x : A} → find p xs ≡ some x → Memᴰ x xs
  mem-of_find p [] h = cc
  mem-of_find p (y ∷ ys) {x} h = elim (Bool-cases (p y)) [
    | inl t ↦ let q : y ≡ x = cc (rw t at h) in Memᴰ.head (sym q)
    | inr f ↦ Memᴰ.tail (mem-of_find p ys (rw f at h))
  ]

  -- A query that some row answers finds a row.
  pub mem-find :
      (p : A → Bool) (x : A) (xs : List A) → Memᴰ x xs → p x ≡ true → is_none (find p xs) ≡ false
  mem-find p x [] m h = elim m [ ]
  mem-find p x (y ∷ ys) (Memᴰ.head e) h = let q : p y ≡ true = rw e at h in rw q refl
  mem-find p x (y ∷ ys) (Memᴰ.tail m) h = elim (Bool-cases (p y)) [
    | inl t ↦ rw t refl
    | inr f ↦ rw f (mem-find p x ys m h)
  ]

  pub find-none :
      (p : A → Bool) (xs : List A) → ((x : A) → Memᴰ x xs → p x ≡ false) → find p xs ≡ none
  find-none p [] h = refl
  find-none p (x ∷ xs) h =
      let out = h x (Memᴰ.head refl) in rw out (find-none p xs (λ y m. h y (Memᴰ.tail m)))

  -- Two queries that agree on the rows.
  pub select-cong :
      (p q : A → Bool) (xs : List A) → ((x : A) → Memᴰ x xs → p x ≡ q x) → select p xs ≡ select q xs
  select-cong p q [] h = refl
  select-cong p q (x ∷ xs) h =
      rw (h x (Memᴰ.head refl), select-cong p q xs (λ y m. h y (Memᴰ.tail m))) refl

  pub select-none :
      (p : A → Bool) (xs : List A) → ((x : A) → Memᴰ x xs → p x ≡ false) → select p xs ≡ []
  select-none p [] h = refl
  select-none p (x ∷ xs) h =
      let out = h x (Memᴰ.head refl) in rw out (select-none p xs (λ y m. h y (Memᴰ.tail m)))

module _ {ℓ κ} {A : Type ℓ} {B : Type κ} (f : A → B) where
  pub mem-map : (y : B) (xs : List A) → Memᴰ y (map f xs) → (x : A) × Memᴰ x xs × (y ≡ f x)
  mem-map y [] m = elim m [ ]
  mem-map y (x ∷ xs) m = elim (Memᴰ.cases_cons m) [
    | inl e ↦ (x, Memᴰ.head refl, e)
    | inr r ↦ let (z, n, e) = mem-map y xs r in (z, Memᴰ.tail n, e)
  ]

  pub map-mem : (x : A) (xs : List A) → Memᴰ x xs → Memᴰ (f x) (map f xs)
  map-mem x [] m = elim m [ ]
  map-mem x (y ∷ ys) (Memᴰ.head e) = Memᴰ.head (ap f e)
  map-mem x (y ∷ ys) (Memᴰ.tail m) = Memᴰ.tail (map-mem x ys m)
