-- ===== src/Prelude/Distinct.antt =====
-- Tables whose rows have distinct keys: an insertion, an update and a deletion of rows.
use Prim.Native.Nat.{ℕ, ◌<◌}
use mathlib.Core.Path.{◌≡◌, refl, sym, ap, ◌∙◌}
use mathlib.Core.Logic.{◌⊎◌, inl, inr}
use mathlib.Core.Bool.{Bool, true, false}
use mathlib.Core.Option.{none}
use mathlib.Core.List.{List, [], ◌∷◌, ◌++◌, map, Memᴰ}
use mathlib.Core.List.Memᴰ
use native.Mathlib.Omega.{arith}
use iceberg_ttx.Prelude.Tests.{if◌then◌else◌, Bool-cases, some_inj}
use iceberg_ttx.Prelude.Classes.{Eq, ◌==◌, ==→≡, ==_refl, nat_eq}
use iceberg_ttx.Prelude.Lists.{find, select, update, contains, has_duplicates}
use iceberg_ttx.Prelude.Keys.{find-of_mem}

module _ {ℓ} {A : Type ℓ} where
  pub mem-snoc : (x y : A) (xs : List A) → Memᴰ x (xs ++ y ∷ []) → Memᴰ x xs ⊎ (x ≡ y)
  mem-snoc x y xs m = elim (Memᴰ.append_cases xs m) [
    | inl old ↦ inl old
    | inr new ↦ elim (Memᴰ.cases_cons new) [ inl e ↦ inr e | inr r ↦ elim r [ ] ]
  ]

  pub mem-snoc_old : (x y : A) (xs : List A) → Memᴰ x xs → Memᴰ x (xs ++ y ∷ [])
  mem-snoc_old x y xs m = Memᴰ.append_left (y ∷ []) m

  pub mem-snoc_new : (y : A) (xs : List A) → Memᴰ y (xs ++ y ∷ [])
  mem-snoc_new y xs = Memᴰ.append_right xs (Memᴰ.head refl)

  -- A row after an UPDATE comes from a row before it.
  pub mem-update :
      (p : A → Bool) (f : A → A) (y : A) (xs : List A)
      → Memᴰ y (update p f xs)
      → (x : A) × Memᴰ x xs × (y ≡ (if p x then f x else x))
  mem-update p f y [] m = elim m [ ]
  mem-update p f y (x ∷ xs) m = elim (Memᴰ.cases_cons m) [
    | inl e ↦ (x, Memᴰ.head refl, e)
    | inr r ↦ let (z, n, e) = mem-update p f y xs r in (z, Memᴰ.tail n, e)
  ]

module _ {ℓ} {K : Type ℓ} ⦃e : Eq K⦄ {A : Type ℓ} (key : A → K) where
  pub contains-map_of_none :
      (k : K) (p : A → Bool) (xs : List A)
      → ((y : A) → (k == key y) ≡ p y)
      → find p xs ≡ none
      → contains k (map key xs) ≡ false
  contains-map_of_none k p [] agree h = refl
  contains-map_of_none k p (y ∷ ys) agree h = elim (Bool-cases (p y)) [
    | inl t ↦ cc (rw t at h)
    | inr f ↦ rw (agree y, f) (contains-map_of_none k p ys agree (rw f at h))
  ]

  contains-map-snoc :
      (k : K) (x : A) (xs : List A)
      → contains k (map key xs) ≡ false
      → (k == key x) ≡ false
      → contains k (map key (xs ++ x ∷ [])) ≡ false
  contains-map-snoc k x [] h n = rw n
  contains-map-snoc k x (y ∷ ys) h n = ground (arith, contains-map-snoc k x ys)

  pub has_duplicates-snoc :
      (x : A) (xs : List A)
      → has_duplicates (map key xs) ≡ false
      → contains (key x) (map key xs) ≡ false
      → has_duplicates (map key (xs ++ x ∷ [])) ≡ false
  has_duplicates-snoc x [] h n = refl
  has_duplicates-snoc x (y ∷ ys) h n = elim (Bool-cases (key y == key x)) [
    | inl t ↦
        let q : (key x == key y) ≡ true = rw (==→≡ (key y) (key x) t) (==_refl (key x)) in
        absurd (ground (arith, q))
    | inr f ↦ ground (
      arith,
      f,
      has_duplicates-snoc x ys (ground arith) (ground arith),
      contains-map-snoc (key y) x ys (ground arith) f,
    )
  ]

  contains-map-select :
      (k : K) (p : A → Bool) (xs : List A)
      → contains k (map key xs) ≡ false
      → contains k (map key (select p xs)) ≡ false
  contains-map-select k p [] h = refl
  contains-map-select k p (y ∷ ys) h = ground (arith, contains-map-select k p ys)

  pub has_duplicates-select :
      (p : A → Bool) (xs : List A)
      → has_duplicates (map key xs) ≡ false
      → has_duplicates (map key (select p xs)) ≡ false
  has_duplicates-select p [] h = refl
  has_duplicates-select p (y ∷ ys) h =
      ground (arith, has_duplicates-select p ys, contains-map-select (key y) p ys)

  pub map-update :
      (p : A → Bool) (f : A → A) (xs : List A)
      → ((x : A) → key (f x) ≡ key x)
      → map key (update p f xs) ≡ map key xs
  map-update p f [] keep = refl
  map-update p f (x ∷ xs) keep = elim (Bool-cases (p x)) [
    | inl t ↦ rw (t, keep x, map-update p f xs keep)
    | inr n ↦ rw (n, map-update p f xs keep)
  ]

  -- Two rows with one key are one row.
  pub mem_of_key :
      (x y : A) (xs : List A)
      → has_duplicates (map key xs) ≡ false
      → Memᴰ x xs
      → Memᴰ y xs
      → key x ≡ key y
      → x ≡ y
  mem_of_key x y xs h m n same = some_inj (
      sym (find-of_mem key x xs h m)
      ∙ ap (λ k. find (λ z. key z == k) xs) same
      ∙ find-of_mem key y xs h n)

-- A serial column that has passed every key gives a new one.
pub contains-map_of_above {ℓ} :
    {A : Type ℓ} (key : A → ℕ) (n : ℕ) (xs : List A)
    → ((y : A) → Memᴰ y xs → key y < n)
    → contains n (map key xs) ≡ false
contains-map_of_above key n [] above = refl
contains-map_of_above key n (y ∷ ys) above =
    ground (
      arith,
      above y (Memᴰ.head refl),
      contains-map_of_above key n ys (λ z m. above z (Memᴰ.tail m)),
    )
