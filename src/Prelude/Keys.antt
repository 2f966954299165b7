-- ===== src/Prelude/Keys.antt =====
-- Lookups by a key that no two rows share.
use mathlib.Core.Path.{◌≡◌, refl}
use mathlib.Core.Logic.{inl, inr}
use mathlib.Core.Bool.{true, false}
use mathlib.Core.Option.{some}
use mathlib.Core.List.{List, [], ◌∷◌, map, Memᴰ}
use native.Mathlib.Omega.{arith}
use iceberg_ttx.Prelude.Tests.{Bool-cases}
use iceberg_ttx.Prelude.Classes.{Eq, ◌==◌, ==→≡, ==_refl}
use iceberg_ttx.Prelude.Lists.{find, contains, has_duplicates}

module _ {ℓ} {K : Type ℓ} ⦃e : Eq K⦄ {A : Type ℓ} (key : A → K) where
  pub contains-map_of_mem : (x : A) (xs : List A) → Memᴰ x xs → contains (key x) (map key xs) ≡ true
  contains-map_of_mem x [] m = elim m [ ]
  contains-map_of_mem x (y ∷ ys) (Memᴰ.head q) =
      let t : (key x == key y) ≡ true = rw (← q) (==_refl (key x)) in rw t
  contains-map_of_mem x (y ∷ ys) (Memᴰ.tail m) = ground (arith, contains-map_of_mem x ys m)

  -- With distinct keys each row is the one that its key finds.
  pub find-of_mem :
      (x : A) (xs : List A)
      → has_duplicates (map key xs) ≡ false
      → Memᴰ x xs
      → find (λ y. key y == key x) xs ≡ some x
  find-of_mem x [] h m = elim m [ ]
  find-of_mem x (y ∷ ys) h (Memᴰ.head q) = rw (← q, ==_refl (key x)) refl
  find-of_mem x (y ∷ ys) h (Memᴰ.tail m) = elim (Bool-cases (key y == key x)) [
    | inl t ↦
        let c : contains (key y) (map key ys) ≡ true =
          rw (==→≡ (key y) (key x) t) (contains-map_of_mem x ys m) in
        absurd (ground (arith, c))
    | inr f ↦ rw f (find-of_mem x ys (ground arith) m)
  ]

  -- A key that is listed finds a row.
  pub find-of_contains :
      (k : K) (xs : List A)
      → contains k (map key xs) ≡ true
      → (x : A) × Memᴰ x xs × (find (λ y. key y == k) xs ≡ some x)
  find-of_contains k [] h = cc
  find-of_contains k (y ∷ ys) h = elim (Bool-cases (key y == k)) [
    | inl t ↦ (y, Memᴰ.head refl, rw t)
    | inr f ↦ elim (Bool-cases (k == key y)) [
      | inl t ↦ let q : (key y == k) ≡ true = rw (==→≡ k (key y) t) (==_refl (key y)) in cc
      | inr f' ↦
          let (x, m, found) = find-of_contains k ys (rw f' at h) in (x, Memᴰ.tail m, rw f found)
    ]
  ]
