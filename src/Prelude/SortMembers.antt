-- ===== src/Prelude/SortMembers.antt =====
-- A sorted list has the elements of the list, and its keys are as distinct.
use mathlib.Core.Path.{◌≡◌, refl, ◌∙◌}
use mathlib.Core.Logic.{inl, inr}
use mathlib.Core.Bool.{Bool, false}
use mathlib.Core.List.{List, [], ◌∷◌, map, Memᴰ}
use mathlib.Core.List.Memᴰ
use native.Mathlib.Omega.{arith}
use iceberg_ttx.Prelude.Tests.{Bool-cases}
use iceberg_ttx.Prelude.Classes.{Eq, ==_sym}
use iceberg_ttx.Prelude.Lists.{contains, has_duplicates}
use iceberg_ttx.Prelude.Sort.{insert_sorted, sorted}

module _ {ℓ} {A : Type ℓ} (le : A → A → Bool) where
  mem-insert_sorted : (y x : A) (xs : List A) → Memᴰ y (insert_sorted le x xs) → Memᴰ y (x ∷ xs)
  unfolding insert_sorted
  mem-insert_sorted y x [] m = m
  mem-insert_sorted y x (z ∷ zs) m = elim (Bool-cases (le x z)) [
    | inl t ↦ rw t at m
    | inr f ↦ elim (Memᴰ.cases_cons (rw f at m)) [
      | inl e ↦ Memᴰ.tail (Memᴰ.head e)
      | inr r ↦ elim (Memᴰ.cases_cons (mem-insert_sorted y x zs r)) [
        | inl e ↦ Memᴰ.head e
        | inr s ↦ Memᴰ.tail (Memᴰ.tail s)
      ]
    ]
  ]

  insert_sorted-mem : (y x : A) (xs : List A) → Memᴰ y (x ∷ xs) → Memᴰ y (insert_sorted le x xs)
  unfolding insert_sorted
  insert_sorted-mem y x [] m = m
  insert_sorted-mem y x (z ∷ zs) m = elim (Bool-cases (le x z)) [
    | inl t ↦ rw t m
    | inr f ↦ rw f (elim (Memᴰ.cases_cons m) [
      | inl e ↦ Memᴰ.tail (insert_sorted-mem y x zs (Memᴰ.head e))
      | inr r ↦ elim (Memᴰ.cases_cons r) [
        | inl e ↦ Memᴰ.head e
        | inr s ↦ Memᴰ.tail (insert_sorted-mem y x zs (Memᴰ.tail s))
      ]
    ])
  ]

  pub mem-sorted : (y : A) (xs : List A) → Memᴰ y (sorted le xs) → Memᴰ y xs
  unfolding sorted
  mem-sorted y [] m = m
  mem-sorted y (x ∷ xs) m = elim (Memᴰ.cases_cons (mem-insert_sorted y x (sorted le xs) m)) [
    | inl e ↦ Memᴰ.head e
    | inr r ↦ Memᴰ.tail (mem-sorted y xs r)
  ]

  pub sorted-mem : (y : A) (xs : List A) → Memᴰ y xs → Memᴰ y (sorted le xs)
  unfolding sorted
  sorted-mem y [] m = m
  sorted-mem y (x ∷ xs) m =
      insert_sorted-mem y x (sorted le xs)
        (elim (Memᴰ.cases_cons m) [ inl e ↦ Memᴰ.head e | inr r ↦ Memᴰ.tail (sorted-mem y xs r) ])

  module _ {K : Type ℓ} ⦃e : Eq K⦄ (key : A → K) where
    contains-insert_sorted :
        (k : K) (x : A) (xs : List A)
        → contains k (map key (insert_sorted le x xs)) ≡ contains k (map key (x ∷ xs))
    unfolding insert_sorted
    contains-insert_sorted k x [] = refl
    contains-insert_sorted k x (z ∷ zs) = elim (Bool-cases (le x z)) [
      | inl t ↦ rw t refl
      | inr f ↦ rw (f, contains-insert_sorted k x zs) (ground arith)
    ]

    insert_sorted-distinct :
        (x : A) (xs : List A)
        → has_duplicates (map key (x ∷ xs)) ≡ false
        → has_duplicates (map key (insert_sorted le x xs)) ≡ false
    unfolding insert_sorted
    insert_sorted-distinct x [] h = refl
    insert_sorted-distinct x (z ∷ zs) h = elim (Bool-cases (le x z)) [
      | inl t ↦ rw t h
      | inr f ↦
          let rest = insert_sorted-distinct x zs (ground arith) in
          rw (f, contains-insert_sorted (key z) x zs, rest, ==_sym (key z) (key x)) (ground arith)
    ]

    contains-sorted :
        (k : K) (xs : List A) → contains k (map key (sorted le xs)) ≡ contains k (map key xs)
    unfolding sorted
    contains-sorted k [] = refl
    contains-sorted k (x ∷ xs) =
        contains-insert_sorted k x (sorted le xs) ∙ rw (contains-sorted k xs) refl

    pub sorted-distinct :
        (xs : List A)
        → has_duplicates (map key xs) ≡ false
        → has_duplicates (map key (sorted le xs)) ≡ false
    unfolding sorted
    sorted-distinct [] h = refl
    sorted-distinct (x ∷ xs) h =
        let rest = sorted-distinct xs (ground arith) in
        insert_sorted-distinct x (sorted le xs)
          (rw (contains-sorted (key x) xs, rest) (ground arith))
