-- ===== src/Prelude/Sort.antt =====
-- Python's stable `sorted` by a key, as insertion by a Boolean order, and the order of texts.
use Prim.Native.Char.{code}
use Prim.Native.String.{String}
use mathlib.Core.Path.{◌≡◌, refl}
use mathlib.Core.Logic.{inl, inr}
use mathlib.Core.Bool.{Bool, true, false, ◌&&◌, ◌||◌}
use mathlib.Core.List.{List, [], ◌∷◌, Perm}
use mathlib.Core.List.Perm
use iceberg_ttx.Prelude.Tests.{ltb, nat_beq, if◌then◌else◌, Bool-cases}
use iceberg_ttx.Prelude.Lists.{All}

module _ {ℓ} {A : Type ℓ} (le : A → A → Bool) where
  -- Before the first element that is not smaller: equal keys keep their order.
  unfoldable pub insert_sorted : A → List A → List A
  insert_sorted x [] = x ∷ []
  insert_sorted x (y ∷ ys) =
      let rest = insert_sorted x ys in if le x y then x ∷ y ∷ ys else y ∷ rest

  unfoldable pub sorted : List A → List A
  unfolding insert_sorted
  sorted [] = []
  sorted (x ∷ xs) = insert_sorted x (sorted xs)

  insert_sorted-perm : (x : A) (xs : List A) → Perm (insert_sorted x xs) (x ∷ xs)
  unfolding insert_sorted
  insert_sorted-perm x [] = Perm.rfl
  insert_sorted-perm x (y ∷ ys) = elim (Bool-cases (le x y)) [
    | inl t ↦ rw t Perm.rfl
    | inr f ↦ rw f (Perm.trans (Perm.cons y (insert_sorted-perm x ys)) (Perm.swap x y ys))
  ]

  pub sorted-perm : (xs : List A) → Perm (sorted xs) xs
  unfolding sorted
  sorted-perm [] = Perm.rfl
  sorted-perm (x ∷ xs) =
      Perm.trans (insert_sorted-perm x (sorted xs)) (Perm.cons x (sorted-perm xs))

  -- Each element goes before all that follow.
  abbrev pub IsSorted : List A → Type ℓ
  IsSorted [] = Unit
  IsSorted (x ∷ xs) = All (λ y. le x y ≡ true) xs × IsSorted xs

-- Lexicographic order of the code points, as Python compares texts.
unfoldable pub str_le : String → String → Bool
str_le String.[] t = true
str_le (String.◌∷◌ c s) String.[] = false
str_le (String.◌∷◌ c s) (String.◌∷◌ d t) =
    let rest = str_le s t in ltb (code c) (code d) || nat_beq (code c) (code d) && rest

module _ {ℓ} {A : Type ℓ} (le : A → A → Bool) where
  insert_sorted-first :
      (x : A) (xs : List A) → All (λ y. le x y ≡ true) xs → insert_sorted le x xs ≡ x ∷ xs
  unfolding insert_sorted
  insert_sorted-first x [] h = refl
  insert_sorted-first x (y ∷ ys) h = rw h.0

  -- What is in order stays as it is.
  pub sorted-of_IsSorted : (xs : List A) → IsSorted le xs → sorted le xs ≡ xs
  unfolding sorted
  sorted-of_IsSorted [] s = refl
  sorted-of_IsSorted (x ∷ xs) s = rw (sorted-of_IsSorted xs s.1) (insert_sorted-first x xs s.0)
