-- ===== src/Prelude/Rows.antt =====
-- What a bulk update does to the queries that follow it.
use mathlib.Core.Path.{◌≡◌, refl, sym, ◌∙◌}
use mathlib.Core.Logic.{inl, inr}
use mathlib.Core.Bool.{Bool, true, false, ◌&&◌}
use mathlib.Core.Option.{Option, none, some}
use mathlib.Core.List.{List, [], ◌∷◌, ◌++◌, map, Memᴰ}
use native.Mathlib.Omega.{arith}
use iceberg_ttx.Prelude.Tests.{if◌then◌else◌, Bool-cases, and-left}
use iceberg_ttx.Prelude.Classes.{Eq, ◌==◌, ==→≡}
use iceberg_ttx.Prelude.Lists.{find, select, update, contains, has_duplicates, find-holds}
use iceberg_ttx.Prelude.Members.{mem-of_find}
use iceberg_ttx.Prelude.Keys.{contains-map_of_mem}

-- What an UPDATE makes of one row.
abbrev pub update_row {ℓ} : {A : Type ℓ} → (A → Bool) → (A → A) → Option A → Option A
update_row p f none = none
update_row p f (some x) = some (if p x then f x else x)

module _ {ℓ} {A : Type ℓ} (p q : A → Bool) (f : A → A) (keep : (x : A) → q (f x) ≡ q x) where
  pub find-update : (xs : List A) → find q (update p f xs) ≡ update_row p f (find q xs)
  find-update [] = refl
  find-update (x ∷ xs) = elim (Bool-cases (p x)) [
    | inl t ↦ elim (Bool-cases (q x)) [
      | inl u ↦ rw (t, keep x, u) (rw t)
      | inr n ↦ rw (t, keep x, n) (find-update xs)
    ]
    | inr g ↦ elim (Bool-cases (q x)) [
      | inl u ↦ rw (g, u) (rw g)
      | inr n ↦ rw (g, n) (find-update xs)
    ]
  ]

module _ {ℓ} {A : Type ℓ} where
  pub select-append :
      (p : A → Bool) (xs ys : List A) → select p (xs ++ ys) ≡ select p xs ++ select p ys
  select-append p [] ys = refl
  select-append p (x ∷ xs) ys = elim (Bool-cases (p x)) [
    | inl t ↦ rw (t, select-append p xs ys)
    | inr f ↦ rw (f, select-append p xs ys)
  ]

  pub find-append_none :
      (p : A → Bool) (xs ys : List A) → find p xs ≡ none → find p (xs ++ ys) ≡ find p ys
  find-append_none p [] ys h = refl
  find-append_none p (x ∷ xs) ys h = elim (Bool-cases (p x)) [
    | inl t ↦ cc (rw t at h)
    | inr f ↦ rw f (find-append_none p xs ys (rw f at h))
  ]

  pub find-append_some :
      (p : A → Bool) (xs ys : List A) {x : A} → find p xs ≡ some x → find p (xs ++ ys) ≡ some x
  find-append_some p [] ys h = cc
  find-append_some p (y ∷ xs) ys h = elim (Bool-cases (p y)) [
    | inl t ↦ rw t (rw t at h)
    | inr f ↦ rw f (find-append_some p xs ys (rw f at h))
  ]

  -- A stricter query that finds a row finds the one that the key finds.
  pub find-and :
      {K : Type ℓ} ⦃e : Eq K⦄ (key : A → K) (k : K) (p : A → Bool) (xs : List A) {x : A}
      → has_duplicates (map key xs) ≡ false
      → find (λ y. key y == k && p y) xs ≡ some x
      → (find (λ y. key y == k) xs ≡ some x) × (p x ≡ true)
  find-and key k p [] u h = cc
  find-and key k p (y ∷ ys) {x} u h = elim (Bool-cases (key y == k)) [
    | inl t ↦ elim (Bool-cases (p y)) [
      | inl v ↦ let q : y ≡ x = cc (rw (t, v) at h) in (rw (t, q), rw q at v)
      | inr n ↦
          let found = rw (t, n) at h in
          let same : key x ≡ key y =
            ==→≡ (key x) k
              (and-left (key x == k) (p x) (find-holds (λ z. key z == k && p z) ys found))
            ∙ sym (==→≡ (key y) k t) in
          let listed : contains (key y) (map key ys) ≡ true =
            rw (← same)
              (contains-map_of_mem key x ys (mem-of_find (λ z. key z == k && p z) ys found)) in
          absurd (ground (arith, listed))
    ]
    | inr f ↦ let (a, b) = find-and key k p ys (ground arith) (rw f at h) in (rw f a, b)
  ]

-- A query does not see an update, or a deletion, of rows that it does not select.
module _ {ℓ} {A : Type ℓ} (q : A → Bool) where
  pub select-update :
      (p : A → Bool) (f : A → A) (xs : List A)
      → ((x : A) → q (f x) ≡ q x)
      → ((x : A) → Memᴰ x xs → p x ≡ true → q x ≡ false)
      → select q (update p f xs) ≡ select q xs
  select-update p f [] keep other = refl
  select-update p f (x ∷ xs) keep other =
      let rest = select-update p f xs keep (λ y m. other y (Memᴰ.tail m)) in
      elim (Bool-cases (p x)) [
        | inl t ↦ let out = other x (Memᴰ.head refl) t in rw (t, keep x, out) rest
        | inr n ↦ rw (n, rest)
      ]

  pub select-select :
      (r : A → Bool) (xs : List A)
      → ((x : A) → Memᴰ x xs → r x ≡ false → q x ≡ false)
      → select q (select r xs) ≡ select q xs
  select-select r [] other = refl
  select-select r (x ∷ xs) other =
      let rest = select-select r xs (λ y m. other y (Memᴰ.tail m)) in
      elim (Bool-cases (r x)) [
        | inl t ↦ rw (t, rest)
        | inr n ↦ let out = other x (Memᴰ.head refl) n in rw (n, out) rest
      ]

  pub select-snoc : (x : A) (xs : List A) → q x ≡ false → select q (xs ++ x ∷ []) ≡ select q xs
  select-snoc x [] h = rw h
  select-snoc x (y ∷ ys) h = elim (Bool-cases (q y)) [
    | inl t ↦ rw (t, select-snoc x ys h)
    | inr n ↦ rw (n, select-snoc x ys h)
  ]
