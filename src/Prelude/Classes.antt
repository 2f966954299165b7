-- ===== src/Prelude/Classes.antt =====
-- Python's `==`, as an interface, at the types that the program compares.
use Prim.Native.Nat.{ℕ}
use Prim.Native.String.{String}
use mathlib.Core.Path.{◌≡◌, refl}
use mathlib.Core.Logic.{◌↔◌, inl, inr}
use mathlib.Core.Bool.{Bool, true, false, ◌&&◌}
use mathlib.Core.Option.{Option, none, some}
use native.Mathlib.Omega.{arith}
use text.Mathlib.Text.{◌==◌ as str_eq}
use text.Mathlib.TextEquality.{eq_iff}
use iceberg_ttx.Prelude.Tests.{nat_beq, Bool-cases}

pub record Eq {ℓ} (A : Type ℓ) : Type ℓ where
  pub beq : A → A → Bool
  pub beq_iff : (x y : A) → (beq x y ≡ true) ↔ (x ≡ y)

infix 50 ◌==◌
abbrev pub ◌==◌ {ℓ} : {A : Type ℓ} ⦃eq : Eq A⦄ (x y : A) → Bool
◌==◌ ⦃eq⦄ x y = eq.beq x y

module _ {ℓ} {A : Type ℓ} ⦃e : Eq A⦄ where
  pub ==→≡ : (a b : A) → (a == b) ≡ true → a ≡ b
  ==→≡ a b h = (e.beq_iff a b).0 h

  pub ==_refl : (a : A) → (a == a) ≡ true
  ==_refl a = (e.beq_iff a a).1 refl

module _ {ℓ} {A : Type ℓ} ⦃e : Eq A⦄ where
  pub ==_sym : (a b : A) → (a == b) ≡ (b == a)
  ==_sym a b = elim (Bool-cases (a == b)) [
    | inl t ↦ let q : (b == a) ≡ true = rw (==→≡ a b t) (==_refl b) in rw (t, q)
    | inr f ↦ elim (Bool-cases (b == a)) [
      | inl t ↦ let q : (a == b) ≡ true = rw (==→≡ b a t) (==_refl a) in cc
      | inr g ↦ rw (f, g)
    ]
  ]

pub nat_beq_iff : (a b : ℕ) → (nat_beq a b ≡ true) ↔ (a ≡ b)
nat_beq_iff a b = ground arith

instance abbrev pub nat_eq : Eq ℕ
nat_eq = record { beq = nat_beq; beq_iff = nat_beq_iff }

unfoldable pub string_discrete : Discrete String
string_discrete s t = elim (Bool-cases (str_eq s t)) [
  | inl e ↦ yes ((eq_iff s t).0 e)
  | inr f ↦ no (λ p. cc ((eq_iff s t).1 p))
]

instance abbrev pub string_eq : Eq String
string_eq = record { beq = str_eq; beq_iff = eq_iff }

abbrev pub option_beq {ℓ} : {A : Type ℓ} → (A → A → Bool) → Option A → Option A → Bool
option_beq f none none = true
option_beq f (some a) (some b) = f a b
option_beq f _ _ = false

pub option_beq_iff {ℓ} :
    {A : Type ℓ} (e : Eq A) (a b : Option A) → (option_beq e.beq a b ≡ true) ↔ (a ≡ b)
option_beq_iff e none none = ground arith
option_beq_iff e (some a) (some b) = ground (arith, e.beq_iff a b)
option_beq_iff e none (some b) = ground arith
option_beq_iff e (some a) none = ground arith

instance abbrev pub option_eq {ℓ} : {A : Type ℓ} ⦃e : Eq A⦄ → Eq (Option A)
option_eq ⦃e⦄ = record { beq = option_beq e.beq; beq_iff = option_beq_iff e }

abbrev pub pair_beq {ℓ κ} : {A : Type ℓ} {B : Type κ} → Eq A → Eq B → A × B → A × B → Bool
pair_beq e f (a, b) (c, d) = e.beq a c && f.beq b d

pub pair_beq_iff {ℓ κ} :
    {A : Type ℓ} {B : Type κ} (e : Eq A) (f : Eq B) (x y : A × B)
    → (pair_beq e f x y ≡ true) ↔ (x ≡ y)
pair_beq_iff e f (a, b) (c, d) = ground (arith, e.beq_iff a c, f.beq_iff b d)

instance abbrev pub pair_eq {ℓ κ} : {A : Type ℓ} {B : Type κ} ⦃e : Eq A⦄ ⦃f : Eq B⦄ → Eq (A × B)
pair_eq ⦃e⦄ ⦃f⦄ = record { beq = pair_beq e f; beq_iff = pair_beq_iff e f }
