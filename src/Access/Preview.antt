-- ===== src/Access/Preview.antt =====
-- A role preview never widens what its user may do.
use iceberg_ttx.Prelude.{
  ℕ, String, true, Option, none, some, ◌≡◌, ◌≢◌, refl, arith, inl, inr, ◌⊎◌, ap, ==→≡, ◌==◌, nat_eq,
  Bool-cases, if◌then◌else◌,
}
use iceberg_ttx.Models.Enums.{UserRole, facilitator, user_role_eq}
use iceberg_ttx.Models.Exercise.{User}
use iceberg_ttx.Models.Inject.{Inject}
use iceberg_ttx.Models.Database.{Db}
use iceberg_ttx.Access.Gates.{
  stamped, previewed, requested, apply_role_preview, require_exercise_access,
  require_exercise_owner, is_inject_visible_to_user, is_actual_facilitator, is_admin,
}

previewed-gates :
    (db : Db) (id : ℕ) (user : User) (team : Option String) (role : Option UserRole)
    → (require_exercise_access db id (previewed user team role)
        ≡ require_exercise_access db id (stamped user))
      × (require_exercise_owner db id (previewed user team role)
          ≡ require_exercise_owner db id (stamped user))
unfolding require_exercise_access require_exercise_owner is_actual_facilitator is_admin
previewed-gates db id user team none = (refl, refl)
previewed-gates db id user team (some role) = (refl, refl)

preview-cases :
    (user : User) (view_role view_team : Option String)
    → ((user.role ≡ facilitator)
        × (apply_role_preview user view_role view_team
            ≡ previewed user view_team (requested view_role)))
      ⊎ (apply_role_preview user view_role view_team ≡ stamped user)
unfolding apply_role_preview
preview-cases user view_role view_team = elim (Bool-cases (user.role == facilitator)) [
  | inl f ↦ inl (
    ==→≡ user.role facilitator f,
    ap (λ b. if b then previewed user view_team (requested view_role) else stamped user) f,
  )
  | inr n ↦
      inr (ap (λ b. if b then previewed user view_team (requested view_role) else stamped user) n)
]

-- The read gate and the mutation gate of an exercise answer the same for a user under a role
-- preview as for the user without one.
pub apply_role_preview-gates :
    (db : Db) (id : ℕ) (user : User) (view_role view_team : Option String)
    → (require_exercise_access db id (apply_role_preview user view_role view_team)
        ≡ require_exercise_access db id (stamped user))
      × (require_exercise_owner db id (apply_role_preview user view_role view_team)
          ≡ require_exercise_owner db id (stamped user))
apply_role_preview-gates db id user view_role view_team =
    elim (preview-cases user view_role view_team) [
      | inl (f, e) ↦ rw e (previewed-gates db id user view_team (requested view_role))
      | inr e ↦ rw e (refl, refl)
    ]

-- Whoever is not a facilitator is left as they are.
pub apply_role_preview-others :
    (user : User) (view_role view_team : Option String)
    → user.role ≢ facilitator
    → apply_role_preview user view_role view_team ≡ stamped user
unfolding apply_role_preview
apply_role_preview-others user view_role view_team ne = ground arith

-- An inject that a user sees under a role preview is one that the user sees without it.
pub preview-visible :
    (db : Db) (inject : Inject) (user : User) (view_role view_team : Option String)
    → is_inject_visible_to_user db inject (apply_role_preview user view_role view_team) ≡ true
    → is_inject_visible_to_user db inject (stamped user) ≡ true
unfolding is_inject_visible_to_user
preview-visible db inject user view_role view_team h =
    elim (preview-cases user view_role view_team) [ inl (f, e) ↦ rw f refl | inr e ↦ rw e at h ]
