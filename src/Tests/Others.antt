-- ===== src/Tests/Others.antt =====
-- The gates under a role preview, and a limiter.
use iceberg_ttx.Prelude.{ℕ, true, List, [], ◌∷◌, none, some, ◌≡◌, refl, arith, Memᴰ}
use iceberg_ttx.Prelude.Int.{pos}
use iceberg_ttx.Models.Enums.{active, facilitator, released}
use iceberg_ttx.Models.Inject.{Inject}
use iceberg_ttx.Models.Database.{Db}
use iceberg_ttx.Access.Gates.{
  stamped, apply_role_preview, require_exercise_access, require_exercise_owner,
  is_inject_visible_to_user,
}
use iceberg_ttx.Access.Preview.{apply_role_preview-gates, preview-visible}
use iceberg_ttx.RateLimit.Window.{Hit, RateLimiter, check, sweep}
use iceberg_ttx.RateLimit.Sweep.{check-sweep}
use iceberg_ttx.Samples.{user, exercise, inject, database}

abbrev note : Inject
note = inject 1 "ransom" released none

abbrev db : Db
db = database (exercise active (some 100) none (pos 0)) (note ∷ []) [] []

-- The facilitator of user 1 looks at the workshop as a participant.
apply_role_preview-gates_example :
    (require_exercise_access db 1
        (apply_role_preview (user 1 facilitator) (some "participant") (some "red"))
      ≡ require_exercise_access db 1 (stamped (user 1 facilitator)))
    × (require_exercise_owner db 1
          (apply_role_preview (user 1 facilitator) (some "participant") (some "red"))
        ≡ require_exercise_owner db 1 (stamped (user 1 facilitator)))
apply_role_preview-gates_example =
    apply_role_preview-gates db 1 (user 1 facilitator) (some "participant") (some "red")

seen :
    is_inject_visible_to_user db note
      (apply_role_preview (user 1 facilitator) (some "observer") none)
    ≡ true
unfolding is_inject_visible_to_user apply_role_preview
seen = refl

preview-visible_example : is_inject_visible_to_user db note (stamped (user 1 facilitator)) ≡ true
preview-visible_example = preview-visible db note (user 1 facilitator) (some "observer") none seen

abbrev login : RateLimiter
login = record { scope = "login"; max_attempts = 2; window_seconds = 60 }

abbrev hit : ℕ → Hit
hit at = record { scope = "login"; key = "eve"; at = at }

abbrev hits : List Hit
hits = hit 1000000 ∷ hit 90000000 ∷ hit 95000000 ∷ []

check-sweep_example :
    check login (sweep (login ∷ []) hits 100000000) "eve" 101000000
    ≡ check login hits "eve" 101000000
check-sweep_example =
    check-sweep (login ∷ []) login hits "eve" 100000000 101000000 (Memᴰ.head refl) (omega arith)
