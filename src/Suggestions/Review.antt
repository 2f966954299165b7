-- ===== src/Suggestions/Review.antt =====
-- The review of a suggested inject: `approve` and `reject` of app/routers/suggested_injects.py, over
-- the table of app/models/suggested_inject.py. `approve` reads the row under a lock; `reject` decides
-- on the row that the request loaded, and its UPDATE names the identifier alone.
use iceberg_ttx.Prelude.{
  ℕ, String, Bool, true, false, not, ◌&&◌, List, [], ◌∷◌, Option, none, some, ◌==◌, ◌↔◌, ◌≡◌, Eq,
  arith, nat_eq, find, if◌then◌else◌,
}
use iceberg_ttx.Prelude.Int.{ℤ, pos, ◌+ℤ◌, ltb_ℤ}
use iceberg_ttx.Errors.{ok, err, ◌>>=◌, ◌>>◌, require, suggestion_not_found, not_under_review}
use iceberg_ttx.Models.Enums.{draft, exercise_state_eq}
use iceberg_ttx.Models.Exercise.{Exercise}
use iceberg_ttx.Models.Inject.{Inject}
use iceberg_ttx.Models.Database.{Db, Table, update_rows, injects_of}
use iceberg_ttx.Launch.Content.{Http}
use iceberg_ttx.Launch.Freeze.{lock_configuration_owner, or_raise}
use iceberg_ttx.Access.Gates.{Caller, require_exercise_owner, require_operational_mutability}
use iceberg_ttx.Membership.Create.{NewInject, inject_row, create_inject}

pub data SuggestedInjectStatus : Type 0 where
  pending_review approved rejected : SuggestedInjectStatus

abbrev pub status_beq : SuggestedInjectStatus → SuggestedInjectStatus → Bool
status_beq pending_review pending_review = true
status_beq approved approved = true
status_beq rejected rejected = true
status_beq _ _ = false

pub status_beq_iff : (a b : SuggestedInjectStatus) → (status_beq a b ≡ true) ↔ (a ≡ b)
status_beq_iff a b = ground arith

instance abbrev pub status_eq : Eq SuggestedInjectStatus
status_eq = record { beq = status_beq; beq_iff = status_beq_iff }

pub record SuggestedInject : Type 0 where
  pub id : ℕ
  pub exercise_id : ℕ
  pub triggered_by_response_id : ℕ
  pub title : String
  pub content : String
  pub target_teams : Option (List String)
  pub llm_model : String
  pub status : SuggestedInjectStatus
  pub reviewed_by : Option ℕ
  pub reviewed_at : Option ℕ
  pub generated_at : ℕ

-- The database with the table of suggestions.
pub record ReviewDb : Type 0 where
  pub db : Db
  pub suggested : Table SuggestedInject

-- max((i.sequence_order for i in existing), default=0)
abbrev pub max_ℤ : ℤ → ℤ → ℤ
max_ℤ a b = if ltb_ℤ a b then b else a

abbrev pub highest : List Inject → ℤ
highest [] = pos 0
highest (i ∷ []) = i.sequence_order
highest (i ∷ j ∷ rest) = max_ℤ i.sequence_order (highest (j ∷ rest))

unfoldable pub next_order : Db → ℕ → ℤ
next_order db exercise_id = highest (injects_of db exercise_id) +ℤ pos 1

-- target_teams[0] if target_teams and len(target_teams) == 1 else None
abbrev pub only_team : Option (List String) → Option String
only_team (some (t ∷ [])) = some t
only_team _ = none

abbrev pub approved_inject : ℕ → Exercise → SuggestedInject → ℤ → NewInject
approved_inject exercise_id exercise s order = record {
  exercise_id = exercise_id;
  title = s.title;
  content = s.content;
  scenario_node_id = none;
  target_teams = s.target_teams;
  group_id = only_team s.target_teams;
  sequence_order = order;
  release_offset_minutes = none;
  attachment = none;
  created_during_run = not (exercise.state == draft);
}

abbrev pub reviewed : SuggestedInjectStatus → Caller → ℕ → SuggestedInject → SuggestedInject
reviewed verdict c now s = record s {
  status = verdict;
  reviewed_by = some c.user.id;
  reviewed_at = some now;
}

abbrev pub with_verdict :
    SuggestedInjectStatus
    → Caller
    → ℕ
    → SuggestedInject
    → Table SuggestedInject
    → Table SuggestedInject
with_verdict verdict c now s =
    update_rows (λ (x : SuggestedInject). x.id == s.id) (reviewed verdict c now)

unfoldable pub approve : ReviewDb → ℕ → ℕ → Caller → ℕ → Http (Inject × ReviewDb)
unfolding require_exercise_owner require_operational_mutability lock_configuration_owner next_order
    create_inject
approve r exercise_id suggested_id c now = do
  loaded ← require_exercise_owner r.db exercise_id c
  require_operational_mutability loaded
  (scenario, exercise) ← lock_configuration_owner r.db loaded
  require_operational_mutability exercise
  s ←
      or_raise
        (find (λ (x : SuggestedInject). x.id == suggested_id && x.exercise_id == exercise_id)
          r.suggested.rows)
        suggestion_not_found
  require (s.status == pending_review) not_under_review
  let new = approved_inject exercise_id exercise s (next_order r.db exercise_id)
  ok (
    inject_row new r.db.injects.next_id,
    record {
      db = record r.db { injects = create_inject r.db.injects new };
      suggested = with_verdict approved c now s r.suggested;
    },
  )

abbrev pub of_exercise : ℕ → Option SuggestedInject → Http SuggestedInject
of_exercise exercise_id none = err suggestion_not_found
of_exercise exercise_id (some s) =
    if s.exercise_id == exercise_id then ok s else err suggestion_not_found

unfoldable pub get_suggestion_or_404 : ReviewDb → ℕ → ℕ → Http SuggestedInject
get_suggestion_or_404 r exercise_id suggested_id =
    of_exercise exercise_id (find (λ (x : SuggestedInject). x.id == suggested_id) r.suggested.rows)

-- The part of `reject` after the row `s` is loaded, when the transaction writes.
unfoldable pub write_rejection : ReviewDb → SuggestedInject → Caller → ℕ → Http ReviewDb
write_rejection r s c now = do
  require (s.status == pending_review) not_under_review
  ok (record r { suggested = with_verdict rejected c now s r.suggested })

unfoldable pub reject : ReviewDb → ℕ → ℕ → Caller → ℕ → Http ReviewDb
unfolding require_exercise_owner require_operational_mutability get_suggestion_or_404
    write_rejection
reject r exercise_id suggested_id c now = do
  exercise ← require_exercise_owner r.db exercise_id c
  require_operational_mutability exercise
  s ← get_suggestion_or_404 r exercise_id suggested_id
  write_rejection r s c now
