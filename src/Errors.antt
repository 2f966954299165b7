-- ===== src/Errors.antt =====
-- What the services raise: pydantic's ValueError in schemas/scenario_json.py and FastAPI's
-- HTTPException, one constructor for each `detail` text; a raise rolls the transaction back, so a
-- failed call has no new state.
use iceberg_ttx.Prelude.{Bool, true, false, ◌≡◌, refl}
use iceberg_ttx.Models.Enums.{ExerciseState}

pub data ValueError : Type 0 where
  blank_id bad_direction delay_out_of_range duplicate_target_teams negative_release : ValueError
  too_many_injects duplicate_inject_ids duplicate_team_ids start_not_found : ValueError
  unknown_target_team next_not_found duplicate_option_ids option_next_not_found : ValueError
  cycle_detected blank_team_id duplicate_team_id unknown_team_id : ValueError

-- The messages of `response_validation_error`.
pub data ResponseError : Type 0 where
  option_required option_not_valid content_required : ResponseError

pub data HttpException : Type 0 where
  scenario_not_found exercise_not_found inject_not_found user_not_found : HttpException
  member_not_found access_denied only_participants : HttpException
  invalid_transition state_changed : ExerciseState → ExerciseState → HttpException
  completed_immutable roster_locked release_needs_active not_current_branch : HttpException
  no_audience not_pending released_undeletable responses_need_active : HttpException
  responses_need_released already_submitted launch_frozen : HttpException
  scenario_gone scenario_changed not_draft already_snapshotted : HttpException
  uncertain_member uncertain_communication uncertain_inject : HttpException
  attachment_unavailable attachment_size_changed : HttpException
  group_not_defined scenario_missing : HttpException
  comms_need_active only_outbound communication_not_found : HttpException
  suggestion_not_found not_under_review : HttpException
  invalid_teams : ValueError → HttpException
  invalid_response : ResponseError → HttpException
  -- Not HTTP errors: an unhandled RuntimeError, `.one()` with no row, a KeyError, and a
  -- stored definition that no longer validates.
  digest_collision missing_snapshot no_row key_error : HttpException
  invalid_definition : ValueError → HttpException

pub data Result {ℓ} (E A : Type ℓ) : Type ℓ where
  ok : A → Result E A
  err : E → Result E A

infixl 5 ◌>>=◌ ◌>>◌
abbrev pub ◌>>=◌ {ℓ} : {E A B : Type ℓ} → Result E A → (A → Result E B) → Result E B
ok value >>= next = next value
err raised >>= next = err raised

abbrev pub ◌>>◌ {ℓ} : {E B : Type ℓ} → Result E (Unit {ℓ}) → Result E B → Result E B
check >> rest = check >>= λ _. rest

-- `if not test: raise e`
abbrev pub require {ℓ} : {E : Type ℓ} → Bool → E → Result E (Unit {ℓ})
require true raised = ok tt
require false raised = err raised

-- Inversion of a successful bind, for proofs in which the parts stay shut.
pub >>=-eq-ok {ℓ} :
    {E A B : Type ℓ} (first : Result E A) (next : A → Result E B) {result : B}
    → (first >>= next) ≡ ok result
    → (value : A) × (first ≡ ok value) × (next value ≡ ok result)
>>=-eq-ok (ok value) next h = (value, refl, h)
>>=-eq-ok (err raised) next h = cc

-- A chain goes on after a check only if its test holds.
pub require-eq-ok {ℓ} :
    {E A : Type ℓ} (test : Bool) (e : E) (rest : Result E A) {a : A}
    → (require test e >> rest) ≡ ok a
    → (test ≡ true) × (rest ≡ ok a)
require-eq-ok true e rest h = (refl, h)
require-eq-ok false e rest h = cc

pub ok-injective {ℓ} : {E A : Type ℓ} {a b : A} → ◌≡◌ {A = Result E A} (ok a) (ok b) → a ≡ b
ok-injective h = cc
