-- ===== src/Tests/Reviews.antt =====
-- A suggested inject under review.
use iceberg_ttx.Prelude.{[], ◌∷◌, Option, none, some, ◌≡◌, refl, find}
use iceberg_ttx.Errors.{ok}
use iceberg_ttx.Models.Enums.{facilitator}
use iceberg_ttx.Models.Inject.{Inject}
use iceberg_ttx.Access.Gates.{Caller, stamped}
use iceberg_ttx.Suggestions.Review.{
  SuggestedInjectStatus, pending_review, rejected, SuggestedInject, ReviewDb, approve,
  write_rejection,
}
use iceberg_ttx.Suggestions.Approved.{Approves, approve-Approves, by_id}
use iceberg_ttx.Samples.{user, table, ok_or}
use iceberg_ttx.Tests.Releases.{advanced, paid}

abbrev idea : SuggestedInject
idea = record {
  id = 4;
  exercise_id = 1;
  triggered_by_response_id = 3;
  title = "Press call";
  content = "A journalist asks.";
  target_teams = some ("red" ∷ []);
  llm_model = "model";
  status = pending_review;
  reviewed_by = none;
  reviewed_at = none;
  generated_at = 100;
}

abbrev before : ReviewDb
before = record { db = advanced; suggested = table (idea ∷ []) }

abbrev owner : Caller
owner = stamped (user 1 facilitator)

unfoldable approval : Inject × ReviewDb
approval = ok_or (paid, before) (approve before 1 4 owner 500)

approval-ok : approve before 1 4 owner 500 ≡ ok (approval.0, approval.1)
unfolding approval approve
approval-ok = refl

approve-Approves_example : Approves before approval.1 1 4 approval.0
approve-Approves_example =
    approve-Approves before 1 4 owner 500 approval.0 approval.1 refl approval-ok

abbrev status_of : Option SuggestedInject → SuggestedInjectStatus
status_of none = pending_review
status_of (some s) = s.status

unfoldable overwritten : ReviewDb
overwritten = ok_or before (write_rejection approval.1 idea owner 600)

-- A rejection that loaded the suggestion before the approval overwrites its verdict.
stale_rejection : status_of (find (by_id 4) overwritten.suggested.rows) ≡ rejected
unfolding overwritten write_rejection approval approve
stale_rejection = refl
