-- ===== src/Scenario/Validate.antt =====
-- The field validators and `validate_structure` of app/schemas/scenario_json.py.
use iceberg_ttx.Prelude.{
  ℕ, String, Bool, true, false, not, ◌||◌, List, [], ◌∷◌, map, Option, none, some, ◌==◌, string_eq,
  all, length, leb, strip, is_blank, contains, has_duplicates, if◌then◌else◌,
}
use iceberg_ttx.Prelude.Int.{ℤ, pos, negsuc}
use iceberg_ttx.Errors.{
  Result, ok, err, ◌>>=◌, ◌>>◌, require, ValueError, blank_id, bad_direction, delay_out_of_range,
  duplicate_target_teams, negative_release, too_many_injects, duplicate_inject_ids,
  duplicate_team_ids, start_not_found, unknown_target_team, next_not_found, duplicate_option_ids,
  option_next_not_found,
}
use iceberg_ttx.Models.Scenario.{
  ParticipantTeam, TriggerComm, InjectOption, InjectNode, ScenarioDefinition,
}
use iceberg_ttx.Scenario.Graph.{check_no_cycles}

abbrev pub Checked : Type 0 → Type 0
Checked A = Result ValueError A

abbrev pub max_injects : ℕ
max_injects = 5000

abbrev pub max_trigger_delay_seconds : ℕ
max_trigger_delay_seconds = 86400

abbrev pub map_result : {A B : Type 0} → (A → Checked B) → List A → Checked (List B)
map_result f [] = ok []
map_result f (x ∷ xs) = do y ← f x; ys ← map_result f xs; ok (y ∷ ys)

unfoldable pub normalized_id : String → Checked String
normalized_id value =
    let normalized = strip value in if is_blank normalized then err blank_id else ok normalized

unfoldable pub normalize_next_inject_id : Option String → Checked (Option String)
normalize_next_inject_id none = ok none
normalize_next_inject_id (some value) = do v ← normalized_id value; ok (some v)

unfoldable pub validate_team : ParticipantTeam → Checked ParticipantTeam
validate_team t = do i ← normalized_id t.id; ok (record t { id = i })

unfoldable pub validate_direction : String → Checked (Unit {0})
validate_direction v = require (v == "inbound" || v == "outbound") bad_direction

abbrev pub delay_in_range : ℤ → Bool
delay_in_range (pos n) = leb n max_trigger_delay_seconds
delay_in_range (negsuc n) = false

unfoldable pub validate_trigger : TriggerComm → Checked TriggerComm
unfolding validate_direction
validate_trigger c = do
  validate_direction c.direction
  require (delay_in_range c.delay_after_release_seconds) delay_out_of_range
  ok c

unfoldable pub validate_option : InjectOption → Checked InjectOption
unfolding normalize_next_inject_id
validate_option o = do
  i ← normalized_id o.id
  n ← normalize_next_inject_id o.next_inject_id
  ok (record o { id = i; next_inject_id = n })

unfoldable pub normalize_target_teams : List String → Checked (List String)
normalize_target_teams values = do
  normalized ← map_result normalized_id values
  require (not (has_duplicates normalized)) duplicate_target_teams
  ok normalized

abbrev pub release_ok : Option ℤ → Bool
release_ok none = true
release_ok (some (pos n)) = true
release_ok (some (negsuc n)) = false

unfoldable pub validate_node : InjectNode → Checked InjectNode
unfolding normalize_next_inject_id normalize_target_teams
validate_node n = do
  i ← normalized_id n.id
  teams ← normalize_target_teams n.target_teams
  next ← normalize_next_inject_id n.next_inject_id
  options ← map_result validate_option n.options
  triggers ← map_result validate_trigger n.triggers_communications
  require (release_ok n.release_at_minutes) negative_release
  ok (record n {
    id = i;
    target_teams = teams;
    next_inject_id = next;
    options = options;
    triggers_communications = triggers;
  })

-- value is None or value in ids
abbrev pub known : List String → Option String → Bool
known ids none = true
known ids (some t) = contains t ids

-- The body of the loop over the injects.
unfoldable pub check_inject : List String → List String → InjectNode → Checked (Unit {0})
check_inject inject_ids team_ids inj = do
  require (all (λ team. contains team team_ids) inj.target_teams) unknown_target_team
  require (known inject_ids inj.next_inject_id) next_not_found
  require (not (has_duplicates (map (λ (o : InjectOption). o.id) inj.options))) duplicate_option_ids
  require (all (λ (o : InjectOption). known inject_ids o.next_inject_id) inj.options)
      option_next_not_found

unfoldable pub check_injects : List String → List String → List InjectNode → Checked (Unit {0})
check_injects inject_ids team_ids [] = ok tt
check_injects inject_ids team_ids (inj ∷ rest) = do
  check_inject inject_ids team_ids inj
  check_injects inject_ids team_ids rest

abbrev pub ids : List InjectNode → List String
ids = map (λ (n : InjectNode). n.id)

abbrev pub team_ids : List ParticipantTeam → List String
team_ids = map (λ (t : ParticipantTeam). t.id)

unfoldable pub validate_structure : ScenarioDefinition → Checked ScenarioDefinition
unfolding check_injects check_inject
validate_structure d = do
  require (leb (length d.injects) max_injects) too_many_injects
  require (not (has_duplicates (ids d.injects))) duplicate_inject_ids
  require (not (has_duplicates (team_ids d.participant_teams))) duplicate_team_ids
  require (contains d.start_inject_id (ids d.injects)) start_not_found
  check_injects (ids d.injects) (team_ids d.participant_teams) d.injects
  check_no_cycles d.injects
  ok d

-- ScenarioDefinition.model_validate: the fields in their order, then the structure.
unfoldable pub parse_definition : ScenarioDefinition → Checked ScenarioDefinition
unfolding validate_team validate_node validate_option validate_trigger validate_structure
parse_definition raw = do
  teams ← map_result validate_team raw.participant_teams
  injects ← map_result validate_node raw.injects
  start ← normalized_id raw.start_inject_id
  validate_structure
      (record raw { participant_teams = teams; injects = injects; start_inject_id = start })
