-- ===== src/Membership/Create.antt =====
-- `create_exercise` of app/services/exercise_service.py, with `create_inject` and
-- `seed_injects_from_scenario` of app/services/inject_service.py.
use iceberg_ttx.Prelude.{
  ℕ, zero, suc, String, Bool, false, List, [], ◌∷◌, map, Option, none, some, is_blank, strip,
  if◌then◌else◌,
}
use iceberg_ttx.Prelude.Int.{ℤ, pos, negsuc}
use iceberg_ttx.Errors.{ok, ◌>>=◌, scenario_not_found}
use iceberg_ttx.Models.Enums.{draft, SnapshotProvenance, InjectState}
use iceberg_ttx.Models.Scenario.{InjectNode, ParticipantTeam, Scenario}
use iceberg_ttx.Models.Exercise.{Exercise}
use iceberg_ttx.Models.Inject.{Inject}
use iceberg_ttx.Models.Database.{Db, Table, insert, get_scenario}
use iceberg_ttx.Launch.Content.{Http, export_definition}
use iceberg_ttx.Launch.Freeze.{or_raise}
use iceberg_ttx.Progression.Cursor.{seed_progression}
use iceberg_ttx.Membership.Teams.{or_none}

pub record AttachmentMeta : Type 0 where
  pub filename : String
  pub content_type : String
  pub path : String
  pub size : ℕ
  pub sha256 : String

-- The arguments of `create_inject`.
pub record NewInject : Type 0 where
  pub exercise_id : ℕ
  pub title : String
  pub content : String
  pub scenario_node_id : Option String
  pub target_teams : Option (List String)
  pub group_id : Option String
  pub sequence_order : ℤ
  pub release_offset_minutes : Option ℤ
  pub attachment : Option AttachmentMeta
  pub created_during_run : Bool

-- group_id.strip() if group_id and group_id.strip() else None
abbrev pub normalized_group : Option String → Option String
normalized_group none = none
normalized_group (some g) = if is_blank (strip g) then none else some (strip g)

abbrev pub own_group : Option String → List String → Option (List String)
own_group none targets = or_none targets
own_group (some g) [] = some (g ∷ [])
own_group (some g) (t ∷ ts) = some (t ∷ ts)

abbrev pub targets_or_empty : Option (List String) → List String
targets_or_empty none = []
targets_or_empty (some targets) = targets

abbrev pub from_meta : {A : Type 0} → (AttachmentMeta → A) → Option AttachmentMeta → Option A
from_meta field none = none
from_meta field (some a) = some (field a)

abbrev pub inject_row : NewInject → ℕ → Inject
inject_row new id = record {
  id = id;
  exercise_id = new.exercise_id;
  scenario_node_id = new.scenario_node_id;
  title = new.title;
  content = new.content;
  target_teams = own_group (normalized_group new.group_id) (targets_or_empty new.target_teams);
  group_id = normalized_group new.group_id;
  sequence_order = new.sequence_order;
  release_offset_minutes = new.release_offset_minutes;
  state = InjectState.pending;
  released_at = none;
  released_by = none;
  resolved_at = none;
  resolved_by = none;
  resolution_reason = none;
  attachment_filename = from_meta (λ a. a.filename) new.attachment;
  attachment_content_type = from_meta (λ a. a.content_type) new.attachment;
  attachment_path = from_meta (λ a. a.path) new.attachment;
  attachment_size = from_meta (λ a. a.size) new.attachment;
  attachment_sha256 = from_meta (λ a. a.sha256) new.attachment;
  created_during_run = some new.created_during_run;
}

unfoldable pub create_inject : Table Inject → NewInject → Table Inject
create_inject injects new = insert (inject_row new) injects

-- node.sequence_order or i
abbrev pub order_or : ℤ → ℕ → ℤ
order_or (pos zero) i = pos i
order_or (pos (suc n)) i = pos (suc n)
order_or (negsuc n) i = negsuc n

abbrev pub node_inject : ℕ → ℕ → InjectNode → Option String → NewInject
node_inject exercise_id i n group_id = record {
  exercise_id = exercise_id;
  title = n.title;
  content = n.content;
  scenario_node_id = some n.id;
  target_teams = elim group_id [ none ↦ none | some g ↦ some (g ∷ []) ];
  group_id = group_id;
  sequence_order = order_or n.sequence_order i;
  release_offset_minutes = n.release_at_minutes;
  attachment = none;
  created_during_run = false;
}

-- One inject for each target team, or one for all.
abbrev pub node_groups : List String → List (Option String)
node_groups [] = none ∷ []
node_groups (t ∷ ts) = map some (t ∷ ts)

unfoldable pub seed_node : Table Inject → ℕ → ℕ → InjectNode → List (Option String) → Table Inject
unfolding create_inject
seed_node injects exercise_id i n [] = injects
seed_node injects exercise_id i n (g ∷ groups) =
    seed_node (create_inject injects (node_inject exercise_id i n g)) exercise_id i n groups

unfoldable pub seed_nodes : Table Inject → ℕ → ℕ → List InjectNode → Table Inject
unfolding seed_node
seed_nodes injects exercise_id i [] = injects
seed_nodes injects exercise_id i (n ∷ nodes) =
    seed_nodes (seed_node injects exercise_id i n (node_groups n.target_teams)) exercise_id (suc i)
      nodes

unfoldable pub seed_injects_from_scenario : Db → ℕ → Scenario → Http Db
unfolding seed_nodes export_definition
seed_injects_from_scenario db exercise_id scenario = do
  definition ← export_definition scenario
  ok (record db { injects = seed_nodes db.injects exercise_id 0 definition.injects })

abbrev pub new_exercise : ℕ → String → ℕ → Bool → String → ℕ → ℕ → Exercise
new_exercise scenario_id title created_by llm_enabled start_inject_id now id = record {
  id = id;
  scenario_id = scenario_id;
  title = title;
  state = draft;
  current_node_id = some start_inject_id;
  llm_enabled = llm_enabled;
  launch_provenance = SnapshotProvenance.pending;
  launch_snapshot_digest = none;
  debrief_notes = none;
  started_at = none;
  ended_at = none;
  paused_at = none;
  accumulated_pause_seconds = pos 0;
  created_by = created_by;
  created_at = now;
}

-- The time of the new row's columns is `now`. A raise rolls the whole transaction back.
unfoldable pub create_exercise : Db → ℕ → String → ℕ → Bool → ℕ → Http (Exercise × Db)
unfolding seed_injects_from_scenario export_definition seed_progression
create_exercise db scenario_id title created_by llm_enabled now = do
  scenario ← or_raise (get_scenario db scenario_id) scenario_not_found
  definition ← export_definition scenario
  let row = new_exercise scenario_id title created_by llm_enabled definition.start_inject_id now
  let id = db.exercises.next_id
  seeded ←
      seed_injects_from_scenario (record db { exercises = insert row db.exercises }) id scenario
  ok (
    row id,
    seed_progression seeded id definition.start_inject_id
        (map (λ (t : ParticipantTeam). t.id) definition.participant_teams) now,
  )
