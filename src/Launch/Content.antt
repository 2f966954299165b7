-- ===== src/Launch/Content.antt =====
-- `build_launch_content` and what it calls.
use iceberg_ttx.Prelude.{
  ℕ, String, Bool, true, false, not, ◌&&◌, ◌||◌, List, [], ◌∷◌, map, Option, none, some, ◌==◌,
  nat_eq, string_eq, ltb, any, ◌≡◌, if◌then◌else◌,
}
use iceberg_ttx.Prelude.Int.{ltb_ℤ}
use iceberg_ttx.Prelude.Sort.{sorted, str_le}
use iceberg_ttx.Errors.{
  Result, ok, err, ok-injective, ValueError, invalid_definition, ◌>>=◌, ◌>>◌, require,
  HttpException, uncertain_member, uncertain_communication, uncertain_inject,
  attachment_unavailable, attachment_size_changed,
}
use iceberg_ttx.Models.Scenario.{Scenario, ScenarioDefinition, InjectNode}
use iceberg_ttx.Scenario.Validate.{parse_definition}
use iceberg_ttx.Models.Exercise.{Exercise, ExerciseMember}
use iceberg_ttx.Models.Inject.{Inject}
use iceberg_ttx.Models.Communication.{Communication}
use iceberg_ttx.Models.Launch.{
  AttachmentContent, InjectContent, MemberContent, CommunicationContent, LaunchContent,
}

abbrev pub Http : Type 0 → Type 0
Http A = Result HttpException A

-- What the code takes from outside: the digest and the size of a file (none: OSError), the JSON text
-- of an item, and the digest of a whole content.
pub record External : Type 0 where
  pub attachment_digest : String → Option (String × ℕ)
  pub inject_bytes : InjectContent → String
  pub member_bytes : MemberContent → String
  pub communication_bytes : CommunicationContent → String
  pub snapshot_digest : LaunchContent → String

abbrev pub snapshot_schema_version : String
snapshot_schema_version = "1.0"

-- `target_teams or []`
abbrev pub or_empty : Option (List String) → List String
or_empty none = []
or_empty (some xs) = xs

abbrev pub or_blank : Option String → String
or_blank none = ""
or_blank (some s) = s

unfoldable pub canonical_node : InjectNode → InjectNode
canonical_node n = record n { target_teams = sorted str_le n.target_teams }

unfoldable pub canonical_scenario_definition : ScenarioDefinition → ScenarioDefinition
unfolding canonical_node
canonical_scenario_definition d = record d { injects = map canonical_node d.injects }

-- created_during_run is not False
abbrev pub uncertain : Option Bool → Bool
uncertain (some false) = false
uncertain _ = true

-- No row is the `uncertain_member`, the `uncertain_communication`, of the code.
abbrev pub certain_members : List ExerciseMember → Bool
certain_members members = not (any (λ (m : ExerciseMember). uncertain m.created_during_run) members)

abbrev pub certain_communications : List Communication → Bool
certain_communications communications =
    not (any (λ (c : Communication). uncertain c.created_during_run) communications)

-- attachment_size is not None and actual_size != attachment_size
abbrev pub size_changed : Option ℕ → ℕ → Bool
size_changed none actual = false
size_changed (some size) actual = not (actual == size)

-- The order of the keys of `inject_content.sort`, `member_content.sort`, `communication_content.sort`.
abbrev pub str_lt : String → String → Bool
str_lt s t = not (str_le t s)

unfoldable pub inject_content : Inject → Option AttachmentContent → InjectContent
inject_content inject attachment = record {
  scenario_node_id = inject.scenario_node_id;
  title = inject.title;
  content = inject.content;
  target_teams = sorted str_le (or_empty inject.target_teams);
  group_id = inject.group_id;
  sequence_order = inject.sequence_order;
  release_offset_minutes = inject.release_offset_minutes;
  attachment = attachment;
}

abbrev pub member_content : ExerciseMember → MemberContent
member_content m = record { user_id = m.user_id; group_id = m.group_id; role = m.role_at_enrolment }

abbrev pub communication_content : Communication → CommunicationContent
communication_content c = record {
  direction = c.direction;
  sender_id = c.sender_id;
  sender_team = c.sender_team;
  external_entity = c.external_entity;
  subject = c.subject;
  body = c.body;
  visible_to_teams = sorted str_le (or_empty c.visible_to_teams);
  sent_at = c.sent_at;
}

abbrev pub validated : Result ValueError ScenarioDefinition → Http ScenarioDefinition
validated (ok d) = ok d
validated (err e) = err (invalid_definition e)

pub validated-eq-ok :
    (r : Result ValueError ScenarioDefinition) {d : ScenarioDefinition}
    → validated r ≡ ok d
    → r ≡ ok d
validated-eq-ok (ok x) h = rw (ok-injective h)
validated-eq-ok (err e) h = cc

unfoldable pub export_definition : Scenario → Http ScenarioDefinition
export_definition scenario = validated (parse_definition scenario.definition)

module _ (ext : External) where
  unfoldable pub inject_before : InjectContent → InjectContent → Bool
  inject_before a b =
      ltb_ℤ a.sequence_order b.sequence_order
      || not (ltb_ℤ b.sequence_order a.sequence_order)
        && (str_lt (or_blank a.scenario_node_id) (or_blank b.scenario_node_id)
            || or_blank a.scenario_node_id == or_blank b.scenario_node_id
              && (str_lt (or_blank a.group_id) (or_blank b.group_id)
                  || or_blank a.group_id == or_blank b.group_id
                    && str_le (ext.inject_bytes a) (ext.inject_bytes b)))

  unfoldable pub member_before : MemberContent → MemberContent → Bool
  member_before a b =
      ltb a.user_id b.user_id
      || a.user_id == b.user_id && str_le (ext.member_bytes a) (ext.member_bytes b)

  unfoldable pub communication_before : CommunicationContent → CommunicationContent → Bool
  communication_before a b =
      ltb a.sent_at b.sent_at
      || a.sent_at == b.sent_at && str_le (ext.communication_bytes a) (ext.communication_bytes b)

  -- The content of the attachment, and the inject with its digest stored.
  unfoldable pub attachment_at : Inject → Option String → Http (Option AttachmentContent × Inject)
  attachment_at inject none = ok (none, inject)
  attachment_at inject (some path) = elim (ext.attachment_digest path) [
    | none ↦ err attachment_unavailable
    | some (digest, actual_size) ↦
        if size_changed inject.attachment_size actual_size
        then err attachment_size_changed
        else ok (
          some (record {
            filename = inject.attachment_filename;
            content_type = inject.attachment_content_type;
            size = actual_size;
            sha256 = digest;
          }),
          record inject { attachment_sha256 = some digest },
        )
  ]

  unfoldable pub attachment_snapshot : Inject → Http (Option AttachmentContent × Inject)
  unfolding attachment_at
  attachment_snapshot inject = attachment_at inject inject.attachment_path

  -- The loop over the injects.
  unfoldable pub inject_contents : List Inject → Http (List InjectContent × List Inject)
  unfolding attachment_snapshot inject_content
  inject_contents [] = ok ([], [])
  inject_contents (inject ∷ rest) = do
    require (not (uncertain inject.created_during_run)) uncertain_inject
    (attachment, inject') ← attachment_snapshot inject
    (contents, injects) ← inject_contents rest
    ok (inject_content inject attachment ∷ contents, inject' ∷ injects)

  unfoldable pub build_launch_content :
      Scenario
      → Exercise
      → List Inject
      → List ExerciseMember
      → List Communication
      → Http (LaunchContent × List Inject)
  unfolding inject_contents inject_before member_before communication_before
  build_launch_content scenario exercise injects members communications = do
    require (certain_members members) uncertain_member
    require (certain_communications communications) uncertain_communication
    (contents, digested) ← inject_contents injects
    definition ← export_definition scenario
    ok (
      record {
        schema_version = snapshot_schema_version;
        scenario_version = scenario.version;
        definition = canonical_scenario_definition definition;
        title = exercise.title;
        llm_enabled = exercise.llm_enabled;
        injects = sorted inject_before contents;
        members = sorted member_before (map member_content members);
        prepared_communications =
            sorted communication_before (map communication_content communications);
      },
      digested,
    )
