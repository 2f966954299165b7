-- ===== src/Launch/Frozen.antt =====
-- What freezing the launch configuration has done.
use iceberg_ttx.Prelude.{
  ℕ, String, Bool, true, false, not, List, [], ◌∷◌, map, some, ◌≡◌, refl, sym, ◌∙◌, ap, subst,
  arith, inl, inr, ◌==◌, ==→≡, ==_refl, nat_eq, string_eq, select, update, is_none, find-update,
  find-holds, find-append_none, update_row, Bool-cases, Option-cases,
}
use mathlib.Core.Bool.{decide_iff}
use iceberg_ttx.Errors.{
  ok, ◌>>=◌, require-eq-ok, >>=-eq-ok, ok-injective, scenario_gone, exercise_not_found,
  uncertain_member, uncertain_communication,
}
use iceberg_ttx.Models.Enums.{draft, exercise_state_eq}
use iceberg_ttx.Models.Scenario.{Scenario, ScenarioDefinition}
use iceberg_ttx.Models.Exercise.{Exercise, ExerciseMember}
use iceberg_ttx.Models.Inject.{Inject}
use iceberg_ttx.Models.Communication.{Communication}
use iceberg_ttx.Models.Launch.{LaunchContent}
use iceberg_ttx.Models.Database.{Db, Table, get_scenario, get_exercise, injects_of, members_of}
use iceberg_ttx.Scenario.Validate.{parse_definition}
use iceberg_ttx.Launch.Content.{
  External, certain_members, certain_communications, inject_contents, build_launch_content,
  canonical_scenario_definition, validated, export_definition,
}
use iceberg_ttx.Launch.Freeze.{
  or_raise, or_raise-eq-ok, lock_configuration_owner, Snapshots, insert_snapshot, find_snapshot,
  collides, freeze_row, freeze_launch_configuration, definition_for_exercise,
  LaunchContent-discrete,
}

pub record Freezes (db db' : Db) (exercise frozen : Exercise) : Type 0 where
  pub row : Exercise
  pub current : get_exercise db exercise.id ≡ some row
  pub in_draft : row.state ≡ draft
  pub digest : String
  pub stamped : frozen ≡ freeze_row digest row
  -- Of the exercises, only that row is stamped.
  pub exercises :
      (id : ℕ)
      → get_exercise db' id
        ≡ update_row (λ (e : Exercise). e.id == row.id) (freeze_row digest) (get_exercise db id)
  pub keys :
      map (λ (e : Exercise). e.id) db'.exercises.rows
      ≡ map (λ (e : Exercise). e.id) db.exercises.rows
  pub transitions : db'.transitions ≡ db.transitions
  pub events : db'.events ≡ db.events
  pub jobs : db'.jobs ≡ db.jobs
  -- The snapshot under the digest holds the canonical definition of the scenario.
  pub scenario : Scenario
  pub owner : get_scenario db row.scenario_id ≡ some scenario
  pub content : LaunchContent
  pub kept : find_snapshot db'.snapshots digest ≡ some (digest, content)
  pub definition : ScenarioDefinition
  pub parsed : export_definition scenario ≡ ok definition
  pub captured : content.definition ≡ canonical_scenario_definition definition

keys-update :
    (p : Exercise → Bool) (digest : String) (xs : List Exercise)
    → map (λ (e : Exercise). e.id) (update p (freeze_row digest) xs)
      ≡ map (λ (e : Exercise). e.id) xs
keys-update p digest [] = refl
keys-update p digest (x ∷ xs) = elim (Bool-cases (p x)) [
  | inl t ↦ rw (t, keys-update p digest xs)
  | inr f ↦ rw (f, keys-update p digest xs)
]

lock-facts :
    (db : Db) (exercise : Exercise) {scenario : Scenario} {locked : Exercise}
    → lock_configuration_owner db exercise ≡ ok (scenario, locked)
    → (get_exercise db exercise.id ≡ some locked)
      × (get_scenario db exercise.scenario_id ≡ some scenario)
      × (locked.scenario_id ≡ scenario.id)
unfolding lock_configuration_owner
lock-facts db exercise {scenario} {locked} h =
    let (s, a, h₁) =
      >>=-eq-ok (or_raise (get_scenario db exercise.scenario_id) scenario_gone) _ h in
    let (l, b, h₂) = >>=-eq-ok (or_raise (get_exercise db exercise.id) exercise_not_found) _ h₁ in
    let (c, h₃) = require-eq-ok _ _ _ h₂ in
    let c' : l.scenario_id ≡ s.id = ==→≡ l.scenario_id s.id c in
    let same = ok-injective h₃ in
    let s' : s ≡ scenario = ap (λ (x : Scenario × Exercise). x.0) same in
    let l' : l ≡ locked = ap (λ (x : Scenario × Exercise). x.1) same in
    (rw (← l') (or_raise-eq-ok _ _ b), rw (← s') (or_raise-eq-ok _ _ a), rw (l', s') at c')

-- The insert leaves a snapshot under the digest, and the check that it does not collide means that
-- this is the content.
snapshot-kept :
    (snapshots : Snapshots) (digest : String) (content : LaunchContent)
    → collides content (find_snapshot (insert_snapshot snapshots digest content) digest) ≡ false
    → find_snapshot (insert_snapshot snapshots digest content) digest ≡ some (digest, content)
unfolding insert_snapshot
snapshot-kept snapshots digest content h = elim (Option-cases (find_snapshot snapshots digest)) [
  | inl fresh ↦ rw fresh (
      find-append_none (λ (s : String × LaunchContent). s.0 == digest) snapshots
        ((digest, content) ∷ []) fresh
      ∙ rw (==_refl digest))
  | inr ((d, c), found) ↦
      let clash = rw (found, found) at h in
      let same_content : c ≡ content =
        (decide_iff (LaunchContent-discrete c content)).0 (ground arith) in
      let same_digest : d ≡ digest =
        ==→≡ d digest
          (find-holds (λ (s : String × LaunchContent). s.0 == digest) snapshots found) in
      rw found (found ∙ λ i. some (same_digest i, same_content i))
]

IsTrue-not : (b : Bool) → not b ≡ true → b ≡ false
IsTrue-not b h = ground arith

content-definition :
    (ext : External) (scenario : Scenario) (locked : Exercise) (injects : List Inject)
    (members : List ExerciseMember) (communications : List Communication) {content : LaunchContent}
    {digested : List Inject}
    → build_launch_content ext scenario locked injects members communications
      ≡ ok (content, digested)
    → (definition : ScenarioDefinition) × (export_definition scenario ≡ ok definition)
      × (content.definition ≡ canonical_scenario_definition definition)
unfolding build_launch_content
content-definition ext scenario locked injects members communications {content} {digested} h =
    let (_, h₁) = require-eq-ok (certain_members members) uncertain_member _ h in
    let (_, h₂) =
      require-eq-ok (certain_communications communications) uncertain_communication _ h₁ in
    let (made, _, h₃) = >>=-eq-ok (inject_contents ext injects) _ h₂ in
    let (definition, parsed, h₄) = >>=-eq-ok (export_definition scenario) _ h₃ in
    let same = ok-injective h₄ in
    (definition, parsed, sym (ap (λ (x : LaunchContent × List Inject). x.0.definition) same))

-- A freeze that goes through has found the exercise in draft, stamps its current row and no other
-- exercise with the digest of a stored snapshot, which holds the canonical definition of the
-- scenario, and leaves the history, the events and the jobs as they were.
pub freeze_launch_configuration-Freezes :
    (ext : External) (db : Db) (exercise : Exercise) {frozen : Exercise} {db' : Db}
    → freeze_launch_configuration ext db exercise ≡ ok (frozen, db')
    → Freezes db db' exercise frozen
unfolding freeze_launch_configuration
freeze_launch_configuration-Freezes ext db exercise {frozen} {db'} h =
    let ((scenario, locked), lock, h₁) = >>=-eq-ok (lock_configuration_owner db exercise) _ h in
    let (current, owner, same_owner) = lock-facts db exercise lock in
    let (in_draft, h₂) = require-eq-ok (locked.state == draft) _ _ h₁ in
    let (_, h₃) = require-eq-ok (is_none locked.launch_snapshot_digest) _ _ h₂ in
    let ((content, digested), built, h₄) =
      >>=-eq-ok
        (build_launch_content ext scenario locked (injects_of db locked.id)
          (members_of db locked.id)
          (select (λ (c : Communication). c.exercise_id == locked.id) db.communications.rows))
        _ h₃ in
    let digest = ext.snapshot_digest content in
    let (definition, parsed, captured) = content-definition ext scenario locked _ _ _ built in
    let (clear, h₅) = require-eq-ok _ _ _ h₄ in
    let same = ok-injective h₅ in
    subst (λ (x : Exercise × Db). Freezes db x.1 exercise x.0) same
      (record {
        row = locked;
        current = current;
        in_draft = ==→≡ locked.state draft in_draft;
        digest = digest;
        stamped = refl;
        exercises = λ id.
            find-update (λ (e : Exercise). e.id == locked.id) (λ (e : Exercise). e.id == id)
              (freeze_row digest) (λ e. refl) db.exercises.rows;
        keys = keys-update (λ (e : Exercise). e.id == locked.id) digest db.exercises.rows;
        transitions = refl;
        events = refl;
        jobs = refl;
        scenario = scenario;
        owner =
            let key : locked.scenario_id ≡ exercise.scenario_id =
              same_owner
              ∙ ==→≡ scenario.id exercise.scenario_id (
                  find-holds (λ (s : Scenario). s.id == exercise.scenario_id) db.scenarios.rows
                    owner) in
            rw key owner;
        content = content;
        kept = snapshot-kept db.snapshots digest content (IsTrue-not _ clear);
        definition = definition;
        parsed = parsed;
        captured = captured;
      })

-- After a launch configuration is frozen, the definition that the exercise runs on is what
-- validation makes of the canonical form of the definition that its scenario had at the freeze,
-- whatever table of scenarios comes after.
pub frozen_definition :
    (ext : External) (db : Db) (exercise : Exercise) {frozen : Exercise} {db' : Db}
    (scenarios : Table Scenario)
    → freeze_launch_configuration ext db exercise ≡ ok (frozen, db')
    → (scenario : Scenario) × (definition : ScenarioDefinition) × (get_scenario db
          frozen.scenario_id
        ≡ some scenario)
      × (export_definition scenario ≡ ok definition)
      × (definition_for_exercise (record db' { scenarios = scenarios }) exercise.id ≡ (
          validated (parse_definition (canonical_scenario_definition definition)) >>= λ d.
          ok (some d)))
unfolding definition_for_exercise
frozen_definition ext db exercise {frozen} {db'} scenarios h =
    let f = freeze_launch_configuration-Freezes ext db exercise h in
    let same_id : f.row.id ≡ exercise.id =
      ==→≡ f.row.id exercise.id
        (find-holds (λ (e : Exercise). e.id == exercise.id) db.exercises.rows f.current) in
    let stamped : get_exercise db' exercise.id ≡ some (freeze_row f.digest f.row) =
      f.exercises exercise.id ∙ rw (f.current) (rw (same_id, ==_refl exercise.id)) in
    (f.scenario, f.definition, rw f.stamped f.owner, f.parsed, rw (stamped, f.kept) (rw f.captured))
