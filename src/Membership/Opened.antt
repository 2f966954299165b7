-- ===== src/Membership/Opened.antt =====
-- What `create_exercise` promises.
use iceberg_ttx.Prelude.{
  ℕ, suc, ◌<◌, String, Bool, true, false, not, ◌&&◌, List, [], ◌∷◌, map, Option, none, some, ◌≡◌,
  refl, subst, ◌∙◌, arith, inl, inr, Bool-cases, ◌==◌, ==_refl, nat_eq, Memᴰ, mem-select,
  mem-select_of, find-append_none, find-none, select-none, and-left, ◌++◌,
}
use iceberg_ttx.Errors.{ok, ◌>>=◌, >>=-eq-ok, ok-injective, scenario_not_found}
use iceberg_ttx.Models.Enums.{draft, InjectState, inject_state_eq}
use iceberg_ttx.Models.Scenario.{InjectNode, ParticipantTeam, Scenario, ScenarioDefinition}
use iceberg_ttx.Models.Exercise.{Exercise, ExerciseStateTransition, ExerciseProgress}
use iceberg_ttx.Models.Inject.{Inject}
use iceberg_ttx.Models.Database.{
  Db, get_scenario, get_exercise, injects_of, progress_of, transitions_of,
}
use iceberg_ttx.Launch.Content.{export_definition}
use iceberg_ttx.Launch.Freeze.{or_raise, or_raise-eq-ok}
use iceberg_ttx.Lifecycle.Timeline.{IsTimeline, IsTimeline-draft}
use iceberg_ttx.Progression.Cursor.{roster_changes_allowed, seed_progression}
use iceberg_ttx.Membership.Create.{
  node_groups, seed_nodes, new_exercise, create_exercise, seed_injects_from_scenario,
}
use iceberg_ttx.Membership.Seeded.{
  IsSeed, seeds, numbered, seed_nodes-rows, seed_nodes-has, seed_nodes-exact,
}
use iceberg_ttx.Membership.Paths.{starts, seed_cursors-has}

-- No row belongs to an exercise that the serial column has still to give.
pub record IsFresh (db : Db) : Type 0 where
  pub exercises : (e : Exercise) → Memᴰ e db.exercises.rows → e.id < db.exercises.next_id
  pub injects : (i : Inject) → Memᴰ i db.injects.rows → i.exercise_id < db.exercises.next_id
  pub cursors :
      (c : ExerciseProgress) → Memᴰ c db.progress.rows → c.exercise_id < db.exercises.next_id
  pub history :
      (t : ExerciseStateTransition)
      → Memᴰ t db.transitions.rows
      → t.exercise_id < db.exercises.next_id

-- The groups that have a path: the shared one and each team.
abbrev pub contexts_of : ScenarioDefinition → List (Option String)
contexts_of d = none ∷ map some (map (λ (t : ParticipantTeam). t.id) d.participant_teams)

pub record Opens (db' : Db) (d : ScenarioDefinition) (after : Exercise) : Type 0 where
  pub stored : get_exercise db' after.id ≡ some after
  pub drafted : after.state ≡ draft
  pub timeline : IsTimeline after (transitions_of db' after.id)
  -- The injects, in their order, are one for each node and each of its target teams, with consecutive
  -- serials.
  pub first : ℕ
  pub exact : injects_of db' after.id ≡ numbered after.id first (seeds after.id 0 d.injects)
  -- Each is built from its node, and each node and target team has one.
  pub seeded :
      (x : Inject)
      → Memᴰ x (injects_of db' after.id)
      → (n : InjectNode) × Memᴰ n d.injects × (g : Option String) × IsSeed after.id n g x
  pub complete :
      (n : InjectNode) (g : Option String)
      → Memᴰ n d.injects
      → Memᴰ g (node_groups n.target_teams)
      → (x : Inject) × Memᴰ x (injects_of db' after.id) × IsSeed after.id n g x
  -- Every path stands on the start node, and nothing is released yet.
  pub paths :
      (g : Option String)
      → Memᴰ g (contexts_of d)
      → (c : ExerciseProgress) × Memᴰ c (progress_of db' after.id)
        × (starts after.id d.start_inject_id g c ≡ true)
  pub unlocked : roster_changes_allowed db' after.id ≡ true

below_other : (a n : ℕ) → a < n → (a == n) ≡ false
below_other a n h = ground arith

module _ (db : Db) (fresh : IsFresh db) (d : ScenarioDefinition) (now : ℕ) (scenario_id : ℕ)
    (title : String) (created_by : ℕ) (llm_enabled : Bool) where
  abbrev id : ℕ
  id = db.exercises.next_id

  abbrev row : Exercise
  row = new_exercise scenario_id title created_by llm_enabled d.start_inject_id now id

  abbrev final : Db
  final =
      seed_progression
        (record db {
          exercises = record { rows = db.exercises.rows ++ row ∷ []; next_id = suc id };
          injects = seed_nodes db.injects id 0 d.injects;
        })
        id d.start_inject_id (map (λ (t : ParticipantTeam). t.id) d.participant_teams) now

  new_inject :
      (x : Inject)
      → Memᴰ x final.injects.rows
      → (x.exercise_id == id) ≡ true
      → (n : InjectNode) × Memᴰ n d.injects × (g : Option String) × IsSeed id n g x
  unfolding seed_progression
  new_inject x m t = elim (seed_nodes-rows id 0 d.injects db.injects x m) [
    | inl old ↦ let f = below_other x.exercise_id _ (fresh.injects x old) in cc
    | inr seed ↦ seed
  ]

  paths_start :
      (g : Option String)
      → Memᴰ g (contexts_of d)
      → (c : ExerciseProgress) × Memᴰ c (progress_of final id)
        × (starts id d.start_inject_id g c ≡ true)
  unfolding seed_progression
  paths_start g m =
      let (c, mem, s) =
        seed_cursors-has id d.start_inject_id now db.progress (contexts_of d) g
          (λ c old t. absurd (let f = below_other c.exercise_id _ (fresh.cursors c old) in cc)) m in
      (c, mem-select_of _ c _ mem (and-left _ _ (and-left _ _ s)), s)

  all_nodes :
      (n : InjectNode) (g : Option String)
      → Memᴰ n d.injects
      → Memᴰ g (node_groups n.target_teams)
      → (x : Inject) × Memᴰ x (injects_of final id) × IsSeed id n g x
  unfolding seed_progression
  all_nodes n g m target =
      let (x, mem, seed) = seed_nodes-has id 0 d.injects db.injects n g m target in
      let own : (x.exercise_id == id) ≡ true = rw seed.built (==_refl id) in
      (x, mem-select_of _ x _ mem own, seed)

  not_out :
      (x : Inject)
      → Memᴰ x final.injects.rows
      → (x.exercise_id == id && not (x.state == InjectState.pending)) ≡ false
  not_out x m = elim (Bool-cases (x.exercise_id == id)) [
    | inl t ↦
        let (_, _, _, seed) = new_inject x m t in
        let waits : x.state ≡ InjectState.pending = rw seed.built refl in rw (t, waits) refl
    | inr f ↦ rw f refl
  ]

  final-Opens : Opens final d row
  unfolding seed_progression roster_changes_allowed
  final-Opens = record {
    stored =
        find-append_none (λ e. e.id == id) db.exercises.rows (row ∷ [])
          (find-none _ _ (λ e m. below_other e.id _ (fresh.exercises e m)))
        ∙ rw (==_refl id) refl;
    drafted = refl;
    timeline =
        let unmoved =
          select-none (λ (t : ExerciseStateTransition). t.exercise_id == id) db.transitions.rows
            (λ t m. below_other t.exercise_id _ (fresh.history t m)) in
        rw unmoved (IsTimeline-draft row refl refl refl refl refl);
    first = db.injects.next_id;
    exact = seed_nodes-exact id 0 d.injects db.injects (
        select-none (λ (x : Inject). x.exercise_id == id) db.injects.rows
          (λ x m. below_other x.exercise_id _ (fresh.injects x m)));
    seeded = λ x m. let (mem, t) = mem-select _ x _ m in new_inject x mem t;
    complete = all_nodes;
    paths = paths_start;
    unlocked = rw (find-none _ _ not_out) refl;
  }

  -- The steps after the definition is read.
  finish-Opens :
      (s : Scenario) (after : Exercise) (db' : Db)
      → export_definition s ≡ ok d
      → ◌>>=◌ {B = Exercise × Db}
          (seed_injects_from_scenario
            (record db {
              exercises = record { rows = db.exercises.rows ++ row ∷ []; next_id = suc id };
            })
            id
            s)
          (λ seeded. ok (
            row,
            seed_progression seeded id d.start_inject_id
                (map (λ (t : ParticipantTeam). t.id) d.participant_teams)
                now,
          ))
        ≡ ok (after, db')
      → Opens db' d after
  unfolding seed_injects_from_scenario
  finish-Opens s after db' exported h =
      subst (λ (r : Exercise × Db). Opens r.1 d r.0) (ok-injective (rw exported at h)) final-Opens

-- Where no row belongs to an exercise still to come, a creation that goes through has found a
-- scenario whose definition validates, and stores a draft whose times fit its empty history, with
-- exactly one inject for each node and each of its target teams, in their order and with
-- consecutive serials, a cursor on the start node for the shared path and for each team, and an
-- open roster.
pub create_exercise-Opens :
    (db : Db) (scenario_id : ℕ) (title : String) (created_by : ℕ) (llm_enabled : Bool) (now : ℕ)
    (after : Exercise) (db' : Db)
    → IsFresh db
    → create_exercise db scenario_id title created_by llm_enabled now ≡ ok (after, db')
    → (s : Scenario) × (d : ScenarioDefinition) × (get_scenario db scenario_id ≡ some s)
      × (export_definition s ≡ ok d)
      × Opens db' d after
unfolding create_exercise
create_exercise-Opens db scenario_id title created_by llm_enabled now after db' fresh h =
    let (s, found, h₁) =
      >>=-eq-ok (or_raise (get_scenario db scenario_id) scenario_not_found) _ h in
    let (d, exported, h₂) = >>=-eq-ok (export_definition s) _ h₁ in
    (
      s,
      d,
      or_raise-eq-ok _ _ found,
      exported,
      finish-Opens db fresh d now scenario_id title created_by llm_enabled s after db' exported h₂,
    )
