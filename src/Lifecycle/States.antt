-- ===== src/Lifecycle/States.antt =====
-- VALID_TRANSITIONS, TRANSITION_ACTIONS and `transition_action` of app/models/exercise.py.
use iceberg_ttx.Prelude.{
  String, true, ◌&&◌, List, [], ◌∷◌, Option, none, some, ◌==◌, ◌≡◌, refl, arith, contains, is_some,
  if◌then◌else◌, ◌≢◌, ◌⊎◌, inl, inr,
}
use iceberg_ttx.Models.Enums.{ExerciseState, draft, active, paused, completed, exercise_state_eq}

abbrev pub valid_transitions : ExerciseState → List ExerciseState
valid_transitions draft = active ∷ []
valid_transitions active = paused ∷ completed ∷ []
valid_transitions paused = active ∷ completed ∷ []
valid_transitions completed = []

abbrev pub transition_actions : List (ExerciseState × ExerciseState × String)
transition_actions =
    (draft, active, "exercise.start")
    ∷ (active, paused, "exercise.pause")
    ∷ (paused, active, "exercise.resume")
    ∷ (active, completed, "exercise.complete")
    ∷ (paused, completed, "exercise.complete")
    ∷ []

-- The dictionary lookup; none is a KeyError.
unfoldable pub lookup_action :
    List (ExerciseState × ExerciseState × String) → ExerciseState → ExerciseState → Option String
lookup_action [] from to = none
lookup_action ((f, t, action) ∷ rest) from to =
    if f == from && t == to then some action else lookup_action rest from to

unfoldable pub transition_action : ExerciseState → ExerciseState → Option String
unfolding lookup_action
transition_action from to = lookup_action transition_actions from to

-- The two tables of the state machine agree: an action is named for exactly the valid transitions.
pub transition_action-total :
    (from to : ExerciseState)
    → is_some (transition_action from to) ≡ contains to (valid_transitions from)
unfolding transition_action
transition_action-total from to = ground arith

-- The steps of the state machine, and the states that a run of it reaches.
pub data Step : ExerciseState → ExerciseState → Type 0 where
  start : Step draft active
  pause : Step active paused
  resume : Step paused active
  complete_active : Step active completed
  complete_paused : Step paused completed

pub data Reach (s : ExerciseState) : ExerciseState → Type 0 where
  here : Reach s s
  next : {t u : ExerciseState} → Reach s t → Step t u → Reach s u

-- The table of valid transitions is the step relation.
pub valid_transitions-Step :
    (from to : ExerciseState) → contains to (valid_transitions from) ≡ true → Step from to
valid_transitions-Step draft active h = start
valid_transitions-Step active paused h = pause
valid_transitions-Step active completed h = complete_active
valid_transitions-Step paused active h = resume
valid_transitions-Step paused completed h = complete_paused
valid_transitions-Step draft draft h = cc
valid_transitions-Step draft paused h = cc
valid_transitions-Step draft completed h = cc
valid_transitions-Step active draft h = cc
valid_transitions-Step active active h = cc
valid_transitions-Step paused draft h = cc
valid_transitions-Step paused paused h = cc
valid_transitions-Step completed to h = cc

-- No run leaves `completed`, and no run comes back to `draft`.
pub Reach-completed : {t : ExerciseState} → Reach completed t → t ≡ completed
Reach-completed r = go r refl
  where
    stuck : {t u : ExerciseState} → Step t u → t ≢ completed
    stuck start e = cc
    stuck pause e = cc
    stuck resume e = cc
    stuck complete_active e = cc
    stuck complete_paused e = cc

    go : {s t : ExerciseState} → Reach s t → s ≡ completed → t ≡ completed
    go here e = e
    go (next r st) e = absurd (stuck st (go r e))

pub Step-cases :
    {s t : ExerciseState}
    → Step s t
    → (s ≡ draft) × (t ≡ active)
      ⊎ ((s ≡ active) × (t ≡ paused)
          ⊎ ((s ≡ paused) × (t ≡ active)
              ⊎ ((s ≡ active) × (t ≡ completed) ⊎ (s ≡ paused) × (t ≡ completed))))
Step-cases start = inl (refl, refl)
Step-cases pause = inr (inl (refl, refl))
Step-cases resume = inr (inr (inl (refl, refl)))
Step-cases complete_active = inr (inr (inr (inl (refl, refl))))
Step-cases complete_paused = inr (inr (inr (inr (refl, refl))))
