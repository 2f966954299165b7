-- ===== src/Membership/Paths.antt =====
-- The cursors that a new exercise starts with.
use iceberg_ttx.Prelude.{
  ℕ, String, Bool, true, ◌&&◌, List, [], ◌∷◌, Option, some, ◌≡◌, refl, inl, inr, Bool-cases, ◌==◌,
  ==_refl, nat_eq, option_eq, string_eq, any, mem-any, and-left, Memᴰ, mem-snoc, mem-snoc_old,
  mem-snoc_new,
}
use iceberg_ttx.Models.Exercise.{ExerciseProgress}
use iceberg_ttx.Models.Database.{Table}
use iceberg_ttx.Progression.Cursor.{new_cursor, of_group, seed_cursor, seed_cursors}

module _ (exercise_id : ℕ) where
  -- A cursor that stands on the start node, for a context.
  abbrev pub starts : String → Option String → ExerciseProgress → Bool
  starts start g c = of_group exercise_id g c && c.current_node_id == some start

  module _ (start : String) (now : ℕ) where
    -- The cursors that the exercise has are on the start node.
    abbrev AtStart : Table ExerciseProgress → Type 0
    AtStart t =
        (c : ExerciseProgress)
        → Memᴰ c t.rows
        → (c.exercise_id == exercise_id) ≡ true
        → (c.current_node_id == some start) ≡ true

    seed_cursor-AtStart :
        (t : Table ExerciseProgress) (g : Option String)
        → AtStart t
        → AtStart (seed_cursor t exercise_id start now g)
    unfolding seed_cursor
    seed_cursor-AtStart t g at_start c m own =
        elim (Bool-cases (any (of_group exercise_id g) t.rows)) [
          | inl there ↦ at_start c (rw there at m) own
          | inr new ↦ elim (mem-snoc c _ t.rows (rw new at m)) [
            | inl old ↦ at_start c old own
            | inr e ↦ rw e (==_refl (some start))
          ]
        ]

    seed_cursor-keeps :
        (t : Table ExerciseProgress) (g : Option String) (c : ExerciseProgress)
        → Memᴰ c t.rows
        → Memᴰ c (seed_cursor t exercise_id start now g).rows
    unfolding seed_cursor
    seed_cursor-keeps t g c m = elim (Bool-cases (any (of_group exercise_id g) t.rows)) [
      | inl there ↦ rw there m
      | inr new ↦ rw new (mem-snoc_old c _ t.rows m)
    ]

    seed_cursor-has :
        (t : Table ExerciseProgress) (g : Option String)
        → AtStart t
        → (c : ExerciseProgress) × Memᴰ c (seed_cursor t exercise_id start now g).rows
          × (starts start g c ≡ true)
    unfolding seed_cursor
    seed_cursor-has t g at_start = elim (Bool-cases (any (of_group exercise_id g) t.rows)) [
      | inl there ↦
          let (c, m, own) = mem-any (of_group exercise_id g) t.rows there in
          (c, rw there m, rw (own, at_start c m (and-left _ _ own)) refl)
      | inr new ↦
          let c = new_cursor exercise_id g now start t.next_id in
          (
            c,
            rw new (mem-snoc_new c t.rows),
            rw (==_refl exercise_id, ==_refl g, ==_refl (some start)) refl,
          )
    ]

    seed_cursors-keeps :
        (t : Table ExerciseProgress) (groups : List (Option String)) (c : ExerciseProgress)
        → Memᴰ c t.rows
        → Memᴰ c (seed_cursors t exercise_id start now groups).rows
    unfolding seed_cursors
    seed_cursors-keeps t [] c m = m
    seed_cursors-keeps t (g ∷ groups) c m =
        seed_cursors-keeps (seed_cursor t exercise_id start now g) groups c
          (seed_cursor-keeps t g c m)

    pub seed_cursors-has :
        (t : Table ExerciseProgress) (groups : List (Option String)) (g : Option String)
        → AtStart t
        → Memᴰ g groups
        → (c : ExerciseProgress) × Memᴰ c (seed_cursors t exercise_id start now groups).rows
          × (starts start g c ≡ true)
    unfolding seed_cursors
    seed_cursors-has t [] g at_start m = elim m [ ]
    seed_cursors-has t (h ∷ groups) g at_start (Memᴰ.head e) =
        let (c, mem, s) = seed_cursor-has t h at_start in
        (c, seed_cursors-keeps (seed_cursor t exercise_id start now h) groups c mem, rw e s)
    seed_cursors-has t (h ∷ groups) g at_start (Memᴰ.tail m) =
        seed_cursors-has (seed_cursor t exercise_id start now h) groups g
          (seed_cursor-AtStart t h at_start) m
