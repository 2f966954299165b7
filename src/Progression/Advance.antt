-- ===== src/Progression/Advance.antt =====
-- An advance moves the cursor of its own context, and no other.
use iceberg_ttx.Prelude.{
  ℕ, String, Bool, true, false, List, [], ◌∷◌, Option, none, some, ◌≡◌, ◌≢◌, refl, sym, ◌∙◌, arith,
  inl, inr, ◌==◌, ==→≡, ==_refl, nat_eq, string_eq, option_eq, any, find, find-holds, find-update,
  find-append_none, find-append_some, update_row, Bool-cases, Option-cases, and-right,
}
use iceberg_ttx.Models.Enums.{inject_state_eq}
use iceberg_ttx.Models.Exercise.{ExerciseProgress}
use iceberg_ttx.Models.Inject.{Inject}
use iceberg_ttx.Models.Database.{Table}
use iceberg_ttx.Progression.Cursor.{of_group}
use iceberg_ttx.Progression.Resolve.{advance_cursor, advance_row, fresh_cursor}

abbrev pub cursor_of : List ExerciseProgress → ℕ → Option String → Option ExerciseProgress
cursor_of rows exercise_id group_id = find (of_group exercise_id group_id) rows

of_group-other :
    (exercise_id : ℕ) (context group_id : Option String) (p : ExerciseProgress)
    → group_id ≢ context
    → of_group exercise_id group_id p ≡ true
    → of_group exercise_id context p ≡ false
of_group-other exercise_id context group_id p ne h =
    elim (Bool-cases (of_group exercise_id context p)) [
      | inr f ↦ f
      | inl t ↦
          let a : p.group_id ≡ group_id = ==→≡ p.group_id group_id (and-right _ _ h) in
          let b : p.group_id ≡ context = ==→≡ p.group_id context (and-right _ _ t) in
          absurd (ne (sym a ∙ b))
    ]

-- The cursor of another context is where it was.
pub advance_cursor-other :
    (t : Table ExerciseProgress) (inject : Inject) (context group_id next_node_id : Option String)
    (actor_id now : ℕ)
    → group_id ≢ context
    → cursor_of
        (advance_cursor t inject context next_node_id actor_id now).rows
        inject.exercise_id
        group_id
      ≡ cursor_of t.rows inject.exercise_id group_id
unfolding advance_cursor
advance_cursor-other t inject context group_id next_node_id actor_id now ne =
    elim (Bool-cases (any (of_group inject.exercise_id context) t.rows)) [
      | inl there ↦ rw there (
          find-update (of_group inject.exercise_id context) (of_group inject.exercise_id group_id)
            (advance_row inject.id next_node_id actor_id now) (λ p. refl) t.rows
          ∙ kept)
      | inr missing ↦
          rw missing (elim (Option-cases (cursor_of t.rows inject.exercise_id group_id)) [
            | inl e ↦
                find-append_none (of_group inject.exercise_id group_id) t.rows _ e
                ∙ rw (e, of_group-none)
            | inr (row, e) ↦
                find-append_some (of_group inject.exercise_id group_id) t.rows _ e ∙ sym e
          ])
    ]
  where
    kept :
        update_row
          (of_group inject.exercise_id context)
          (advance_row inject.id next_node_id actor_id now)
          (cursor_of t.rows inject.exercise_id group_id)
        ≡ cursor_of t.rows inject.exercise_id group_id
    kept = elim (Option-cases (cursor_of t.rows inject.exercise_id group_id)) [
      | inl e ↦ rw e refl
      | inr (row, e) ↦
          let mine = find-holds (of_group inject.exercise_id group_id) t.rows e in
          let other = of_group-other inject.exercise_id context group_id row ne mine in
          rw e (rw other refl)
    ]

    of_group-none :
        of_group inject.exercise_id group_id
          (fresh_cursor inject context next_node_id actor_id now t.next_id)
        ≡ false
    of_group-none = elim (Bool-cases (context == group_id)) [
      | inl same ↦ absurd (ne (sym (==→≡ context group_id same)))
      | inr f ↦ rw f (ground arith)
    ]

any-find :
    (p : ExerciseProgress → Bool) (xs : List ExerciseProgress)
    → any p xs ≡ true
    → (x : ExerciseProgress) × (find p xs ≡ some x)
any-find p [] h = cc
any-find p (x ∷ xs) h = elim (Bool-cases (p x)) [
  | inl t ↦ (x, rw t refl)
  | inr f ↦ let (y, e) = any-find p xs (rw f at h) in (y, rw f e)
]

none-find :
    (p : ExerciseProgress → Bool) (xs : List ExerciseProgress) → any p xs ≡ false → find p xs ≡ none
none-find p [] h = refl
none-find p (x ∷ xs) h = elim (Bool-cases (p x)) [
  | inl t ↦ cc (rw t at h)
  | inr f ↦ rw f (none-find p xs (rw f at h))
]

-- The cursor of the context stands on the next node, behind this inject.
pub advance_cursor-own :
    (t : Table ExerciseProgress) (inject : Inject) (context next_node_id : Option String)
    (actor_id now : ℕ)
    → (c : ExerciseProgress) × (cursor_of
          (advance_cursor t inject context next_node_id actor_id now).rows
          inject.exercise_id
          context
        ≡ some c)
      × (c.current_node_id ≡ next_node_id)
      × (c.current_inject_id ≡ some inject.id)
unfolding advance_cursor
advance_cursor-own t inject context next_node_id actor_id now =
    elim (Bool-cases (any (of_group inject.exercise_id context) t.rows)) [
      | inl there ↦
          let (row, e) = any-find (of_group inject.exercise_id context) t.rows there in
          let mine = find-holds (of_group inject.exercise_id context) t.rows e in
          (
            advance_row inject.id next_node_id actor_id now row,
            rw there (
                find-update (of_group inject.exercise_id context)
                  (of_group inject.exercise_id context)
                  (advance_row inject.id next_node_id actor_id now) (λ p. refl) t.rows
                ∙ rw e (rw mine refl)),
            refl,
            refl,
          )
      | inr missing ↦ (
        fresh_cursor inject context next_node_id actor_id now t.next_id,
        rw missing (
            find-append_none (of_group inject.exercise_id context) t.rows _
              (none-find (of_group inject.exercise_id context) t.rows missing)
            ∙ rw (==_refl inject.exercise_id, ==_refl context) refl),
        refl,
        refl,
      )
    ]
