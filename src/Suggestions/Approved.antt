-- ===== src/Suggestions/Approved.antt =====
-- What an approval promises, and that a suggestion is approved once.
use iceberg_ttx.Prelude.{
  ℕ, Bool, false, List, [], ◌∷◌, ◌++◌, map, some, ◌≡◌, ◌≢◌, refl, sym, ap, ◌∙◌, subst, arith, inl,
  inr, some_inj, ◌==◌, ==→≡, ==_refl, nat_eq, find, has_duplicates, Memᴰ, find-and, find-holds,
  find-update, map-update,
}
use iceberg_ttx.Prelude.Memᴰ
use iceberg_ttx.Prelude.Int.{ℤ, pos, ◌+ℤ◌, ◌≤ℤ◌, +ℤ_mono}
use iceberg_ttx.Errors.{
  ok, >>=-eq-ok, require-eq-ok, ok-injective, suggestion_not_found, not_under_review,
}
use iceberg_ttx.Models.Enums.{InjectState}
use iceberg_ttx.Models.Inject.{Inject}
use iceberg_ttx.Models.Database.{Db, injects_of}
use iceberg_ttx.Launch.Freeze.{lock_configuration_owner, or_raise, or_raise-eq-ok}
use iceberg_ttx.Access.Gates.{Caller, require_exercise_owner, require_operational_mutability}
use iceberg_ttx.Membership.Create.{create_inject}
use iceberg_ttx.Suggestions.Review.{
  pending_review, approved, status_eq, SuggestedInject, ReviewDb, max_ℤ, highest, next_order,
  reviewed, approve,
}

max_left : (a b : ℤ) → a ≤ℤ max_ℤ a b
max_left a b = ground arith

max_right : (a b : ℤ) → b ≤ℤ max_ℤ a b
max_right a b = ground arith

le_trans : (a b c : ℤ) → a ≤ℤ b → b ≤ℤ c → a ≤ℤ c
le_trans a b c h k = omega arith

highest-le : (x : Inject) (xs : List Inject) → Memᴰ x xs → x.sequence_order ≤ℤ highest xs
highest-le x [] m = elim m [ ]
highest-le x (y ∷ []) m = elim (Memᴰ.cases_cons m) [
  | inl e ↦ rw e (omega arith)
  | inr r ↦ elim r [ ]
]
highest-le x (y ∷ z ∷ rest) m = elim (Memᴰ.cases_cons m) [
  | inl e ↦ rw e (max_left y.sequence_order (highest (z ∷ rest)))
  | inr r ↦
      le_trans x.sequence_order (highest (z ∷ rest)) _ (highest-le x (z ∷ rest) r)
        (max_right y.sequence_order (highest (z ∷ rest)))
]

next_order-above :
    (db : Db) (exercise_id : ℕ) (x : Inject)
    → Memᴰ x (injects_of db exercise_id)
    → x.sequence_order +ℤ pos 1 ≤ℤ next_order db exercise_id
unfolding next_order
next_order-above db exercise_id x m =
    +ℤ_mono x.sequence_order (highest (injects_of db exercise_id)) (pos 1) (pos 1)
      (highest-le x (injects_of db exercise_id) m) (omega arith)

abbrev pub by_id : ℕ → SuggestedInject → Bool
by_id id x = x.id == id

abbrev pub HasSuggestionKeys : ReviewDb → Type 0
HasSuggestionKeys r = has_duplicates (map (λ (x : SuggestedInject). x.id) r.suggested.rows) ≡ false

-- The approval of a suggestion in `r`, which gave `inject`.
pub record Approves (r r' : ReviewDb) (exercise_id suggested_id : ℕ) (inject : Inject)
    : Type 0 where
  pub suggestion : SuggestedInject
  pub was : find (by_id suggested_id) r.suggested.rows ≡ some suggestion
  pub was_pending : suggestion.status ≡ pending_review
  pub after : SuggestedInject
  pub stored : find (by_id suggested_id) r'.suggested.rows ≡ some after
  pub is_approved : after.status ≡ approved
  pub keys : HasSuggestionKeys r'
  -- One inject more, which waits behind all others of the exercise.
  pub added : r'.db.injects.rows ≡ r.db.injects.rows ++ inject ∷ []
  pub waits : inject.state ≡ InjectState.pending
  pub content : inject.content ≡ suggestion.content
  pub last :
      (x : Inject)
      → Memᴰ x (injects_of r.db exercise_id)
      → x.sequence_order +ℤ pos 1 ≤ℤ inject.sequence_order

-- An approval that goes through has found the suggestion under review, marks its stored row as
-- approved, keeps the identifiers distinct, and adds one pending inject with its content, whose
-- order is above that of every inject of the exercise. The identifiers of the suggestions are
-- distinct.
pub approve-Approves :
    (r : ReviewDb) (exercise_id suggested_id : ℕ) (c : Caller) (now : ℕ) (inject : Inject)
    (r' : ReviewDb)
    → HasSuggestionKeys r
    → approve r exercise_id suggested_id c now ≡ ok (inject, r')
    → Approves r r' exercise_id suggested_id inject
unfolding approve create_inject
approve-Approves r exercise_id suggested_id c now inject r' keys h =
    let (loaded, _, h₁) = >>=-eq-ok (require_exercise_owner r.db exercise_id c) _ h in
    let (_, _, h₂) = >>=-eq-ok (require_operational_mutability loaded) _ h₁ in
    let ((scenario, exercise), _, h₃) = >>=-eq-ok (lock_configuration_owner r.db loaded) _ h₂ in
    let (_, _, h₄) = >>=-eq-ok (require_operational_mutability exercise) _ h₃ in
    let (s, found, h₅) = >>=-eq-ok (or_raise _ suggestion_not_found) _ h₄ in
    let (waiting, h₆) = require-eq-ok (s.status == pending_review) not_under_review _ h₅ in
    let (current, _) =
      find-and (λ (x : SuggestedInject). x.id) suggested_id (λ x. x.exercise_id == exercise_id)
        r.suggested.rows keys (or_raise-eq-ok _ _ found) in
    let verdict = reviewed approved c now in
    let here : s.id ≡ suggested_id =
      ==→≡ s.id suggested_id (find-holds (by_id suggested_id) r.suggested.rows current) in
    subst (λ (x : Inject × ReviewDb). Approves r x.1 exercise_id suggested_id x.0) (ok-injective h₆)
      (record {
        suggestion = s;
        was = current;
        was_pending = ==→≡ s.status pending_review waiting;
        after = verdict s;
        stored =
            find-update (by_id s.id) (by_id suggested_id) verdict (λ x. refl) r.suggested.rows
            ∙ rw (current, ==_refl s.id) refl;
        is_approved = refl;
        keys =
            rw
              (map-update (λ (x : SuggestedInject). x.id) (by_id s.id) verdict r.suggested.rows
                (λ x. refl))
              keys;
        added = refl;
        waits = refl;
        content = refl;
        last = λ x m. next_order-above r.db exercise_id x m;
      })

-- No suggestion becomes two injects.
approve-once :
    (r : ReviewDb) (exercise_id suggested_id : ℕ) (c d : Caller) (now later : ℕ)
    (inject again : Inject) (r' r'' : ReviewDb)
    → HasSuggestionKeys r
    → approve r exercise_id suggested_id c now ≡ ok (inject, r')
    → approve r' exercise_id suggested_id d later ≢ ok (again, r'')
approve-once r exercise_id suggested_id c d now later inject again r' r'' keys h second =
    let a = approve-Approves r exercise_id suggested_id c now inject r' keys h in
    let b = approve-Approves r' exercise_id suggested_id d later again r'' a.keys second in
    let same : b.suggestion ≡ a.after = some_inj (sym b.was ∙ a.stored) in
    let open_still : a.after.status ≡ pending_review =
      ap (λ (x : SuggestedInject). x.status) (sym same) ∙ b.was_pending in
    cc (rw a.is_approved at open_still)
