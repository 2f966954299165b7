-- ===== src/Progression/Roster.antt =====
-- The roster lock of app/services/progression_service.py.
use iceberg_ttx.Prelude.{
  ℕ, Bool, false, not, ◌&&◌, Option, ◌≡◌, refl, ap, ◌==◌, ==_refl, nat_eq, mem-of_find, mem-find,
}
use iceberg_ttx.Errors.{ok}
use iceberg_ttx.Models.Enums.{InjectState, released, inject_state_eq}
use iceberg_ttx.Models.Inject.{Inject}
use iceberg_ttx.Models.Database.{Db}
use iceberg_ttx.Progression.Cursor.{roster_changes_allowed}
use iceberg_ttx.Progression.Release.{release_inject}
use iceberg_ttx.Progression.Once.{HasInjectKeys, release_inject-Releases}

-- After a release of an inject goes through, the roster of its exercise can no longer be changed.
-- The identifiers of the injects are distinct.
pub roster-locked :
    (db : Db) (inject : Inject) (released_by : Option ℕ) (scheduled : Bool) (now : ℕ)
    (after : Inject) (db' : Db)
    → HasInjectKeys db
    → release_inject db inject released_by scheduled now ≡ ok (after, db')
    → roster_changes_allowed db' after.exercise_id ≡ false
unfolding roster_changes_allowed
roster-locked db inject released_by scheduled now after db' keys h =
    let r = release_inject-Releases db inject released_by scheduled now after db' keys h in
    let stands = mem-of_find (λ (i : Inject). i.id == inject.id) db'.injects.rows r.stored in
    let out : after.state ≡ released = ap (λ (i : Inject). i.state) r.after_eq in
    mem-find
      (λ (i : Inject). i.exercise_id == after.exercise_id && not (i.state == InjectState.pending))
      after db'.injects.rows stands (rw (==_refl after.exercise_id, out) refl)
