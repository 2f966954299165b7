-- ===== src/Inbox/Sent.antt =====
-- A member sees what they send.
use iceberg_ttx.Prelude.{
  ℕ, String, Bool, true, false, ◌||◌, List, [], ◌∷◌, Option, none, some, ◌≡◌, ◌≢◌, refl, subst,
  arith, inl, inr, Bool-cases, ◌==◌, ==_refl, nat_eq, option_eq, string_eq, is_none, is_blank, Memᴰ,
  mem-snoc, mem-snoc_new, has_duplicates-snoc, contains-map_of_above,
}
use iceberg_ttx.Errors.{
  ok, >>=-eq-ok, require-eq-ok, ok-injective, only_participants, comms_need_active, only_outbound,
}
use iceberg_ttx.Models.Enums.{
  participant, user_role_eq, outbound, direction_eq, facilitator, observer, active,
  exercise_state_eq,
}
use iceberg_ttx.Models.Exercise.{ExerciseMember}
use iceberg_ttx.Models.Communication.{Communication}
use iceberg_ttx.Models.Database.{Db}
use iceberg_ttx.Access.Gates.{
  Caller, require_exercise_access, require_operational_mutability, exercise_group_for_user,
  exercise_member_for_user,
}
use iceberg_ttx.Membership.Teams.{validate_team_ids}
use iceberg_ttx.Inbox.Senders.{truthy, or_other, sender_team_for_comm}
use iceberg_ttx.Inbox.Listing.{inbox, comm_visible_to_user}
use iceberg_ttx.Inbox.Visible.{HasMessages, inbox-visible, role_cases}
use iceberg_ttx.Inbox.Send.{
  NewCommunication, teams_or_none, comm_row, create_communication, SendCommRequest, sent_comm,
  send_comm,
}

stored_audience : (teams : Option (List String)) → teams_or_none teams ≢ some []
stored_audience none h = cc
stored_audience (some []) h = cc
stored_audience (some (t ∷ ts)) h = cc

create_communication-HasMessages :
    (db : Db) (new : NewCommunication) (now : ℕ)
    → HasMessages db
    → HasMessages (create_communication db new now).1
unfolding create_communication
create_communication-HasMessages db new now tables =
    let row = comm_row new now db.communications.next_id in
    let id_of = λ (m : Communication). m.id in
    record {
      once = tables.once;
      users = tables.users;
      ids = has_duplicates-snoc id_of row db.communications.rows tables.ids (
          contains-map_of_above id_of db.communications.next_id db.communications.rows
            tables.below);
      below = λ m mem. elim (mem-snoc m row db.communications.rows mem) [
        | inl old ↦ omega (arith, tables.below m old)
        | inr e ↦ rw e (omega arith)
      ];
      audience = λ m mem. elim (mem-snoc m row db.communications.rows mem) [
        | inl old ↦ tables.audience m old
        | inr e ↦ rw e (stored_audience new.visible_to_teams)
      ];
    }

-- The sender's own group passes the test, whatever else may.
own_group_seen :
    (g : Option String) (r : Bool)
    → (is_none (or_other (truthy g) g) || (or_other (truthy g) g == g) || r) ≡ true
own_group_seen none r = refl
own_group_seen (some t) r = elim (Bool-cases (is_blank t)) [
  | inl b ↦ rw (b, ==_refl t) refl
  | inr n ↦ rw (n, ==_refl t) refl
]

participant_only :
    (c : Caller)
    → (c.user.role == participant) ≡ true
    → (c.user.role == facilitator || c.user.role == observer) ≡ false
participant_only c h = elim (role_cases c.user.role) [
  | inl (part, not_staff) ↦ not_staff
  | inr (other, staff) ↦ cc
]

sent_visible :
    (db : Db) (exercise_id : ℕ) (body : SendCommRequest) (c : Caller) (now : ℕ)
    (teams : Option (List String)) (member : ExerciseMember)
    → (c.user.role == participant) ≡ true
    → (body.direction == outbound) ≡ true
    → exercise_member_for_user db exercise_id c.user.id ≡ some member
    → comm_visible_to_user
        (create_communication db
          (sent_comm exercise_id body c (exercise_group_for_user db exercise_id c) teams)
          now).1
        (create_communication db
          (sent_comm exercise_id body c (exercise_group_for_user db exercise_id c) teams)
          now).0
        c
      ≡ true
unfolding create_communication comm_visible_to_user exercise_group_for_user sender_team_for_comm
    exercise_member_for_user
sent_visible db exercise_id body c now teams member part out found =
    rw (participant_only c part, out, found, ==_refl c.user.id) (own_group_seen member.group_id _)

created_inbox :
    (db : Db) (exercise_id : ℕ) (body : SendCommRequest) (c : Caller) (now : ℕ)
    (teams : Option (List String)) (member : ExerciseMember)
    → HasMessages db
    → (c.user.role == participant) ≡ true
    → (body.direction == outbound) ≡ true
    → exercise_member_for_user db exercise_id c.user.id ≡ some member
    → Memᴰ
        (create_communication db
          (sent_comm exercise_id body c (exercise_group_for_user db exercise_id c) teams)
          now).0
        (inbox
          (create_communication db
            (sent_comm exercise_id body c (exercise_group_for_user db exercise_id c) teams)
            now).1
          exercise_id
          c)
unfolding create_communication
created_inbox db exercise_id body c now teams member tables part out found =
    let new = sent_comm exercise_id body c (exercise_group_for_user db exercise_id c) teams in
    let row = comm_row new now db.communications.next_id in
    (inbox-visible (create_communication db new now).1
        (create_communication-HasMessages db new now tables) c exercise_id row).1
      (
        mem-snoc_new row db.communications.rows,
        refl,
        sent_visible db exercise_id body c now teams member part out found,
      )

-- A message that a member sends stands in that member's own inbox afterwards, where the tables of
-- messages were valid.
pub send_comm-inbox :
    (db : Db) (exercise_id : ℕ) (body : SendCommRequest) (c : Caller) (now : ℕ) (m : Communication)
    (db' : Db) (member : ExerciseMember)
    → HasMessages db
    → exercise_member_for_user db exercise_id c.user.id ≡ some member
    → send_comm db exercise_id body c now ≡ ok (m, db')
    → Memᴰ m (inbox db' exercise_id c)
unfolding send_comm
send_comm-inbox db exercise_id body c now m db' member tables found h =
    let (exercise, _, h₁) = >>=-eq-ok (require_exercise_access db exercise_id c) _ h in
    let (_, _, h₂) = >>=-eq-ok (require_operational_mutability exercise) _ h₁ in
    let (part, h₃) = require-eq-ok (c.user.role == participant) only_participants _ h₂ in
    let (_, h₄) = require-eq-ok (exercise.state == active) comms_need_active _ h₃ in
    let (out, h₅) = require-eq-ok (body.direction == outbound) only_outbound _ h₄ in
    let (teams, _, h₆) = >>=-eq-ok (validate_team_ids db exercise body.visible_to_teams) _ h₅ in
    subst (λ (r : Communication × Db). Memᴰ r.0 (inbox r.1 exercise_id c)) (ok-injective h₆)
      (created_inbox db exercise_id body c now teams member tables part out found)
