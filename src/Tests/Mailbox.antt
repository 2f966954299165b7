-- ===== src/Tests/Mailbox.antt =====
-- Messages of a workshop.
use iceberg_ttx.Prelude.{
  ℕ, suc, ◌<◌, String, true, false, [], ◌∷◌, List, Option, none, some, ◌≡◌, ◌≢◌, ◌↔◌, refl, arith,
  inl, inr, ◌⊎◌, Memᴰ,
}
use iceberg_ttx.Prelude.Memᴰ
use iceberg_ttx.Prelude.Int.{pos}
use iceberg_ttx.Errors.{ok}
use iceberg_ttx.Models.Enums.{active, participant, inbound, outbound, CommDirection}
use iceberg_ttx.Models.Communication.{Communication, CommunicationRead}
use iceberg_ttx.Models.Database.{Db}
use iceberg_ttx.Access.Gates.{Caller, stamped}
use iceberg_ttx.Inbox.Listing.{inbox, comm_visible_to_user}
use iceberg_ttx.Inbox.Visible.{HasMessages, inbox-visible}
use iceberg_ttx.Inbox.Receipts.{mark_read, unread_count}
use iceberg_ttx.Inbox.Unread.{mark_read-unread_count}
use iceberg_ttx.Inbox.Send.{SendCommRequest, send_comm}
use iceberg_ttx.Inbox.Sent.{send_comm-inbox}
use iceberg_ttx.Samples.{user, exercise, member, database, table, ok_or}

abbrev comm : ℕ → CommDirection → Option (List String) → ℕ → Communication
comm id direction teams sent_at = record {
  id = id;
  exercise_id = 1;
  sender_id = none;
  sender_team = none;
  direction = direction;
  external_entity = some "ICO";
  subject = "Notice";
  body = "text";
  triggered_by_inject_id = none;
  trigger_key = none;
  visible_to_teams = teams;
  created_during_run = some true;
  sent_at = sent_at;
}

abbrev to_all : Communication
to_all = comm 1 inbound none 50

abbrev to_blue : Communication
to_blue = comm 2 inbound (some ("blue" ∷ [])) 60

abbrev mailbox : Db
mailbox = record (database (exercise active (some 100) none (pos 0)) [] [] []) {
  communications = table (to_all ∷ to_blue ∷ []);
}

abbrev reader : Caller
reader = stamped (user 2 participant)

mail_cases : {m : Communication} → Memᴰ m (to_all ∷ to_blue ∷ []) → (m ≡ to_all) ⊎ (m ≡ to_blue)
mail_cases m = elim (Memᴰ.cases_cons m) [
  | inl e ↦ inl e
  | inr r ↦ elim (Memᴰ.cases_cons r) [ inl e ↦ inr e | inr s ↦ elim s [ ] ]
]

mailbox-HasMessages : HasMessages mailbox
mailbox-HasMessages = record {
  once = refl;
  users = refl;
  ids = refl;
  below =
      λ m mem. elim (mail_cases mem) [ inl e ↦ rw e (omega arith) | inr e ↦ rw e (omega arith) ];
  audience = λ m mem. elim (mail_cases mem) [ inl e ↦ rw e (λ q. cc) | inr e ↦ rw e (λ q. cc) ];
}

-- The member of the red team.
inbox_red : inbox mailbox 1 reader ≡ to_all ∷ []
unfolding inbox iceberg_ttx.Prelude.Sort.sorted
inbox_red = refl

inbox-visible_example : Memᴰ to_blue (inbox mailbox 1 reader) ↔ (
    Memᴰ to_blue mailbox.communications.rows
    × (to_blue.exercise_id ≡ 1)
    × (comm_visible_to_user mailbox to_blue reader ≡ true))
inbox-visible_example = inbox-visible mailbox mailbox-HasMessages reader 1 to_blue

unfoldable read : CommunicationRead × Db
read =
    ok_or (record { communication_id = 0; user_id = 0; read_at = 0 }, mailbox)
      (mark_read mailbox 1 2 70)

read-ok : mark_read mailbox 1 2 70 ≡ ok (read.0, read.1)
unfolding read mark_read
read-ok = refl

one_listed : Memᴰ to_all (inbox mailbox 1 reader)
one_listed = rw inbox_red (Memᴰ.head refl)

mark_read-unread_count_example : suc (unread_count read.1 1 reader) ≡ unread_count mailbox 1 reader
unfolding iceberg_ttx.Inbox.Receipts.communication_read_at
mark_read-unread_count_example =
    mark_read-unread_count mailbox 1 reader to_all 70 read.0 read.1 mailbox-HasMessages one_listed
      refl read-ok

abbrev question : SendCommRequest
question = record {
  direction = outbound;
  external_entity = some "Legal";
  subject = "Question";
  body = "text";
  visible_to_teams = some (" blue" ∷ []);
}

unfoldable sent : Communication × Db
sent = ok_or (to_all, mailbox) (send_comm mailbox 1 question reader 90)

sent-ok : send_comm mailbox 1 question reader 90 ≡ ok (sent.0, sent.1)
unfolding sent send_comm iceberg_ttx.Scenario.Validate.parse_definition
    iceberg_ttx.Scenario.Validate.normalized_id iceberg_ttx.Prelude.strip
    iceberg_ttx.Scenario.Graph.check_no_cycles iceberg_ttx.Scenario.Graph.successors
    iceberg_ttx.Scenario.Graph.option_targets
sent-ok = refl

send_comm-inbox_example : Memᴰ sent.0 (inbox sent.1 1 reader)
unfolding iceberg_ttx.Access.Gates.exercise_member_for_user
send_comm-inbox_example =
    send_comm-inbox mailbox 1 question reader 90 sent.0 sent.1 member mailbox-HasMessages refl
      sent-ok
