-- ===== src/Inbox/Receipts.antt =====
-- Read receipts and the badge of app/services/communication_service.py.
use iceberg_ttx.Prelude.{
  ℕ, Bool, ◌&&◌, List, [], ◌∷◌, ◌++◌, map, length, Option, none, some, ◌==◌, nat_eq, find, select,
  contains, any, is_none, null, if◌then◌else◌,
}
use iceberg_ttx.Errors.{ok, ◌>>=◌, no_row}
use iceberg_ttx.Models.Communication.{Communication, CommunicationRead}
use iceberg_ttx.Models.Database.{Db}
use iceberg_ttx.Launch.Content.{Http}
use iceberg_ttx.Launch.Freeze.{or_raise}
use iceberg_ttx.Access.Gates.{Caller}
use iceberg_ttx.Inbox.Senders.{dict_get}
use iceberg_ttx.Inbox.Listing.{inbox}

abbrev pub is_receipt : ℕ → ℕ → CommunicationRead → Bool
is_receipt communication_id user_id r =
    r.communication_id == communication_id && r.user_id == user_id

unfoldable pub get_receipt : Db → ℕ → ℕ → Option CommunicationRead
get_receipt db communication_id user_id = find (is_receipt communication_id user_id) db.reads

abbrev pub new_receipt : ℕ → ℕ → ℕ → CommunicationRead
new_receipt communication_id user_id now = record {
  communication_id = communication_id;
  user_id = user_id;
  read_at = now;
}

-- INSERT ... ON CONFLICT DO NOTHING on the message and the user.
unfoldable pub insert_receipt : Db → ℕ → ℕ → ℕ → Db
insert_receipt db communication_id user_id now = record db {
  reads =
      if any (is_receipt communication_id user_id) db.reads
      then db.reads
      else db.reads ++ new_receipt communication_id user_id now ∷ [];
}

unfoldable pub mark_read : Db → ℕ → ℕ → ℕ → Http (CommunicationRead × Db)
unfolding insert_receipt get_receipt
mark_read db communication_id user_id now = do
  let db' = insert_receipt db communication_id user_id now
  receipt ← or_raise (get_receipt db' communication_id user_id) no_row
  ok (receipt, db')

abbrev pub time_of : Option CommunicationRead → Option ℕ
time_of none = none
time_of (some r) = some r.read_at

unfoldable pub communication_read_at : Db → ℕ → ℕ → Option ℕ
unfolding get_receipt
communication_read_at db communication_id user_id =
    time_of (get_receipt db communication_id user_id)

unfoldable pub communication_read_times : Db → List ℕ → ℕ → List (ℕ × ℕ)
communication_read_times db communication_ids user_id =
    if null communication_ids
    then []
    else map (λ (r : CommunicationRead). (r.communication_id, r.read_at))
        (select
          (λ (r : CommunicationRead).
            r.user_id == user_id && contains r.communication_id communication_ids)
          db.reads)

unfoldable pub unread_among : Db → List ℕ → ℕ → ℕ
unfolding communication_read_times
unread_among db comm_ids user_id =
    let read_times = communication_read_times db comm_ids user_id in
    length (select (λ (k : ℕ). is_none (dict_get k read_times)) comm_ids)

unfoldable pub unread_count : Db → ℕ → Caller → ℕ
unfolding unread_among inbox
unread_count db exercise_id c =
    unread_among db (map (λ (m : Communication). m.id) (inbox db exercise_id c)) c.user.id
