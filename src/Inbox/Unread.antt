-- ===== src/Inbox/Unread.antt =====
-- The badge counts the messages of the inbox that have no receipt, and a first reading takes one off.
use iceberg_ttx.Prelude.{
  ℕ, suc, Bool, true, false, List, [], ◌∷◌, map, length, Option, none, some, ◌≡◌, refl, ap, ◌∙◌,
  inl, inr, Bool-cases, Option-cases, ◌==◌, ==_refl, ==_sym, select-cong, nat_eq, find, select, any,
  any-mem, subst, is_none, Memᴰ, map-mem, mem-of_find, find-holds, find-append_none,
  find-append_some,
}
use iceberg_ttx.Errors.{ok, ok-injective, no_row, >>=-eq-ok}
use iceberg_ttx.Models.Communication.{Communication, CommunicationRead}
use iceberg_ttx.Models.Database.{Db}
use iceberg_ttx.Launch.Freeze.{or_raise, or_raise-eq-ok}
use iceberg_ttx.Access.Gates.{Caller}
use iceberg_ttx.Inbox.Senders.{dict_get}
use iceberg_ttx.Inbox.Listing.{inbox}
use iceberg_ttx.Inbox.Visible.{HasMessages, inbox-distinct}
use iceberg_ttx.Inbox.Receipts.{
  is_receipt, get_receipt, new_receipt, insert_receipt, mark_read, communication_read_times,
  unread_among, unread_count, communication_read_at, time_of,
}
use iceberg_ttx.Inbox.Batch.{unread, batch-unread, count_less}

unread_among-eq :
    (db : Db) (ids : List ℕ) (user_id : ℕ)
    → unread_among db ids user_id ≡ length (select (unread db user_id) ids)
unfolding unread_among
unread_among-eq db ids user_id =
    let agree =
      select-cong (λ (k : ℕ). is_none (dict_get k (communication_read_times db ids user_id)))
        (unread db user_id) ids (λ k m. batch-unread db ids user_id k m) in
    ap length agree

find-any : {A : Type 0} (p : A → Bool) (xs : List A) → find p xs ≡ none → any p xs ≡ false
find-any p [] h = refl
find-any p (x ∷ xs) h = elim (Bool-cases (p x)) [
  | inl t ↦ cc (rw t at h)
  | inr f ↦ rw f (find-any p xs (rw f at h))
]

no_time : (o : Option CommunicationRead) → time_of o ≡ none → o ≡ none
no_time none h = refl
no_time (some r) h = cc

receipt_new :
    (db : Db) (k user_id now : ℕ)
    → get_receipt db k user_id ≡ none
    → get_receipt (insert_receipt db k user_id now) k user_id ≡ some (new_receipt k user_id now)
unfolding get_receipt insert_receipt
receipt_new db k user_id now absent =
    let p = is_receipt k user_id in
    let new = new_receipt k user_id now in
    let mine : p new ≡ true = rw (==_refl k, ==_refl user_id) refl in
    rw (find-any p db.reads absent) (find-append_none p db.reads (new ∷ []) absent ∙ rw mine refl)

receipt_other :
    (db : Db) (k j user_id now : ℕ)
    → (j == k) ≡ false
    → unread (insert_receipt db k user_id now) user_id j ≡ unread db user_id j
unfolding get_receipt insert_receipt
receipt_other db k j user_id now other = elim (Bool-cases (any (is_receipt k user_id) db.reads)) [
  | inl t ↦ rw t refl
  | inr f ↦
      let q = is_receipt j user_id in
      let new = new_receipt k user_id now in
      let out : q new ≡ false = rw (==_sym k j, other) refl in
      elim (Option-cases (find q db.reads)) [
        | inl n ↦ rw (f, find-append_none q db.reads (new ∷ []) n, out, n) refl
        | inr (r, s) ↦ rw (f, find-append_some q db.reads (new ∷ []) s, s) refl
      ]
]

abbrev inbox_ids : Db → ℕ → Caller → List ℕ
inbox_ids db exercise_id c = map (λ (m : Communication). m.id) (inbox db exercise_id c)

unread_count-eq :
    (db : Db) (exercise_id : ℕ) (c : Caller)
    → unread_count db exercise_id c
      ≡ length (select (unread db c.user.id) (inbox_ids db exercise_id c))
unfolding unread_count
unread_count-eq db exercise_id c = unread_among-eq db (inbox_ids db exercise_id c) c.user.id

-- A receipt does not change what is listed.
inbox-insert_receipt :
    (db : Db) (k user_id now exercise_id : ℕ) (c : Caller)
    → inbox (insert_receipt db k user_id now) exercise_id c ≡ inbox db exercise_id c
unfolding inbox insert_receipt
inbox-insert_receipt db k user_id now exercise_id c = refl

insert_receipt-unread_count :
    (db : Db) (exercise_id : ℕ) (c : Caller) (m : Communication) (now : ℕ)
    → HasMessages db
    → Memᴰ m (inbox db exercise_id c)
    → get_receipt db m.id c.user.id ≡ none
    → suc (unread_count (insert_receipt db m.id c.user.id now) exercise_id c)
      ≡ unread_count db exercise_id c
insert_receipt-unread_count db exercise_id c m now tables mem absent =
    let after = insert_receipt db m.id c.user.id now in
    let id_of = λ (x : Communication). x.id in
    let one_less =
      count_less (unread db c.user.id) (unread after c.user.id) m.id (inbox_ids db exercise_id c)
        (rw absent refl) (rw (receipt_new db m.id c.user.id now absent) refl)
        (λ j other. receipt_other db m.id j c.user.id now other)
        (inbox-distinct db tables c exercise_id) (map-mem id_of m (inbox db exercise_id c) mem) in
    rw
      (
        unread_count-eq after exercise_id c,
        unread_count-eq db exercise_id c,
        inbox-insert_receipt db m.id c.user.id now exercise_id c,
      )
      one_less

-- Marking a message of the inbox that the caller has not read lowers the unread count by exactly
-- one, where the tables of messages are valid.
pub mark_read-unread_count :
    (db : Db) (exercise_id : ℕ) (c : Caller) (m : Communication) (now : ℕ)
    (receipt : CommunicationRead) (db' : Db)
    → HasMessages db
    → Memᴰ m (inbox db exercise_id c)
    → communication_read_at db m.id c.user.id ≡ none
    → mark_read db m.id c.user.id now ≡ ok (receipt, db')
    → suc (unread_count db' exercise_id c) ≡ unread_count db exercise_id c
unfolding mark_read communication_read_at
mark_read-unread_count db exercise_id c m now receipt db' tables mem fresh h =
    let absent = no_time (get_receipt db m.id c.user.id) fresh in
    let stored = receipt_new db m.id c.user.id now absent in
    let done : insert_receipt db m.id c.user.id now ≡ db' =
      ap (λ r. r.1) (ok-injective (rw stored at h)) in
    rw (← done) (insert_receipt-unread_count db exercise_id c m now tables mem absent)

-- A receipt that is there is kept, with its time.
mark_read_again :
    (db : Db) (k user_id later : ℕ) (receipt : CommunicationRead)
    → get_receipt db k user_id ≡ some receipt
    → mark_read db k user_id later ≡ ok (receipt, db)
unfolding mark_read insert_receipt get_receipt
mark_read_again db k user_id later receipt stands =
    let p = is_receipt k user_id in
    let there =
      any-mem p receipt db.reads (mem-of_find p db.reads stands) (find-holds p db.reads stands) in
    rw (there, stands) refl

-- Marking a message that was marked before returns the first receipt, with its time, and leaves
-- the database as it is.
mark_read-first :
    (db : Db) (k user_id now later : ℕ) (receipt : CommunicationRead) (db' : Db)
    → mark_read db k user_id now ≡ ok (receipt, db')
    → mark_read db' k user_id later ≡ ok (receipt, db')
unfolding mark_read
mark_read-first db k user_id now later receipt db' h =
    let after = insert_receipt db k user_id now in
    let (r, found, e) = >>=-eq-ok (or_raise (get_receipt after k user_id) no_row) _ h in
    let stands = or_raise-eq-ok (get_receipt after k user_id) no_row found in
    subst (λ (x : CommunicationRead × Db). mark_read x.1 k user_id later ≡ ok (x.0, x.1))
      (ok-injective e) (mark_read_again after k user_id later r stands)
