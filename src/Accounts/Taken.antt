-- ===== src/Accounts/Taken.antt =====
-- A token that a session has taken stays taken, whatever the others do.
use iceberg_ttx.Prelude.{
  ℕ, String, Bool, true, false, ◌||◌, List, [], ◌∷◌, ◌++◌, Option, none, some, ◌==◌, ◌≡◌, refl, sym,
  ◌∙◌, ap, inl, inr, nat_eq, string_eq, any, is_some, update_row, find-update, find-append_some,
  Bool-cases, Option-cases, some_inj, All,
}
use iceberg_ttx.Models.Database.{Table, insert, update_rows}
use iceberg_ttx.Accounts.Tokens.{
  AuthToken, purpose_eq, NewToken, token_row, row_of, usable, stamp, Stamps, apply_stamps, TokenDb,
  set_at, commit_session, rollback_session, create, load, burned, burn,
}
use iceberg_ttx.Accounts.Sessions.{
  TokenAction, creates, loads, burns, commits, rolls_back, NotOf, act, act_all,
}

abbrev hits : Stamps → ℕ → Bool
hits us id = any (λ (u : ℕ × ℕ). id == u.0) us

-- The row under a hash is stamped, or will be when these UPDATEs are committed.
pub record IsTaken (key : String) (us : Stamps) (tokens : Table AuthToken) : Type 0 where
  pub row : AuthToken
  pub stored : row_of key tokens.rows ≡ some row
  pub used : (is_some row.used_at || hits us row.id) ≡ true

row_of-stamp :
    (key : String) (u : ℕ × ℕ) (tokens : Table AuthToken)
    → row_of key (update_rows (λ (t : AuthToken). t.id == u.0) (stamp u.1) tokens).rows
      ≡ update_row (λ (t : AuthToken). t.id == u.0) (stamp u.1) (row_of key tokens.rows)
row_of-stamp key u tokens =
    find-update (λ (t : AuthToken). t.id == u.0) (λ (t : AuthToken). t.token_hash == key)
      (stamp u.1) (λ _. refl) tokens.rows

stamp-IsTaken :
    (key : String) (us : Stamps) (u : ℕ × ℕ) (tokens : Table AuthToken)
    → IsTaken key us tokens
    → IsTaken key us (update_rows (λ (t : AuthToken). t.id == u.0) (stamp u.1) tokens)
stamp-IsTaken key us u tokens b = elim (Bool-cases (b.row.id == u.0)) [
  | inl hit ↦ record {
    row = stamp u.1 b.row;
    stored = row_of-stamp key u tokens ∙ rw (b.stored, hit);
    used = refl;
  }
  | inr miss ↦ record {
    row = b.row;
    stored = row_of-stamp key u tokens ∙ rw (b.stored, miss);
    used = b.used;
  }
]

pub stamps-IsTaken :
    (key : String) (us others : Stamps) (tokens : Table AuthToken)
    → IsTaken key us tokens
    → IsTaken key us (apply_stamps others tokens)
unfolding apply_stamps
stamps-IsTaken key us [] tokens b = b
stamps-IsTaken key us (u ∷ others) tokens b =
    stamps-IsTaken key us others _ (stamp-IsTaken key us u tokens b)

own-IsTaken :
    (key : String) (u : ℕ × ℕ) (us : Stamps) (tokens : Table AuthToken)
    → IsTaken key (u ∷ us) tokens
    → IsTaken key us (update_rows (λ (t : AuthToken). t.id == u.0) (stamp u.1) tokens)
own-IsTaken key u us tokens b = elim (Bool-cases (b.row.id == u.0)) [
  | inl hit ↦ record {
    row = stamp u.1 b.row;
    stored = row_of-stamp key u tokens ∙ rw (b.stored, hit);
    used = refl;
  }
  | inr miss ↦ record {
    row = b.row;
    stored = row_of-stamp key u tokens ∙ rw (b.stored, miss);
    used = rw miss at b.used;
  }
]

-- A commit stores what was taken.
pub apply-IsTaken :
    (key : String) (us : Stamps) (tokens : Table AuthToken)
    → IsTaken key us tokens
    → IsTaken key [] (apply_stamps us tokens)
unfolding apply_stamps
apply-IsTaken key [] tokens b = b
apply-IsTaken key (u ∷ us) tokens b = apply-IsTaken key us _ (own-IsTaken key u us tokens b)

insert-IsTaken :
    (key : String) (us : Stamps) (new : ℕ → AuthToken) (tokens : Table AuthToken)
    → IsTaken key us tokens
    → IsTaken key us (insert new tokens)
insert-IsTaken key us new tokens b = record {
  row = b.row;
  stored =
      find-append_some (λ (t : AuthToken). t.token_hash == key) tokens.rows
        (new tokens.next_id ∷ []) b.stored;
  used = b.used;
}

create-committed :
    (sha256 : String → String) (key : String) (us : Stamps) (db : TokenDb) (s : ℕ) (raw : String)
    (now stored_at : ℕ) (args : NewToken)
    → IsTaken key us db.tokens
    → IsTaken key us (create sha256 raw now stored_at args s db).1.tokens
unfolding create commit_session rollback_session
create-committed sha256 key us db s raw now stored_at args b =
    let after = stamps-IsTaken key us (db.flushed s) db.tokens b in
    elim (Bool-cases (is_some (row_of (sha256 raw) (apply_stamps (db.flushed s) db.tokens).rows))) [
      | inl there ↦ rw there b
      | inr fresh ↦
          rw fresh (insert-IsTaken key us (token_row (sha256 raw) now stored_at args) _ after)
    ]

burned-committed :
    (key : String) (us : Stamps) (db : TokenDb) (s stamped_at : ℕ) (commit : Bool)
    (row : Option AuthToken)
    → IsTaken key us db.tokens
    → IsTaken key us (burned stamped_at commit s row db).1.tokens
unfolding burned commit_session
burned-committed key us db s stamped_at commit none b = b
burned-committed key us db s stamped_at true (some row) b =
    stamps-IsTaken key us (set_at s (db.flushed s ++ (row.id, stamped_at) ∷ []) db.flushed s)
      db.tokens b
burned-committed key us db s stamped_at false (some row) b = b

-- What an action leaves of the table.
act-committed :
    (sha256 : String → String) (key : String) (us : Stamps) (db : TokenDb) (a : TokenAction)
    → IsTaken key us db.tokens
    → IsTaken key us (act sha256 db a).tokens
unfolding act load burn burned commit_session rollback_session
act-committed sha256 key us db (creates s raw now stored_at args) b =
    create-committed sha256 key us db s raw now stored_at args b
act-committed sha256 key us db (loads s raw) b = b
act-committed sha256 key us db (burns s purpose now stamped_at commit) b =
    burned-committed key us db s stamped_at commit (usable purpose now (db.loaded s)) b
act-committed sha256 key us db (commits s) b = stamps-IsTaken key us (db.flushed s) db.tokens b
act-committed sha256 key us db (rolls_back s) b = b

create-flushed :
    (sha256 : String → String) (s o : ℕ) (db : TokenDb) (raw : String) (now stored_at : ℕ)
    (args : NewToken)
    → (s == o) ≡ false
    → (create sha256 raw now stored_at args o db).1.flushed s ≡ db.flushed s
unfolding create commit_session rollback_session
create-flushed sha256 s o db raw now stored_at args other =
    elim (Bool-cases (is_some (row_of (sha256 raw) (apply_stamps (db.flushed o) db.tokens).rows))) [
      | inl there ↦ rw (there, other) refl
      | inr fresh ↦ rw (fresh, other) refl
    ]

burned-flushed :
    (s o : ℕ) (db : TokenDb) (stamped_at : ℕ) (commit : Bool) (row : Option AuthToken)
    → (s == o) ≡ false
    → (burned stamped_at commit o row db).1.flushed s ≡ db.flushed s
unfolding burned commit_session
burned-flushed s o db stamped_at commit none other = refl
burned-flushed s o db stamped_at true (some row) other = rw other refl
burned-flushed s o db stamped_at false (some row) other = rw other refl

-- An action of another session leaves the UPDATEs of this one.
act-flushed :
    (sha256 : String → String) (s : ℕ) (db : TokenDb) (a : TokenAction)
    → NotOf s a
    → (act sha256 db a).flushed s ≡ db.flushed s
unfolding act load burn burned commit_session rollback_session
act-flushed sha256 s db (creates o raw now stored_at args) other =
    create-flushed sha256 s o db raw now stored_at args other
act-flushed sha256 s db (loads o raw) other = refl
act-flushed sha256 s db (burns o purpose now stamped_at commit) other =
    burned-flushed s o db stamped_at commit (usable purpose now (db.loaded o)) other
act-flushed sha256 s db (commits o) other = rw other refl
act-flushed sha256 s db (rolls_back o) other = rw other refl

pub act_all-committed :
    (sha256 : String → String) (key : String) (us : Stamps) (db : TokenDb)
    (actions : List TokenAction)
    → IsTaken key us db.tokens
    → IsTaken key us (act_all sha256 db actions).tokens
unfolding act_all
act_all-committed sha256 key us db [] b = b
act_all-committed sha256 key us db (a ∷ actions) b =
    act_all-committed sha256 key us (act sha256 db a) actions (act-committed sha256 key us db a b)

pub act_all-flushed :
    (sha256 : String → String) (s : ℕ) (db : TokenDb) (actions : List TokenAction)
    → All (NotOf s) actions
    → (act_all sha256 db actions).flushed s ≡ db.flushed s
unfolding act_all
act_all-flushed sha256 s db [] other = refl
act_all-flushed sha256 s db (a ∷ actions) other =
    act_all-flushed sha256 s (act sha256 db a) actions other.1 ∙ act-flushed sha256 s db a other.0

-- The UPDATEs change neither the hashes nor the identifiers.
pub apply-source :
    (key : String) (us : Stamps) (tokens : Table AuthToken) {row : AuthToken}
    → row_of key (apply_stamps us tokens).rows ≡ some row
    → (r : AuthToken) × (row_of key tokens.rows ≡ some r) × (r.id ≡ row.id)
unfolding apply_stamps
apply-source key [] tokens {row} h = (row, h, refl)
apply-source key (u ∷ us) tokens {row} h =
    let (r, found, same) = apply-source key us _ h in
    let found' = sym (row_of-stamp key u tokens) ∙ found in
    elim (Option-cases (row_of key tokens.rows)) [
      | inl gone ↦ cc (rw gone at found')
      | inr (r', at_key) ↦ elim (Bool-cases (r'.id == u.0)) [
        | inl hit ↦
            let e : stamp u.1 r' ≡ r = some_inj (rw (at_key, hit) at found') in
            (r', at_key, ap (λ (t : AuthToken). t.id) e ∙ same)
        | inr miss ↦
            let e : r' ≡ r = some_inj (rw (at_key, miss) at found') in
            (r', at_key, ap (λ (t : AuthToken). t.id) e ∙ same)
      ]
    ]

pub apply-none :
    (key : String) (us : Stamps) (tokens : Table AuthToken)
    → row_of key tokens.rows ≡ none
    → row_of key (apply_stamps us tokens).rows ≡ none
unfolding apply_stamps
apply-none key [] tokens h = h
apply-none key (u ∷ us) tokens h = apply-none key us _ (row_of-stamp key u tokens ∙ rw h refl)

pub apply-next_id :
    (us : Stamps) (tokens : Table AuthToken) → (apply_stamps us tokens).next_id ≡ tokens.next_id
unfolding apply_stamps
apply-next_id [] tokens = refl
apply-next_id (u ∷ us) tokens =
    apply-next_id us (update_rows (λ (t : AuthToken). t.id == u.0) (stamp u.1) tokens)
