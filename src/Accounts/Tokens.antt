-- ===== src/Accounts/Tokens.antt =====
-- The link tokens of app/services/token_service.py: a row holds the hash of a token that travels in an
-- email. A request works on its own session. `consume` decides on the row that its SELECT returned,
-- without a lock, and its UPDATE names the identifier alone; with commit=False the UPDATE is only
-- flushed, and the caller commits or rolls back.
use iceberg_ttx.Prelude.{
  ℕ, ◌+◌, String, Bool, true, false, not, ◌||◌, List, [], ◌∷◌, ◌++◌, Option, none, some, ◌==◌, ◌↔◌,
  ◌≡◌, Eq, arith, nat_eq, string_eq, find, leb, is_some, if◌then◌else◌,
}
use iceberg_ttx.Models.Database.{Table, insert, update_rows}

pub data AuthTokenPurpose : Type 0 where
  password_reset invite : AuthTokenPurpose

abbrev pub purpose_beq : AuthTokenPurpose → AuthTokenPurpose → Bool
purpose_beq password_reset password_reset = true
purpose_beq invite invite = true
purpose_beq _ _ = false

pub purpose_beq_iff : (a b : AuthTokenPurpose) → (purpose_beq a b ≡ true) ↔ (a ≡ b)
purpose_beq_iff a b = ground arith

instance abbrev pub purpose_eq : Eq AuthTokenPurpose
purpose_eq = record { beq = purpose_beq; beq_iff = purpose_beq_iff }

-- Times are microseconds.
pub record AuthToken : Type 0 where
  pub id : ℕ
  pub token_hash : String
  pub purpose : AuthTokenPurpose
  pub email : String
  pub user_id : Option ℕ
  pub team : Option String
  pub exercise_id : Option ℕ
  pub expires_at : ℕ
  pub used_at : Option ℕ
  pub created_at : ℕ

pub record NewToken : Type 0 where
  pub new_purpose : AuthTokenPurpose
  pub new_email : String
  pub ttl : ℕ
  pub new_user : Option ℕ
  pub new_team : Option String
  pub token_exercise : Option ℕ

-- `create` reads the clock for `expires_at`; the row's own default reads it again.
abbrev pub token_row : String → (now stored_at : ℕ) → NewToken → ℕ → AuthToken
token_row hash now stored_at args id = record {
  id = id;
  token_hash = hash;
  purpose = args.new_purpose;
  email = args.new_email;
  user_id = args.new_user;
  team = args.new_team;
  exercise_id = args.token_exercise;
  expires_at = now + args.ttl;
  used_at = none;
  created_at = stored_at;
}

abbrev pub row_of : (key : String) → List AuthToken → Option AuthToken
row_of key rows = find (λ (t : AuthToken). t.token_hash == key) rows

abbrev pub is_refused : AuthTokenPurpose → ℕ → AuthToken → Bool
is_refused purpose now row =
    not (row.purpose == purpose) || is_some row.used_at || leb row.expires_at now

abbrev pub stamp : ℕ → AuthToken → AuthToken
stamp now row = record row { used_at = some now }

abbrev pub usable : AuthTokenPurpose → ℕ → Option AuthToken → Option AuthToken
usable purpose now none = none
usable purpose now (some row) = if is_refused purpose now row then none else some row

-- An UPDATE of used_at: the identifier of the row and the time.
abbrev pub Stamps : Type 0
Stamps = List (ℕ × ℕ)

unfoldable pub apply_stamps : Stamps → Table AuthToken → Table AuthToken
apply_stamps [] tokens = tokens
apply_stamps (u ∷ us) tokens =
    apply_stamps us (update_rows (λ (t : AuthToken). t.id == u.0) (stamp u.1) tokens)

-- The committed table, and for each session its flushed UPDATEs and the row that its last SELECT gave.
pub record TokenDb : Type 0 where
  pub tokens : Table AuthToken
  pub flushed : ℕ → Stamps
  pub loaded : ℕ → Option AuthToken

abbrev pub set_at {ℓ} : {A : Type ℓ} → ℕ → A → (ℕ → A) → ℕ → A
set_at k a f s = if s == k then a else f s

unfoldable pub commit_session : ℕ → TokenDb → TokenDb
unfolding apply_stamps
commit_session s db = record db {
  tokens = apply_stamps (db.flushed s) db.tokens;
  flushed = set_at s [] db.flushed;
}

unfoldable pub rollback_session : ℕ → TokenDb → TokenDb
rollback_session s db = record db { flushed = set_at s [] db.flushed }

-- The column is unique: the commit of an INSERT of a hash that is stored already fails, and nothing of
-- the session is kept.
unfoldable pub create :
    (sha256 : String → String) (raw : String) (now stored_at : ℕ)
    → NewToken
    → (session : ℕ) → TokenDb
    → Option String × TokenDb
unfolding commit_session rollback_session
create sha256 raw now stored_at args session db =
    let db' = commit_session session db in
    if is_some (row_of (sha256 raw) db'.tokens.rows) then (none, rollback_session session db) else (
      some raw,
      record db' { tokens = insert (token_row (sha256 raw) now stored_at args) db'.tokens },
    )

-- The SELECT of `consume`: a session sees what is committed and its own UPDATEs.
unfoldable pub load : (sha256 : String → String) (raw : String) (session : ℕ) → TokenDb → TokenDb
unfolding apply_stamps
load sha256 raw session db = record db {
  loaded =
      set_at session (row_of (sha256 raw) (apply_stamps (db.flushed session) db.tokens).rows)
        db.loaded;
}

abbrev pub flush : ℕ → AuthToken → (session : ℕ) → TokenDb → TokenDb
flush stamped_at row session db = record db {
  flushed = set_at session (db.flushed session ++ (row.id, stamped_at) ∷ []) db.flushed;
}

unfoldable pub burned :
    ℕ → (commit : Bool) (session : ℕ) → Option AuthToken → TokenDb → Option AuthToken × TokenDb
unfolding commit_session
burned stamped_at commit session none db = (none, db)
burned stamped_at commit session (some row) db = (
  some (stamp stamped_at row),
  if commit
      then commit_session session (flush stamped_at row session db)
      else flush stamped_at row session db,
)

-- The rest of `consume`, on the row that was read. The clock is read twice: for the expiry, then for
-- the stamp.
unfoldable pub burn :
    AuthTokenPurpose
    → (now stamped_at : ℕ) (commit : Bool) (session : ℕ) → TokenDb
    → Option AuthToken × TokenDb
unfolding burned
burn purpose now stamped_at commit session db =
    burned stamped_at commit session (usable purpose now (db.loaded session)) db

unfoldable pub consume :
    (sha256 : String → String) (raw : String)
    → AuthTokenPurpose
    → (now stamped_at : ℕ) (commit : Bool) (session : ℕ) → TokenDb
    → Option AuthToken × TokenDb
unfolding load burn
consume sha256 raw purpose now stamped_at commit session db =
    burn purpose now stamped_at commit session (load sha256 raw session db)
