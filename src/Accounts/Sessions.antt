-- ===== src/Accounts/Sessions.antt =====
-- What requests do to the link tokens, statement by statement and in any interleaving of their sessions.
use iceberg_ttx.Prelude.{ℕ, String, Bool, false, List, [], ◌∷◌, ◌==◌, ◌≡◌, nat_eq}
use iceberg_ttx.Accounts.Tokens.{
  AuthTokenPurpose, NewToken, TokenDb, commit_session, rollback_session, create, load, burn,
}

pub data TokenAction : Type 0 where
  creates : (session : ℕ) (raw : String) (now stored_at : ℕ) → NewToken → TokenAction
  loads : (session : ℕ) (raw : String) → TokenAction
  burns : (session : ℕ) → AuthTokenPurpose → (now stamped_at : ℕ) (commit : Bool) → TokenAction
  commits rolls_back : (session : ℕ) → TokenAction

abbrev pub session_of : TokenAction → ℕ
session_of (creates s raw now stored_at args) = s
session_of (loads s raw) = s
session_of (burns s purpose now stamped_at commit) = s
session_of (commits s) = s
session_of (rolls_back s) = s

-- The action is of another session.
abbrev pub NotOf : ℕ → TokenAction → Type 0
NotOf s a = (s == session_of a) ≡ false

unfoldable pub act : (sha256 : String → String) → TokenDb → TokenAction → TokenDb
unfolding create load burn commit_session rollback_session
act sha256 db (creates s raw now stored_at args) = (create sha256 raw now stored_at args s db).1
act sha256 db (loads s raw) = load sha256 raw s db
act sha256 db (burns s purpose now stamped_at commit) = (burn purpose now stamped_at commit s db).1
act sha256 db (commits s) = commit_session s db
act sha256 db (rolls_back s) = rollback_session s db

unfoldable pub act_all : (sha256 : String → String) → TokenDb → List TokenAction → TokenDb
unfolding act
act_all sha256 db [] = db
act_all sha256 db (a ∷ actions) = act_all sha256 (act sha256 db a) actions
