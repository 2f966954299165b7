-- ===== src/Accounts/SingleUse.antt =====
-- A link token is good once, until it expires.
use iceberg_ttx.Prelude.{
  ℕ, ◌+◌, String, Bool, true, false, List, [], ◌∷◌, ◌++◌, none, some, ◌==◌, ◌≡◌, refl, ◌∙◌, inl,
  inr, arith, nat_eq, string_eq, ==_refl, any, any-append, leb, ltb, find-append_none, Bool-cases,
  Option-cases, All,
}
use iceberg_ttx.Accounts.Tokens.{
  AuthTokenPurpose, AuthToken, purpose_eq, NewToken, token_row, row_of, is_refused, stamp,
  apply_stamps, TokenDb, set_at, commit_session, create, load, burned, burn, consume,
}
use iceberg_ttx.Accounts.Sessions.{TokenAction, NotOf, act_all}
use iceberg_ttx.Accounts.Taken.{
  IsTaken, stamps-IsTaken, apply-IsTaken, act_all-committed, act_all-flushed, apply-source,
  apply-none, apply-next_id,
}

-- A taken token is refused to every session.
taken-refused :
    (sha256 : String → String) (raw : String) (purpose : AuthTokenPurpose) (now stamped_at : ℕ)
    (commit : Bool) (session : ℕ) (db : TokenDb)
    → IsTaken (sha256 raw) [] db.tokens
    → (consume sha256 raw purpose now stamped_at commit session db).0 ≡ none
unfolding consume load burn burned
taken-refused sha256 raw purpose now stamped_at commit session db b =
    let seen = stamps-IsTaken (sha256 raw) [] (db.flushed session) db.tokens b in
    let refused : is_refused purpose now seen.row ≡ true = ground (arith, seen.used) in
    rw (==_refl session, seen.stored, refused) refl

-- The UPDATE that a session flushes hits the row that it saw.
flush-IsTaken :
    (key : String) (stamped_at : ℕ) (session : ℕ) (db : TokenDb) (row : AuthToken)
    → row_of key (apply_stamps (db.flushed session) db.tokens).rows ≡ some row
    → IsTaken key (db.flushed session ++ (row.id, stamped_at) ∷ []) db.tokens
flush-IsTaken key stamped_at session db row found =
    let (r, at_key, same) = apply-source key (db.flushed session) db.tokens found in
    let hit : any (λ (u : ℕ × ℕ). r.id == u.0) (db.flushed session ++ (row.id, stamped_at) ∷ [])
        ≡ true =
      any-append (λ (u : ℕ × ℕ). r.id == u.0) (db.flushed session) ((row.id, stamped_at) ∷ [])
      ∙ rw (same, ==_refl row.id) (ground arith) in
    record { row = r; stored = at_key; used = rw hit (ground arith) }

consume-takes :
    (sha256 : String → String) (raw : String) (purpose : AuthTokenPurpose) (now stamped_at : ℕ)
    (commit : Bool) (session : ℕ) (db : TokenDb) {given : AuthToken}
    → (consume sha256 raw purpose now stamped_at commit session db).0 ≡ some given
    → IsTaken
        (sha256 raw)
        ((consume sha256 raw purpose now stamped_at commit session db).1.flushed session)
        (consume sha256 raw purpose now stamped_at commit session db).1.tokens
unfolding consume load burn burned commit_session
consume-takes sha256 raw purpose now stamped_at commit session db h =
    let self = ==_refl session in
    elim (Option-cases (row_of (sha256 raw) (apply_stamps (db.flushed session) db.tokens).rows)) [
      | inl gone ↦ cc (rw (self, gone) at h)
      | inr (row, found) ↦
          let taken = flush-IsTaken (sha256 raw) stamped_at session db row found in
          elim (Bool-cases (is_refused purpose now row)) [
            | inl refused ↦ cc (rw (self, found, refused) at h)
            | inr given ↦ elim (Bool-cases commit) [
              | inl ends ↦
                  rw (self, found, given, ends)
                    (rw self (apply-IsTaken (sha256 raw) _ db.tokens taken))
              | inr later ↦ rw (self, found, given, later) (rw self taken)
            ]
          ]
    ]

-- Once a session that consumed a token has committed, with other sessions at work before the
-- commit, no consumption whose SELECT runs later is accepted: on no session, for no purpose, at no
-- time, whatever the sessions do in between.
pub consume-once :
    (sha256 : String → String) (raw : String) (purpose : AuthTokenPurpose) (now stamped_at : ℕ)
    (commit : Bool) (session : ℕ) (db : TokenDb) (given : AuthToken)
    → (consume sha256 raw purpose now stamped_at commit session db).0 ≡ some given
    → (meanwhile : List TokenAction) → All (NotOf session) meanwhile
    → (between : List TokenAction) (again : AuthTokenPurpose) (later restamped_at : ℕ)
      (deferred : Bool) (other : ℕ)
    → (consume sha256 raw again later restamped_at deferred other (
        act_all sha256
          (commit_session session (
            act_all sha256
              (consume sha256 raw purpose now stamped_at commit session db).1
              meanwhile))
          between)).0
      ≡ none
unfolding commit_session
consume-once sha256 raw purpose now stamped_at commit session db given h meanwhile others between
      again later restamped_at deferred other =
    let key = sha256 raw in
    let after = (consume sha256 raw purpose now stamped_at commit session db).1 in
    let taken = consume-takes sha256 raw purpose now stamped_at commit session db h in
    let kept = act_all-committed sha256 key (after.flushed session) after meanwhile taken in
    let mine : IsTaken key ((act_all sha256 after meanwhile).flushed session)
        (act_all sha256 after meanwhile).tokens =
      rw (act_all-flushed sha256 session after meanwhile others) kept in
    taken-refused sha256 raw again later restamped_at deferred other _
      (act_all-committed sha256 key [] _ between (apply-IsTaken key _ _ mine))

-- A token that is created with a fresh hash, on any session, is accepted for its purpose before it
-- expires on a session without open UPDATEs, and what the caller gets is the row that was stored,
-- stamped.
pub create-consume :
    (sha256 : String → String) (raw : String) (now stored_at : ℕ) (args : NewToken) (creator : ℕ)
    (db : TokenDb) (later stamped_at : ℕ) (commit : Bool) (session : ℕ)
    → row_of (sha256 raw) db.tokens.rows ≡ none
    → ltb later (now + args.ttl) ≡ true
    → db.flushed session ≡ []
    → ((create sha256 raw now stored_at args creator db).0 ≡ some raw)
      × ((consume sha256 raw args.new_purpose later stamped_at commit session
            (create sha256 raw now stored_at args creator db).1).0
          ≡ some (stamp stamped_at (token_row (sha256 raw) now stored_at args db.tokens.next_id)))
unfolding create consume load burn burned commit_session apply_stamps
create-consume sha256 raw now stored_at args creator db later stamped_at commit session fresh early
      idle =
    let tokens = apply_stamps (db.flushed creator) db.tokens in
    let gone : row_of (sha256 raw) tokens.rows ≡ none =
      apply-none (sha256 raw) (db.flushed creator) db.tokens fresh in
    let row = token_row (sha256 raw) now stored_at args tokens.next_id in
    let found : row_of (sha256 raw) (tokens.rows ++ row ∷ []) ≡ some row =
      find-append_none (λ (t : AuthToken). t.token_hash == sha256 raw) tokens.rows (row ∷ []) gone
      ∙ rw (==_refl (sha256 raw)) in
    let live : leb (now + args.ttl) later ≡ false = ground (arith, early) in
    let still : set_at creator [] db.flushed session ≡ [] = elim (Bool-cases (session == creator)) [
      | inl t ↦ rw t refl
      | inr f ↦ rw f idle
    ] in
    rw gone (
      refl,
      rw (==_refl session, still)
          (rw (found, ==_refl args.new_purpose, live)
            (rw (apply-next_id (db.flushed creator) db.tokens) refl)),
    )
