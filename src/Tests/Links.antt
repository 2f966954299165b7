-- ===== src/Tests/Links.antt =====
-- A reset link.
use iceberg_ttx.Prelude.{String, true, false, List, [], ◌∷◌, none, some, ◌≡◌, refl}
use iceberg_ttx.Models.Database.{Table}
use iceberg_ttx.Accounts.Tokens.{
  password_reset, invite, AuthToken, TokenDb, commit_session, NewToken, token_row, row_of, create,
  stamp, burn, consume,
}
use iceberg_ttx.Accounts.Sessions.{TokenAction, creates, loads, burns, rolls_back, act_all}
use iceberg_ttx.Accounts.SingleUse.{consume-once, create-consume}
use iceberg_ttx.Samples.{table}

abbrev digest : String → String
digest raw = raw

abbrev reset_args : NewToken
reset_args = record {
  new_purpose = password_reset;
  new_email = "ann@example.org";
  ttl = 3600;
  new_user = some 1;
  new_team = none;
  token_exercise = none;
}

abbrev no_session : Table AuthToken → TokenDb
no_session tokens = record { tokens = tokens; flushed = λ s. []; loaded = λ s. none }

abbrev empty : TokenDb
empty = no_session (table [])

abbrev link : AuthToken
link = token_row "key" 100 101 reset_args 7

abbrev issued : TokenDb
issued = no_session (table (link ∷ []))

create-consume_example :
    ((create digest "key" 100 101 reset_args 1 empty).0 ≡ some "key")
    × ((consume digest "key" password_reset 200 201 true 2
          (create digest "key" 100 101 reset_args 1 empty).1).0
        ≡ some (stamp 201 (token_row "key" 100 101 reset_args empty.tokens.next_id)))
create-consume_example =
    create-consume digest "key" 100 101 reset_args 1 empty 200 201 true 2 refl refl refl

taken_once : (consume digest "key" password_reset 200 201 false 1 issued).0 ≡ some (stamp 201 link)
unfolding consume iceberg_ttx.Accounts.Tokens.load burn iceberg_ttx.Accounts.Tokens.burned
taken_once = refl

abbrev others_first : List TokenAction
others_first = loads 2 "other" ∷ creates 2 "other" 202 203 reset_args ∷ []

abbrev others_then : List TokenAction
others_then = creates 3 "third" 300 301 reset_args ∷ rolls_back 1 ∷ []

consume-once_example :
    (consume digest "key" invite 400 401 true 4 (
      act_all digest
        (commit_session 1 (
          act_all digest
            (consume digest "key" password_reset 200 201 false 1 issued).1
            others_first))
        others_then)).0
    ≡ none
consume-once_example =
    consume-once digest "key" password_reset 200 201 false 1 issued (stamp 201 link) taken_once
      others_first (refl, (refl, tt)) others_then invite 400 401 true 4

-- A deferred consumption that is rolled back leaves the token good.
rolled_back :
    (consume digest "key" password_reset 300 301 true 2 (
      act_all digest
        (consume digest "key" password_reset 200 201 false 1 issued).1
        (rolls_back 1 ∷ []))).0
    ≡ some (stamp 301 link)
unfolding consume iceberg_ttx.Accounts.Tokens.load burn iceberg_ttx.Accounts.Tokens.burned act_all
rolled_back = refl

-- Two requests that read the row before either writes it are both accepted.
double_spend :
    (burn password_reset 202 203 true 2 (
      act_all digest issued
        (loads 1 "key" ∷ loads 2 "key" ∷ burns 1 password_reset 200 201 true ∷ []))).0
    ≡ some (stamp 203 link)
unfolding burn iceberg_ttx.Accounts.Tokens.burned act_all
double_spend = refl
