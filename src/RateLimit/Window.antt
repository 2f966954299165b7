-- ===== src/RateLimit/Window.antt =====
-- One limiter over the table rate_limit_hits: app/services/rate_limit.py. Times are microseconds.
-- The clock is an argument; each call is a transaction of its own.
use iceberg_ttx.Prelude.{
  ℕ, ◌+◌, ◌-◌, ◌*◌, ◌/◌, min, max, String, Bool, true, false, not, ◌&&◌, List, [], ◌∷◌, ◌++◌,
  Option, none, some, ◌==◌, string_eq, select, length, ltb, if◌then◌else◌,
}

-- A second, in the microseconds of the model.
abbrev pub second : ℕ
second = 1000000

pub record Hit : Type 0 where
  pub scope : String
  pub key : String
  pub at : ℕ

pub record RateLimiter : Type 0 where
  pub scope : String
  pub max_attempts : ℕ
  pub window_seconds : ℕ

-- rate_limit_hits.c.at > moment - window
unfoldable pub counts : RateLimiter → String → ℕ → Hit → Bool
counts l key moment h =
    h.scope == l.scope && h.key == key && ltb moment (h.at + l.window_seconds * second)

-- func.min
unfoldable pub oldest : List Hit → Option ℕ
oldest [] = none
oldest (h ∷ hs) = elim (oldest hs) [ none ↦ some h.at | some at ↦ some (min h.at at) ]

-- window_seconds - (moment - oldest), in whole seconds and at least one.
abbrev pub retry_hint : RateLimiter → ℕ → ℕ → ℕ
retry_hint l moment at = max 1 ((at + l.window_seconds * second - moment) / second)

abbrev pub answer : RateLimiter → ℕ → ℕ → Option ℕ → Bool × ℕ
answer l moment count none = (false, 0)
answer l moment count (some at) =
    if ltb count l.max_attempts then (false, 0) else (true, retry_hint l moment at)

unfoldable pub check : RateLimiter → List Hit → String → ℕ → Bool × ℕ
unfolding oldest counts
check l hits key moment =
    let window = select (counts l key moment) hits in
    answer l moment (length window) (oldest window)

unfoldable pub is_limited : RateLimiter → List Hit → String → ℕ → Bool
unfolding check
is_limited l hits key moment = (check l hits key moment).0

unfoldable pub retry_after : RateLimiter → List Hit → String → ℕ → ℕ
unfolding check
retry_after l hits key moment = (check l hits key moment).1

unfoldable pub record_failure : RateLimiter → List Hit → String → ℕ → List Hit
record_failure l hits key moment = hits ++ record { scope = l.scope; key = key; at = moment } ∷ []

unfoldable pub reset : RateLimiter → List Hit → String → List Hit
reset l hits key = select (λ (h : Hit). not (h.scope == l.scope && h.key == key)) hits

unfoldable pub clear : RateLimiter → List Hit → List Hit
clear l hits = select (λ (h : Hit). not (h.scope == l.scope)) hits

abbrev pub reconfigure : RateLimiter → ℕ → ℕ → RateLimiter
reconfigure l max_attempts window_seconds = record l {
  max_attempts = max_attempts;
  window_seconds = window_seconds;
}

abbrev pub widest : List RateLimiter → ℕ
widest [] = 0
widest (l ∷ ls) = max l.window_seconds (widest ls)

-- DELETE ... WHERE at < now - widest
unfoldable pub sweep : List RateLimiter → List Hit → ℕ → List Hit
sweep limiters hits now = select (λ (h : Hit). not (ltb (h.at + widest limiters * second) now)) hits
