-- ===== src/RateLimit/Sweep.antt =====
-- What the limiter promises: a limit in every window, and a sweep that nobody notices.
use iceberg_ttx.Prelude.{
  ℕ, ◌+◌, ◌*◌, ◌≤◌, String, Bool, true, not, List, [], ◌∷◌, ◌≡◌, refl, ap, arith, inl, inr,
  string_eq, select, ltb, Bool-cases, Memᴰ,
}
use iceberg_ttx.RateLimit.Window.{second, Hit, RateLimiter, counts, check, widest, sweep}

select-select :
    (p q : Hit → Bool) (hits : List Hit)
    → ((h : Hit) → p h ≡ true → q h ≡ true)
    → select p (select q hits) ≡ select p hits
select-select p q [] imp = refl
select-select p q (h ∷ hs) imp = elim (Bool-cases (q h)) [
  | inl t ↦ elim (Bool-cases (p h)) [
    | inl u ↦ rw (t, u) (ap (λ xs. h ∷ xs) (select-select p q hs imp))
    | inr u ↦ rw (t, u) (select-select p q hs imp)
  ]
  | inr f ↦ elim (Bool-cases (p h)) [
    | inl u ↦ cc (imp h u)
    | inr u ↦ rw (f, u) (select-select p q hs imp)
  ]
]

widest-ge :
    (limiters : List RateLimiter) (l : RateLimiter)
    → Memᴰ l limiters
    → l.window_seconds ≤ widest limiters
widest-ge [] l m = elim m [ ]
widest-ge (x ∷ xs) l (Memᴰ.head e) = rw e (omega arith)
widest-ge (x ∷ xs) l (Memᴰ.tail m) = omega (arith, widest-ge xs l m)

-- From the time of a sweep on, each limiter that the sweep took into account answers every key as
-- if nothing had been deleted.
pub check-sweep :
    (limiters : List RateLimiter) (l : RateLimiter) (hits : List Hit) (key : String)
    (now moment : ℕ)
    → Memᴰ l limiters
    → now ≤ moment
    → check l (sweep limiters hits now) key moment ≡ check l hits key moment
unfolding check sweep
check-sweep limiters l hits key now moment m le =
    rw
      (select-select (counts l key moment)
        (λ (h : Hit). not (ltb (h.at + widest limiters * second) now)) hits
        (λ h c. let wide = widest-ge limiters l m in unfold counts in ground arith))
      refl
