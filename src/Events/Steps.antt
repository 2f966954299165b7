-- ===== src/Events/Steps.antt =====
-- What each action makes of a session's lists.
use iceberg_ttx.Prelude.{
  String, Bool, true, false, ◌&&◌, List, [], ◌∷◌, ◌++◌, ◌≡◌, refl, sym, ap, ◌⊎◌, inl, inr,
  Bool-cases, if◌then◌else◌,
}
use iceberg_ttx.Errors.{Result, ok, err}
use iceberg_ttx.Events.Wire.{Event, Codec}
use iceberg_ttx.Events.Buffer.{
  is_complete, record_event, promote_on_commit, discard_on_rollback, Registry, Calls, dispatch,
  notified, project, project_all,
}
use iceberg_ttx.Events.Run.{
  Action, begin, commit, rollback, drain, announce, Replica, step, cons_if,
}

abbrev pub kept : Bool → List Event → List Event
kept b events = if b then events else []

pub kept_nil : (b : Bool) → kept b [] ≡ []
kept_nil true = refl
kept_nil false = refl

pub append_nil : {A : Type 0} (xs : List A) → xs ++ [] ≡ xs
append_nil [] = refl
append_nil (x ∷ xs) = ap (◌∷◌ x) (append_nil xs)

pub append_assoc : {A : Type 0} (xs ys zs : List A) → (xs ++ ys) ++ zs ≡ xs ++ (ys ++ zs)
append_assoc [] ys zs = refl
append_assoc (x ∷ xs) ys zs = ap (◌∷◌ x) (append_assoc xs ys zs)

pub result_cases :
    {E A : Type 0} (r : Result E A) → ((a : A) × (r ≡ ok a)) ⊎ ((e : E) × (r ≡ err e))
result_cases (ok a) = inl (a, refl)
result_cases (err e) = inr (e, refl)

promoted :
    (p c : List Event)
    → promote_on_commit (record { pending = p; committed = c })
      ≡ record { pending = []; committed = c ++ p }
unfolding promote_on_commit
promoted [] c = rw (append_nil c) refl
promoted (e ∷ p) c = refl

discarded :
    (p c : List Event)
    → discard_on_rollback (record { pending = p; committed = c })
      ≡ record { pending = []; committed = c }
unfolding discard_on_rollback
discarded [] c = refl
discarded (e ∷ p) c = refl

pub kept_announce :
    (tx full s : Bool) (p : List Event) (ev : Event) (rest : List Event)
    → kept s (p ++ kept (tx && full) (ev ∷ [])) ++ rest
      ≡ kept s p ++ cons_if (tx && full && s) ev rest
kept_announce true true true p ev rest = append_assoc p (ev ∷ []) rest
kept_announce true true false p ev rest = refl
kept_announce true false true p ev rest = rw (append_nil p) refl
kept_announce true false false p ev rest = refl
kept_announce false full true p ev rest = rw (append_nil p) refl
kept_announce false full false p ev rest = refl

pub kept_commit :
    (b : Bool) (c p rest : List Event) → kept b (c ++ p) ++ rest ≡ kept b c ++ (kept b p ++ rest)
kept_commit true c p rest = append_assoc c p rest
kept_commit false c p rest = refl

module _ {Handler Payload : Type 0} (registry : Registry Handler) (json : Codec Payload)
    (origin : String) where
  abbrev pub at :
      Bool → List Event → List Event → Calls Handler → List Payload → Replica Handler Payload
  at tx p c calls bus = record {
    session = record { in_transaction = tx; buffer = record { pending = p; committed = c } };
    calls = calls;
    bus = bus;
  }

  abbrev pub all_calls : List Event → Calls Handler
  all_calls = project_all registry true

  pub all_calls-append : (xs ys : List Event) → all_calls (xs ++ ys) ≡ all_calls xs ++ all_calls ys
  unfolding project_all
  all_calls-append [] ys = refl
  all_calls-append (x ∷ xs) ys =
      rw (all_calls-append xs ys)
        (sym (append_assoc (project registry x true) (all_calls xs) (all_calls ys)))

  abbrev step_from :
      Bool
      → List Event
      → List Event
      → Calls Handler
      → List Payload
      → Action
      → Replica Handler Payload
  step_from tx p c calls bus a = step registry json origin (at tx p c calls bus) a

  pub step_begin :
      (tx : Bool) (p c : List Event) (calls : Calls Handler) (bus : List Payload)
      → step_from tx p c calls bus begin ≡ at true p c calls bus
  unfolding step
  step_begin tx p c calls bus = refl

  pub step_drain :
      (tx : Bool) (p c : List Event) (calls : Calls Handler) (bus : List Payload)
      → step_from tx p c calls bus drain ≡ at tx p [] (calls ++ all_calls c) bus
  unfolding step dispatch
  step_drain tx p c calls bus = refl

  pub step_commit :
      (tx : Bool) (p c : List Event) (calls : Calls Handler) (bus : List Payload)
      → step_from tx p c calls bus commit
        ≡ at false [] (c ++ p) calls (bus ++ notified json origin p)
  unfolding step
  step_commit tx p c calls bus = rw (promoted p c) refl

  pub step_rollback :
      (tx : Bool) (p c : List Event) (calls : Calls Handler) (bus : List Payload)
      → step_from tx p c calls bus rollback ≡ at false [] c calls bus
  unfolding step
  step_rollback tx p c calls bus = rw (discarded p c) refl

  pub step_announce :
      (tx : Bool) (p c : List Event) (calls : Calls Handler) (bus : List Payload) (ev : Event)
      → step_from tx p c calls bus (announce ev)
        ≡ at tx (p ++ kept (tx && is_complete ev) (ev ∷ [])) c calls bus
  unfolding step record_event
  step_announce tx p c calls bus ev = elim (Bool-cases tx) [
    | inl t ↦ elim (Bool-cases (is_complete ev)) [
      | inl u ↦ rw (t, u) refl
      | inr n ↦ rw (t, n, append_nil p) refl
    ]
    | inr f ↦ rw (f, append_nil p) refl
  ]
