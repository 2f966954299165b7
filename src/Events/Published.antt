-- ===== src/Events/Published.antt =====
-- The bus carries exactly what was committed, folded transaction by transaction.
use iceberg_ttx.Prelude.{
  String, Bool, true, false, ◌&&◌, List, [], ◌∷◌, ◌++◌, ◌≡◌, refl, sym, ap, ◌∙◌, if◌then◌else◌,
}
use iceberg_ttx.Events.Wire.{Event, Codec}
use iceberg_ttx.Events.Buffer.{is_complete, Registry, Calls, notified}
use iceberg_ttx.Events.Run.{
  Action, begin, commit, rollback, drain, announce, run, new_replica, commits, batches, push_if,
}
use iceberg_ttx.Events.Steps.{
  kept, append_nil, append_assoc, at, all_calls, step_begin, step_drain, step_commit, step_rollback,
  step_announce,
}

abbrev prefix : List Event → List (List Event) → List (List Event)
prefix p [] = []
prefix p (b ∷ bs) = (p ++ b) ∷ bs

-- The pending events join the batch of the open transaction, if it commits.
abbrev joined : Bool → List Event → List (List Event) → List (List Event)
joined s p bs = if s then prefix p bs else bs

joined_nil : (s : Bool) (bs : List (List Event)) → joined s [] bs ≡ bs
joined_nil true [] = refl
joined_nil true (b ∷ bs) = refl
joined_nil false bs = refl

joined_announce :
    (tx full s : Bool) (p : List Event) (ev : Event) (bs : List (List Event))
    → joined s (p ++ kept (tx && full) (ev ∷ [])) bs ≡ joined s p (push_if (tx && full && s) ev bs)
joined_announce tx full true p ev [] = refl
joined_announce tx full false p ev [] = refl
joined_announce true true true p ev (b ∷ bs) = rw (append_assoc p (ev ∷ []) b) refl
joined_announce true true false p ev (b ∷ bs) = refl
joined_announce true false true p ev (b ∷ bs) = rw (append_nil p) refl
joined_announce true false false p ev (b ∷ bs) = refl
joined_announce false full true p ev (b ∷ bs) = rw (append_nil p) refl
joined_announce false full false p ev (b ∷ bs) = refl

module _ {Handler Payload : Type 0} (registry : Registry Handler) (json : Codec Payload)
    (origin : String) where
  unfoldable pub notified_all : List (List Event) → List Payload
  unfolding notified
  notified_all [] = []
  notified_all (b ∷ bs) = notified json origin b ++ notified_all bs

  run-bus :
      (tx : Bool) (p c : List Event) (calls : Calls Handler) (bus : List Payload)
      (actions : List Action)
      → (run registry json origin (at registry json origin tx p c calls bus) actions).bus
        ≡ bus ++ notified_all (joined (commits actions) p (batches tx actions))
  unfolding run commits batches notified_all
  run-bus tx p c calls bus [] = sym (append_nil bus)
  run-bus tx p c calls bus (begin ∷ later) =
      ap (λ r. (run registry json origin r later).bus)
        (step_begin registry json origin tx p c calls bus)
      ∙ run-bus true p c calls bus later
  run-bus tx p c calls bus (rollback ∷ later) =
      ap (λ r. (run registry json origin r later).bus)
        (step_rollback registry json origin tx p c calls bus)
      ∙ run-bus false [] c calls bus later
      ∙ rw (joined_nil (commits later) (batches false later)) refl
  run-bus tx p c calls bus (commit ∷ later) =
      ap (λ r. (run registry json origin r later).bus)
        (step_commit registry json origin tx p c calls bus)
      ∙ run-bus false [] (c ++ p) calls (bus ++ notified json origin p) later
      ∙ rw (joined_nil (commits later) (batches false later), append_nil p)
          (append_assoc bus (notified json origin p) (notified_all (batches false later)))
  run-bus tx p c calls bus (announce ev ∷ later) =
      ap (λ r. (run registry json origin r later).bus)
        (step_announce registry json origin tx p c calls bus ev)
      ∙ run-bus tx (p ++ kept (tx && is_complete ev) (ev ∷ [])) c calls bus later
      ∙ rw (joined_announce tx (is_complete ev) (commits later) p ev (batches tx later)) refl
  run-bus tx p c calls bus (drain ∷ later) =
      ap (λ r. (run registry json origin r later).bus)
        (step_drain registry json origin tx p c calls bus)
      ∙ run-bus tx p [] (calls ++ all_calls registry json origin c) bus later

  pub run-published :
      (actions : List Action)
      → (run registry json origin new_replica actions).bus ≡ notified_all (batches false actions)
  run-published actions =
      run-bus false [] [] [] [] actions
      ∙ rw (joined_nil (commits actions) (batches false actions)) refl
