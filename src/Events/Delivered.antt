-- ===== src/Events/Delivered.antt =====
-- The buffer implements the promise: a fan-out exactly of what was committed before it.
use iceberg_ttx.Prelude.{
  String, Bool, true, false, ◌&&◌, List, [], ◌∷◌, ◌++◌, ◌≡◌, refl, sym, ap, ◌∙◌,
}
use iceberg_ttx.Events.Wire.{Event, Codec}
use iceberg_ttx.Events.Buffer.{is_complete, Registry, Calls, notified, project_all}
use iceberg_ttx.Events.Run.{
  Action, begin, commit, rollback, drain, announce, run, new_replica, drains, survives, announced,
}
use iceberg_ttx.Events.Steps.{
  kept, kept_nil, append_nil, append_assoc, at, all_calls, all_calls-append, kept_announce,
  kept_commit, step_begin, step_drain, step_commit, step_rollback, step_announce,
}

module _ {Handler Payload : Type 0} (registry : Registry Handler) (json : Codec Payload)
    (origin : String) where
  -- What the rest of the actions will still send.
  abbrev owed : Bool → List Event → List Event → List Action → List Event
  owed tx p c actions =
      kept (drains actions) c ++ (kept (survives actions) p ++ announced survives tx actions)

  run-calls :
      (tx : Bool) (p c : List Event) (calls : Calls Handler) (bus : List Payload)
      (actions : List Action)
      → (run registry json origin (at registry json origin tx p c calls bus) actions).calls
        ≡ calls ++ all_calls registry json origin (owed tx p c actions)
  unfolding run drains survives announced project_all
  run-calls tx p c calls bus [] = sym (append_nil calls)
  run-calls tx p c calls bus (begin ∷ later) =
      ap (λ r. (run registry json origin r later).calls)
        (step_begin registry json origin tx p c calls bus)
      ∙ run-calls true p c calls bus later
  run-calls tx p c calls bus (rollback ∷ later) =
      ap (λ r. (run registry json origin r later).calls)
        (step_rollback registry json origin tx p c calls bus)
      ∙ run-calls false [] c calls bus later
      ∙ rw (kept_nil (survives later)) refl
  run-calls tx p c calls bus (commit ∷ later) =
      ap (λ r. (run registry json origin r later).calls)
        (step_commit registry json origin tx p c calls bus)
      ∙ run-calls false [] (c ++ p) calls (bus ++ notified json origin p) later
      ∙ rw
          (
            kept_nil (survives later),
            kept_commit (drains later) c p (announced survives false later),
          )
          refl
  run-calls tx p c calls bus (announce ev ∷ later) =
      ap (λ r. (run registry json origin r later).calls)
        (step_announce registry json origin tx p c calls bus ev)
      ∙ run-calls tx (p ++ kept (tx && is_complete ev) (ev ∷ [])) c calls bus later
      ∙ rw (kept_announce tx (is_complete ev) (survives later) p ev (announced survives tx later))
          refl
  run-calls tx p c calls bus (drain ∷ later) =
      ap (λ r. (run registry json origin r later).calls)
        (step_drain registry json origin tx p c calls bus)
      ∙ run-calls tx p [] (calls ++ all_calls registry json origin c) bus later
      ∙ rw
          (
            kept_nil (drains later),
            all_calls-append registry json origin c
                (kept (survives later) p ++ announced survives tx later),
          )
          (append_assoc calls (all_calls registry json origin c) (
            all_calls registry json origin
              (kept (survives later) p ++ announced survives tx later)))

  -- From a new session, whatever sequence of transactions, announcements, ends and fan-outs a
  -- replica goes through, the handlers that run on it are those of exactly the complete
  -- announcements, in their order, that stand in a transaction which commits before a later fan-
  -- out.
  pub run-announced :
      (actions : List Action)
      → (run registry json origin new_replica actions).calls
        ≡ project_all registry true (announced survives false actions)
  run-announced actions =
      run-calls false [] [] [] [] actions
      ∙ rw (kept_nil (drains actions), kept_nil (survives actions)) refl
