-- ===== src/Agent/Invoke/Failure.antt =====
-- What an Invoke does with a plan that exists, and with a model that fails.
use wazzap_agent_go.Prelude.{
  ℕ, suc, ◌≡◌, refl, sym, ap, subst, ◌∙◌, ◌⊎◌, inl, inr, not, List, ◌++◌, Option, none, some,
  Result, ok, err, arith, if◌then◌else◌,
}
use wazzap_agent_go.Errors.{ErrorCode, provider_failure}
use wazzap_agent_go.Turn.{generating, failed_retryable, failed_terminal}
use wazzap_agent_go.Policy.Principal.{Key, is_zero}
use wazzap_agent_go.Outbox.Row.{fine, conditional_update}
use wazzap_agent_go.Agent.Effects.{ModelResult}
use wazzap_agent_go.Agent.Invocation.{Invocation}
use wazzap_agent_go.Agent.Turns.Row.{StoredPlan, TurnRecord, load, require_id}
use wazzap_agent_go.Agent.Turns.Claim.{row_state, fail_generation}
use wazzap_agent_go.Agent.Turns.Ledger.{planned, ledger_of}
use wazzap_agent_go.Agent.Turns.Handover.{load-planned}
use wazzap_agent_go.Agent.Dispatch.{dispatch_plan}
use wazzap_agent_go.Agent.History.{HistoryEntry, no_error, ensure_invocation_history}
use wazzap_agent_go.Agent.Invoke.{
  InvokeEnv, World, Outcome, failure, attempt, failed, ask, checked, retryable_generation, loaded,
  invoke, dispatched,
}

module _ (key : Key) (env : InvokeEnv) (inv : Invocation) where
  -- The failure of a turn that is generating is recorded, and may be tried again or not.
  failed-state :
      (code : ErrorCode) (w : World)
      → require_id key (not (is_zero inv.id)) ≡ ok tt
      → env.fail_io ≡ fine
      → row_state w.turn ≡ some generating
      → row_state (failed key env inv code w).turn
        ≡ some (if retryable_generation code then failed_retryable else failed_terminal)
  unfolding failed fail_generation conditional_update
  failed-state code w r f g = ground arith

  failed-asked : (code : ErrorCode) (w : World) → (failed key env inv code w).asked ≡ w.asked
  unfolding failed
  failed-asked code w = refl

  failed-handed : (code : ErrorCode) (w : World) → (failed key env inv code w).handed ≡ w.handed
  unfolding failed
  failed-handed code w = refl

  -- The model gave an error, or a result that the check refuses.
  abbrev pub ModelFails : List HistoryEntry → Type 0
  ModelFails entries =
      ((code : ErrorCode) × (env.generate ≡ err code))
      ⊎ ((g : ModelResult) × (code : ErrorCode) × (env.generate ≡ ok g)
          × (checked key env inv entries g ≡ err code))

  ask-failed :
      (version message_id : ℕ) (entries : List HistoryEntry) (w : World)
      → ModelFails entries
      → ask key env inv version message_id entries w ≡ (
        failed key env inv provider_failure (record w { asked = suc w.asked }),
        failure provider_failure,
      )
  unfolding ask
  ask-failed version message_id entries w (inl (code, e)) = rw e refl
  ask-failed version message_id entries w (inr (g, code, e, f)) =
      let same : code ≡ provider_failure = ground arith in rw (e, f, same) refl

  -- Whatever error the model gives, and whatever the check refuses in its result, the turn that was
  -- generating is left to be tried again, nothing is handed out, and the error is a provider's.
  pub ask-fails :
      (version message_id : ℕ) (entries : List HistoryEntry) (w : World)
      → require_id key (not (is_zero inv.id)) ≡ ok tt
      → env.fail_io ≡ fine
      → row_state w.turn ≡ some generating
      → ModelFails entries
      → (row_state (ask key env inv version message_id entries w).0.turn ≡ some failed_retryable)
        × ((ask key env inv version message_id entries w).0.asked ≡ suc w.asked)
        × ((ask key env inv version message_id entries w).0.handed ≡ w.handed)
        × ((ask key env inv version message_id entries w).1 ≡ failure provider_failure)
  unfolding retryable_generation
  ask-fails version message_id entries w r f g m =
      let asked = record w { asked = suc w.asked } in
      let e = ask-failed version message_id entries w m in
      let left = failed-state provider_failure asked r f g in
      (
        ap (λ (out : World × Outcome). row_state out.0.turn) e ∙ left,
        ap (λ (out : World × Outcome). out.0.asked) e ∙ failed-asked provider_failure asked,
        ap (λ (out : World × Outcome). out.0.handed) e ∙ failed-handed provider_failure asked,
        ap (λ (out : World × Outcome). out.1) e,
      )

  -- An Invoke of a turn that has a plan.
  replayed-loaded :
      (r : TurnRecord) (plan : StoredPlan) (w : World)
      → r.plan ≡ some plan
      → loaded key env inv (ok r) w
        ≡ attempt
            (ensure_invocation_history env.history r.message_id inv plan r.delivery)
            w
            (λ _. dispatched key env inv plan w)
  unfolding loaded
  replayed-loaded r plan w e = ground arith

  abbrev LeftAlone : World → StoredPlan → World × Outcome → Type 0
  LeftAlone w plan out =
      (out.0.turn ≡ w.turn)
      × (out.0.asked ≡ w.asked)
      × ((out.0.handed ≡ w.handed)
          ⊎ (out.0.handed ≡ w.handed ++ (dispatch_plan env.dispatchers plan).handed))

  attempt-LeftAlone :
      (r : Result ErrorCode (Unit {0})) (plan : StoredPlan) (w : World)
      → LeftAlone w plan (attempt r w (λ _. dispatched key env inv plan w))
  unfolding dispatched
  attempt-LeftAlone (ok _) plan w = (refl, refl, inr refl)
  attempt-LeftAlone (err code) plan w = (refl, refl, inl refl)

  no_error-ok : {error : Option ErrorCode} → error ≡ none → no_error error ≡ ok tt
  no_error-ok h = ap no_error h

  invoke-loaded :
      (w : World) (r : TurnRecord)
      → load env.reads key inv.id w.turn ≡ ok r
      → env.gate_error ≡ none
      → env.invocation_error ≡ none
      → invoke key env inv w ≡ loaded key env inv (ok r) w
  unfolding invoke
  invoke-loaded w r l g v =
      ap
        (λ (m : Result ErrorCode (Unit {0})). attempt m w (λ _.
          attempt (no_error env.invocation_error) w
            (λ _. loaded key env inv (load env.reads key inv.id w.turn) w)))
        (no_error-ok g)
      ∙ ap
          (λ (m : Result ErrorCode (Unit {0})).
            attempt m w (λ _. loaded key env inv (load env.reads key inv.id w.turn) w))
          (no_error-ok v)
      ∙ ap (λ (m : Result ErrorCode TurnRecord). loaded key env inv m w) l

  -- An Invoke of a turn whose rows hold a plan does not ask the model and leaves the rows as they
  -- are; it hands out what that plan says, or nothing.
  pub invoke_replays :
      (w : World) (plan : StoredPlan) (r : TurnRecord)
      → ledger_of inv.id w.turn ≡ planned (ok plan)
      → load env.reads key inv.id w.turn ≡ ok r
      → env.gate_error ≡ none
      → env.invocation_error ≡ none
      → LeftAlone w plan (invoke key env inv w)
  invoke_replays w plan r h l g v =
      let p = load-planned env.reads key inv.id w.turn plan r h l in
      let history = ensure_invocation_history env.history r.message_id inv plan r.delivery in
      subst (LeftAlone w plan) (sym (invoke-loaded w r l g v ∙ replayed-loaded r plan w p))
        (attempt-LeftAlone history plan w)
