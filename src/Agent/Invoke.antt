-- ===== src/Agent/Invoke.antt =====
-- Agent.invoke of internal/agent/agent.go, on the rows of its turn. What the gate, the validation
-- of the invocation, the config, the history, the context builder, the model and the dispatchers
-- answer is an argument.
pub mod Advance
pub mod Failure
use wazzap_agent_go.Prelude.{
  ℕ, suc, Bool, true, false, not, ◌&&◌, ◌==◌, if◌then◌else◌, List, [], ◌∷◌, ◌++◌, Option, none,
  some, Result, ok, err, guard, ◌>>=◌, ◌>>◌, Text, map,
}
use wazzap_agent_go.Errors.{
  ErrorCode, rate_limited, timeout, cancelled, unavailable, provider_failure, internal, conflict,
  integrity_failure, storage_failure, is_not_found,
}
use wazzap_agent_go.Turn.{TurnState}
use wazzap_agent_go.Utf8.{valid_string}
use wazzap_agent_go.Strings.{is_blank}
use wazzap_agent_go.Policy.Principal.{Key, is_zero}
use wazzap_agent_go.Outbox.Row.{Io}
use wazzap_agent_go.Agent.Effects.{
  ModelResult, Shown, context_message_map, targets_of, validate_model_result,
}
use wazzap_agent_go.Agent.Invocation.{Invocation}
use wazzap_agent_go.Agent.Turns.Row.{Turn, StoredPlan, TurnRecord, Reads, load, is_generating}
use wazzap_agent_go.Agent.Turns.Claim.{
  ClaimEnv, ClaimRequest, TurnClaim, claim, FailGenerationRequest, fail_generation,
}
use wazzap_agent_go.Agent.Turns.Commit.{CommitEnv, CommitPlanRequest, commit_plan}
use wazzap_agent_go.Agent.Dispatch.{Dispatchers, Handed, Dispatched, InvokeResult, dispatch_plan}
use wazzap_agent_go.Agent.History.{
  HistoryAnswers, HistoryEntry, wrap, no_error, invocation_entry, delivery_for_turn_state,
  ensure_invocation_history,
}

-- What everything outside the agent answers during one Invoke.
pub record InvokeEnv : Type 0 where
  pub gate_error : Option ErrorCode
  pub invocation_error : Option ErrorCode
  pub reads : Reads
  -- The version of the config that was supplied or is refreshed.
  pub config : Result ErrorCode ℕ
  pub now : ℕ
  pub claim_env : ClaimEnv
  pub history : HistoryAnswers
  -- The supplied chat or the one that is read, and the context built from it.
  pub chat_error : Option ErrorCode
  pub build_error : Option ErrorCode
  pub generate : Result ErrorCode ModelResult
  pub commit_env : CommitEnv
  pub fail_io : Io
  pub dispatchers : Dispatchers

-- The rows of the turn, how often the model was asked, and what was handed out.
pub record World : Type 0 where
  pub turn : Turn
  pub asked : ℕ
  pub handed : List Handed

-- InvokeResult and error, as the Go function gives both.
pub record Outcome : Type 0 where
  pub result : Option InvokeResult
  pub error : Option ErrorCode

abbrev pub failure : ErrorCode → Outcome
failure code = record { result = none; error = some code }

abbrev pub with_turn : World → Turn → World
with_turn w turn = record w { turn = turn }

unfoldable pub retryable_generation : ErrorCode → Bool
retryable_generation rate_limited = true
retryable_generation timeout = true
retryable_generation cancelled = true
retryable_generation unavailable = true
retryable_generation provider_failure = true
retryable_generation internal = true
retryable_generation _ = false

-- A step whose error is given back as it is.
abbrev pub attempt {ℓ} :
    {A : Type ℓ} → Result ErrorCode A → World → (A → World × Outcome) → World × Outcome
attempt (ok a) w f = f a
attempt (err code) w f = (w, failure code)

module _ (key : Key) (env : InvokeEnv) (inv : Invocation) where
  abbrev pub fail_request : ErrorCode → FailGenerationRequest
  fail_request code = record {
    key = key;
    invocation_id = inv.id;
    code = code;
    retryable = retryable_generation code;
  }

  -- Agent.failGeneration, whose own error is dropped.
  unfoldable pub failed : ErrorCode → World → World
  unfolding fail_generation retryable_generation
  failed code w =
      with_turn w (fail_generation env.fail_io env.commit_env.now (fail_request code) w.turn).0

  -- A step whose error is recorded as a failed generation first.
  abbrev pub generating {ℓ} :
      {A : Type ℓ} → Result ErrorCode A → World → (A → World × Outcome) → World × Outcome
  generating (ok a) w f = f a
  generating (err code) w f = (failed code w, failure code)

  unfoldable pub dispatched : StoredPlan → World → World × Outcome
  unfolding dispatch_plan
  dispatched plan w =
      let d = dispatch_plan env.dispatchers plan in
      (
        record w { handed = w.handed ++ d.handed },
        record { result = some d.result; error = d.error },
      )

  -- The plan of a turn that was planned before.
  unfoldable pub replay : ℕ → Option TurnState → StoredPlan → World → World × Outcome
  unfolding ensure_invocation_history delivery_for_turn_state dispatched
  replay message_id state plan w =
      attempt
        (ensure_invocation_history env.history message_id inv plan (delivery_for_turn_state state))
        w (λ _. dispatched plan w)

  abbrev pub commit_request : ℕ → ℕ → ModelResult → CommitPlanRequest
  commit_request version message_id generated = record {
    key = key;
    invocation_id = inv.id;
    current_message_id = message_id;
    config_version = version;
    response_text = generated.text;
    reply_to_message_id = generated.reply_to_message_id;
    capabilities = inv.capabilities;
    effects = generated.effects;
  }

  unfoldable pub commit : ℕ → ℕ → ModelResult → World → World × Outcome
  unfolding commit_plan dispatched
  commit version message_id generated w =
      let (turn, plan) =
        commit_plan env.commit_env (commit_request version message_id generated) w.turn in
      attempt plan (with_turn w turn) (λ p. dispatched p (with_turn w turn))

  -- A text that is only white space is no text.
  abbrev pub normalized : ModelResult → ModelResult
  normalized generated =
      if is_blank generated.text && valid_string generated.text
      then record generated { text = [] }
      else generated

  abbrev pub shown : HistoryEntry → Shown
  shown entry = record { sequence = entry.sequence; message_id = entry.message_id }

  -- The check of what the model gives, against the messages that it was shown.
  abbrev pub checked : List HistoryEntry → ModelResult → Result ErrorCode (Unit {0})
  checked entries generated = wrap provider_failure (
      validate_model_result (normalized generated) inv.capabilities
        (targets_of (context_message_map [] (map shown entries))))

  -- The call of the model, which is counted.
  unfoldable pub ask : ℕ → ℕ → List HistoryEntry → World → World × Outcome
  unfolding validate_model_result context_message_map commit is_blank valid_string
  ask version message_id entries w =
      let w' = record w { asked = suc w.asked } in
      generating (wrap provider_failure env.generate) w' (λ generated.
        generating (checked entries generated) w'
          (λ _. commit version message_id (normalized generated) w'))

  -- A granted claim: the history and the context, then the model.
  unfoldable pub generate : ℕ → ℕ → World → World × Outcome
  unfolding ask
  generate version message_id w =
      generating (no_error (env.history.append (invocation_entry message_id inv))) w (λ _.
        generating (wrap integrity_failure (env.history.list version)) w (λ entries.
          generating (no_error env.chat_error) w (λ _.
            generating (wrap integrity_failure (no_error env.build_error)) w
              (λ _. ask version message_id entries w))))

  -- What follows the claim.
  unfoldable pub claimed : ℕ → TurnClaim → World → World × Outcome
  unfolding replay generate
  claimed version c w = elim c.plan [
    | some plan ↦ replay c.message_id c.state plan w
    | none ↦ attempt (guard (is_generating c.state) integrity_failure) w (λ _.
        attempt (guard (not (is_zero c.message_id)) integrity_failure) w
          (λ _. generate version c.message_id w))
  ]

  abbrev pub claim_request : ClaimRequest
  claim_request = record { key = key; invocation = inv; now = env.now }

  unfoldable pub claim_turn : ℕ → World → World × Outcome
  unfolding claim claimed
  claim_turn version w = attempt (guard (version == inv.policy_version) conflict) w (λ _.
      let (turn, c) = claim env.claim_env claim_request w.turn in
      attempt (wrap storage_failure c) (with_turn w turn)
        (λ c. claimed version c (with_turn w turn)))

  unfoldable pub new_turn : World → World × Outcome
  unfolding claim_turn
  new_turn w = attempt (wrap integrity_failure env.config) w (λ version. claim_turn version w)

  abbrev pub is_failed_terminal : Option TurnState → Bool
  is_failed_terminal (some TurnState.failed_terminal) = true
  is_failed_terminal _ = false

  -- The switch on the turn that was loaded first.
  unfoldable pub loaded : Result ErrorCode TurnRecord → World → World × Outcome
  unfolding ensure_invocation_history dispatched new_turn
  loaded (ok r) w = elim r.plan [
    | some plan ↦
        attempt (ensure_invocation_history env.history r.message_id inv plan r.delivery) w
          (λ _. dispatched plan w)
    | none ↦ if is_failed_terminal r.state then (w, failure provider_failure) else new_turn w
  ]
  loaded (err code) w = if is_not_found code then new_turn w else (w, failure code)

  unfoldable pub invoke : World → World × Outcome
  unfolding load loaded
  invoke w = attempt (no_error env.gate_error) w (λ _.
      attempt (no_error env.invocation_error) w (λ _. loaded (load env.reads key inv.id w.turn) w))
