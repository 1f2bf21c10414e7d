-- ===== src/Agent/Turns/Commit.antt =====
-- TurnStore.CommitPlan: a checked model result becomes the turn's plan, once.
use wazzap_agent_go.Prelude.{
  ℕ, suc, Bool, true, not, ◌&&◌, ◌||◌, ◌==◌, leb, if◌then◌else◌, List, [], ◌∷◌, length, ◌++◌,
  Option, none, some, Result, ok, err, guard, ◌>>=◌, ◌>>◌, Text, text_eq, elem, map,
}
use wazzap_agent_go.Errors.{ErrorCode, invalid_argument, not_found, conflict}
use wazzap_agent_go.Turn.{TurnState, DeliveryStatus}
use wazzap_agent_go.Strings.{is_blank, is_empty}
use wazzap_agent_go.Policy.Principal.{Key, Capability, is_zero}
use wazzap_agent_go.Outbox.Row.{Io, pending}
use wazzap_agent_go.Agent.Effects.{
  EffectKind, unknown_kind, ModelEffect, Verdict, max_model_effects, effect_validate,
}
use wazzap_agent_go.Agent.Turns.Row.{
  InboundRow, ReplyRow, Turn, StoredPlan, Reads, parse_id, is_generating, has_plan, row_plan,
  load_effects, with_effects, require_id, write, attempt, read_row,
}

pub record CommitPlanRequest : Type 0 where
  pub key : Key
  pub invocation_id : ℕ
  pub current_message_id : ℕ
  pub config_version : ℕ
  pub response_text : Text
  pub reply_to_message_id : ℕ
  pub capabilities : List Capability
  pub effects : List ModelEffect

-- What the database, the identifier generator and the clock answer during one commit. `effect_error`
-- is what the effect's own validation, the lookup of its target, its encoding and its insertion
-- report; `quote_error` the lookup of the reply's target; `entry_error` the validation of the
-- reply's history entry and the insertion of the reply and the entry.
pub record CommitEnv : Type 0 where
  pub reads : Reads
  pub now : ℕ
  pub new_response_id : Result ErrorCode ℕ
  pub new_action_id : Result ErrorCode ℕ
  pub new_effect_id : ℕ → Result ErrorCode ℕ
  pub effect_error : ModelEffect → Option ErrorCode
  pub quote_error : Option ErrorCode
  pub entry_error : Option ErrorCode
  pub write_io : Io

abbrev pub no_error : Option ErrorCode → Verdict
no_error none = ok tt
no_error (some code) = err code

-- The guard at the start of CommitPlan: a text that is not only white space, or effects and no
-- reply target.
unfoldable pub complete_request : CommitPlanRequest → Bool
unfolding is_blank is_empty
complete_request request =
    not (is_zero request.invocation_id)
    && not (is_zero request.config_version)
    && not (not (is_empty request.response_text) && is_blank request.response_text)
    && not (
        is_blank request.response_text
        && (length request.effects == 0 || not (is_zero request.reply_to_message_id)))

-- The loop of validateModelEffects, with the call IDs seen so far.
validate_planned : List Capability → List Text → List ModelEffect → Verdict
unfolding effect_validate elem
validate_planned capabilities seen [] = ok tt
validate_planned capabilities seen (e ∷ es) =
    effect_validate capabilities e
    >> guard (not (elem e.call_id seen)) invalid_argument
    >> validate_planned capabilities (e.call_id ∷ seen) es

unfoldable pub validate_model_effects : List ModelEffect → List Capability → Verdict
unfolding validate_planned
validate_model_effects effects capabilities =
    guard (leb (length effects) max_model_effects) invalid_argument
    >> validate_planned capabilities [] effects

-- modelEffectPayload
abbrev payload_error : EffectKind → Verdict
payload_error (unknown_kind _) = err invalid_argument
payload_error _ = ok tt

-- insertModelEffectsTx, from the effect at a position on.
unfoldable pub insert_effects : CommitEnv → ℕ → List ModelEffect → Result ErrorCode (List ℕ)
insert_effects env n [] = ok []
insert_effects env n (e ∷ es) = env.new_effect_id n >>= λ id.
    (payload_error e.intent.kind
      >> no_error (env.effect_error e)
      >> (insert_effects env (suc n) es >>= λ ids. ok (id ∷ ids)))

-- A plan that was stored before is given back, unless the request asks for a different one.
unfoldable pub replay_commit :
    CommitEnv → CommitPlanRequest → InboundRow → Turn → Result ErrorCode StoredPlan
unfolding row_plan load_effects text_eq
replay_commit env request row turn = row_plan request.invocation_id row turn.reply >>= λ plan.
    (guard
        (plan.config_version == request.config_version
          && text_eq plan.text request.response_text
          && plan.reply_to_message_id == request.reply_to_message_id)
        conflict
      >> (load_effects env.reads.refs_error turn.effects >>= λ effects.
          ok (with_effects plan effects)))

abbrev same_version : Option ℕ → ℕ → Bool
same_version none version = true
same_version (some v) version = v == version

-- The checks of a request against the row it wants to plan for.
unfoldable pub may_plan : CommitPlanRequest → InboundRow → Verdict
unfolding validate_model_effects
may_plan request row =
    guard (is_generating row.state) conflict
    >> guard (same_version row.config_version request.config_version) conflict
    >> (parse_id row.message_id >>= λ current.
        guard (is_zero request.current_message_id || request.current_message_id == current) conflict
        >> validate_model_effects request.effects request.capabilities)

abbrev pub planned_row : TurnState → ℕ → ℕ → InboundRow → InboundRow
planned_row state version now row = record row {
  config_version = some version;
  state = some state;
  updated_at = now;
}

abbrev pub some_ids : List ℕ → List (Option ℕ)
some_ids ids = map (λ id. some id) ids

abbrev pub nullable_id : ℕ → Option (Option ℕ)
nullable_id id = if is_zero id then none else some (some id)

-- The plan as CommitPlan gives it back.
abbrev pub new_plan : CommitEnv → CommitPlanRequest → ℕ → ℕ → List ℕ → StoredPlan
new_plan env request response action effects = record {
  invocation_id = request.invocation_id;
  config_version = request.config_version;
  response_id = response;
  reply_to_message_id = request.reply_to_message_id;
  action_id = action;
  text = request.response_text;
  created_at = env.now;
  effects = effects;
}

-- The rows of a plan without a reply, which succeeded already.
abbrev pub effects_turn : CommitEnv → CommitPlanRequest → InboundRow → List ℕ → Turn → Turn
effects_turn env request row ids turn = record turn {
  row = some (planned_row TurnState.succeeded request.config_version env.now row);
  effects = turn.effects ++ some_ids ids;
}

unfoldable pub plan_effects_only :
    CommitEnv → CommitPlanRequest → InboundRow → Turn → Turn × Result ErrorCode StoredPlan
unfolding insert_effects
plan_effects_only env request row turn = attempt (insert_effects env 0 request.effects) turn (λ ids.
    write env.write_io (effects_turn env request row ids turn) turn
      (ok (record (new_plan env request 0 0 ids) { reply_to_message_id = 0; text = [] })))

-- The identifiers of a reply and of the effects beside it, once its history entry is accepted.
pub record NewIds : Type 0 where
  pub response : ℕ
  pub action : ℕ
  pub effects : List ℕ

unfoldable pub reply_ids : CommitEnv → CommitPlanRequest → InboundRow → Result ErrorCode NewIds
unfolding insert_effects
reply_ids env request row = env.new_response_id >>= λ response. env.new_action_id >>= λ action.
    parse_id row.origin.causation_id >>= λ _.
    ((if is_zero request.reply_to_message_id then ok tt else no_error env.quote_error)
      >> no_error env.entry_error
      >> (insert_effects env 0 request.effects >>= λ ids.
          ok (record { response = response; action = action; effects = ids })))

abbrev pub new_reply : CommitEnv → CommitPlanRequest → NewIds → ReplyRow
new_reply env request ids = record {
  response_id = some ids.response;
  action_id = some ids.action;
  text = request.response_text;
  reply_to_message_id = nullable_id request.reply_to_message_id;
  created_at = env.now;
  action = record { state = pending; receipt = none; last_error = none };
  delivery = DeliveryStatus.pending;
}

-- The rows of a plan with a reply, which waits for its delivery.
abbrev pub reply_turn : CommitEnv → CommitPlanRequest → InboundRow → NewIds → Turn → Turn
reply_turn env request row ids turn = record {
  row = some (planned_row TurnState.response_planned request.config_version env.now row);
  reply = some (new_reply env request ids);
  effects = turn.effects ++ some_ids ids.effects;
}

unfoldable pub plan_reply :
    CommitEnv → CommitPlanRequest → InboundRow → Turn → Turn × Result ErrorCode StoredPlan
unfolding reply_ids
plan_reply env request row turn = attempt (reply_ids env request row) turn (λ ids.
    write env.write_io (reply_turn env request row ids turn) turn
      (ok (new_plan env request ids.response ids.action ids.effects)))

unfoldable pub plan_row :
    CommitEnv → CommitPlanRequest → InboundRow → Turn → Turn × Result ErrorCode StoredPlan
unfolding may_plan plan_effects_only plan_reply is_empty
plan_row env request row turn = attempt (may_plan request row) turn (λ _.
    if is_empty request.response_text
    then plan_effects_only env request row turn
    else plan_reply env request row turn)

unfoldable pub commit_found :
    CommitEnv → CommitPlanRequest → Turn → Option InboundRow → Turn × Result ErrorCode StoredPlan
unfolding replay_commit plan_row
commit_found env request turn none = (turn, err not_found)
commit_found env request turn (some row) =
    if has_plan row turn.reply
    then (turn, replay_commit env request row turn)
    else plan_row env request row turn

-- TurnStore.CommitPlan
unfoldable pub commit_plan :
    CommitEnv → CommitPlanRequest → Turn → Turn × Result ErrorCode StoredPlan
unfolding complete_request commit_found read_row
commit_plan env request turn =
    attempt (require_id request.key (complete_request request)) turn
      (λ _. attempt (read_row env.reads turn) turn (commit_found env request turn))
