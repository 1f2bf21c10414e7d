-- ===== src/Tests/Agent.antt =====
-- The agent's turns at concrete messages.
use wazzap_agent_go.Prelude.{
  suc, ◌≤◌, ◌≡◌, ◌⊎◌, ◌↔◌, inl, inr, refl, true, false, [], ◌∷◌, ◌++◌, All, none, some, ok, err,
  text, arith,
}
use wazzap_agent_go.Errors.{timeout, provider_failure}
use wazzap_agent_go.Turn.{response_planned, failed_retryable, DeliveryStatus}
use wazzap_agent_go.Policy.Principal.{Key, message_react}
use wazzap_agent_go.Outbox.Row.{fine}
use wazzap_agent_go.Outbox.Row
use wazzap_agent_go.Outbox.Once
use wazzap_agent_go.Outbox.Action.{Reply}
use wazzap_agent_go.Outbox.Action.Claim.{action_machine}
use wazzap_agent_go.Outbox.Action.Views.{Agrees}
use wazzap_agent_go.Utf8.{valid_string}
use wazzap_agent_go.Strings.{is_blank}
use wazzap_agent_go.Agent.Effects.{react, ModelResult, validate_model_result}
use wazzap_agent_go.Agent.Effects.Checked.{IsTarget, IsSafe, Distinct, validate_model_result-ok_iff}
use wazzap_agent_go.Agent.Invocation.{inbound_message, message, Invocation}
use wazzap_agent_go.Agent.Turns.Row.{Turn, StoredPlan, TurnRecord, Reads, load}
use wazzap_agent_go.Agent.Turns.Claim.{ClaimEnv, ClaimRequest, claim, row_state}
use wazzap_agent_go.Agent.Turns.Commit.{CommitEnv, CommitPlanRequest, commit_plan}
use wazzap_agent_go.Agent.Turns.Ledger.{IsSound, Runs, ledger_of, planned, closed}
use wazzap_agent_go.Agent.Turns.Ledger.Reached.{System, start, later, commits, plan_is_kept}
use wazzap_agent_go.Agent.Turns.Ledger.Retries.{retry, retry-closed}
use wazzap_agent_go.Agent.Turns.Handover.{outbox_of, commit_plan-sent_once}
use wazzap_agent_go.Agent.Dispatch.{Dispatchers, dispatch_plan}
use wazzap_agent_go.Agent.Dispatch.Order.{IsReplied, Follows, in_order, dispatch_plan-ok_iff}
use wazzap_agent_go.Agent.Invoke.{InvokeEnv, World, invoke, ask, failure}
use wazzap_agent_go.Agent.Invoke.Advance.{none_yet, one_more, asked_at_most_three, Invokes-Runs}
use wazzap_agent_go.Agent.Invoke.Failure.{ask-fails, invoke_replays}

abbrev key : Key
key = record { tenant_id = 1; account_id = 2; chat_id = 3 }

abbrev empty : Turn
empty = record { row = none; reply = none; effects = [] }

abbrev hello : Invocation
hello = record {
  id = 7;
  causation_kind = message;
  causation_id = 8;
  cause = inbound_message;
  sender = some (record {
    participant_id = 4;
    ref = 5;
    display_name = text "Ana";
    is_admin = false;
    is_super_admin = false;
  });
  quote = none;
  input = text "hello" ∷ [];
  capabilities = message_react ∷ [];
  policy_version = 1;
  requested_at = 10;
}

abbrev answers : Reads
answers = record { read_error = none; refs_error = none }

abbrev claim_env : ClaimEnv
claim_env = record { reads = answers; new_message_id = ok 20; write_io = fine }

abbrev request : ClaimRequest
request = record { key = key; invocation = hello; now = 11 }

abbrev commit_env : CommitEnv
commit_env = record {
  reads = answers;
  now = 12;
  new_response_id = ok 30;
  new_action_id = ok 31;
  new_effect_id = λ n. ok (suc n);
  effect_error = λ e. none;
  quote_error = none;
  entry_error = none;
  write_io = fine;
}

abbrev commit_request : CommitPlanRequest
commit_request = record {
  key = key;
  invocation_id = 7;
  current_message_id = 20;
  config_version = 1;
  response_text = text "hi";
  reply_to_message_id = 0;
  capabilities = message_react ∷ [];
  effects = [];
}

abbrev claimed_turn : Turn
claimed_turn = (claim claim_env request empty).0

abbrev first : System
first = record { turn = empty; granted = 0 }

abbrev planned_turn : Turn
planned_turn = (commit_plan commit_env commit_request claimed_turn).0

abbrev plan : StoredPlan
plan = record {
  invocation_id = 7;
  config_version = 1;
  response_id = 30;
  reply_to_message_id = 0;
  action_id = 31;
  text = text "hi";
  created_at = 12;
  effects = [];
}

claimed_turn-IsSound : IsSound claimed_turn
unfolding claim
claimed_turn-IsSound = inr (refl, omega arith, refl, inr refl, inr refl)

commit_gives_plan : (commit_plan commit_env commit_request claimed_turn).1 ≡ ok plan
unfolding commit_plan claim
commit_gives_plan = refl

-- A second commit of the same result leaves the plan.
plan_is_kept_example :
    ledger_of 7 (commit_plan commit_env commit_request planned_turn).0 ≡ planned (ok plan)
plan_is_kept_example =
    plan_is_kept commit_env commit_request claimed_turn 1 plan
      (record { turn = (commit_plan commit_env commit_request planned_turn).0; granted = 1 })
      claimed_turn-IsSound commit_gives_plan (later start (commits commit_env commit_request refl))

-- After one attempt, three more claims close the turn.
retry-closed_example : ledger_of 7 (retry 3 claim_env request claimed_turn) ≡ closed
unfolding claim ledger_of
retry-closed_example =
    retry-closed 2 7 1 claim_env request claimed_turn (refl, refl, refl) refl refl

abbrev reply : Reply
reply = record {
  world = record {
    row = record { state = Row.pending; receipt = none; last_error = none };
    sent = 0;
  };
  turn = response_planned;
  delivery = DeliveryStatus.pending;
}

commit_plan-sent_once_example : (0 ≤ 1) × Agrees reply
unfolding commit_plan claim outbox_of
commit_plan-sent_once_example =
    commit_plan-sent_once commit_env commit_request claimed_turn plan reply
      (Once.start_system action_machine reply) refl commit_gives_plan refl Once.here

abbrev dispatchers : Dispatchers
dispatchers = record {
  respond = λ id. (record { action_id = id; status = DeliveryStatus.succeeded }, none);
  takes_batches = true;
  report_commands = some (λ handed. none);
  dispatch_effect = λ id. none;
}

abbrev invoke_env : InvokeEnv
invoke_env = record {
  gate_error = none;
  invocation_error = none;
  reads = answers;
  config = ok 1;
  now = 11;
  claim_env = claim_env;
  history = record { append = λ entry. none; list = λ version. ok [] };
  chat_error = none;
  build_error = none;
  generate = ok (record { text = text "hi"; reply_to_message_id = 0; effects = [] });
  commit_env = commit_env;
  fail_io = fine;
  dispatchers = dispatchers;
}

abbrev world : World
world = record { turn = empty; asked = 0; handed = [] }

asked_at_most_three_example : (invoke key invoke_env hello world).0.asked ≤ 3
asked_at_most_three_example =
    asked_at_most_three key world (invoke key invoke_env hello world).0 (refl, refl)
      (one_more invoke_env hello none_yet)

-- The model's timeout.
abbrev times_out : InvokeEnv
times_out = record invoke_env { generate = err timeout }

abbrev claimed_world : World
claimed_world = record world { turn = claimed_turn }

ask-fails_example :
    (row_state (ask key times_out hello 1 20 [] claimed_world).0.turn ≡ some failed_retryable)
    × ((ask key times_out hello 1 20 [] claimed_world).0.asked ≡ 1)
    × ((ask key times_out hello 1 20 [] claimed_world).0.handed ≡ [])
    × ((ask key times_out hello 1 20 [] claimed_world).1 ≡ failure provider_failure)
unfolding claim
ask-fails_example =
    ask-fails key times_out hello 1 20 [] claimed_world refl refl refl (inl (timeout, refl))

-- The plan is dispatched again, without the model.
abbrev planned_world : World
planned_world = record world { turn = planned_turn }

abbrev loaded : TurnRecord
loaded = record {
  message_id = 20;
  state = some response_planned;
  plan = some plan;
  delivery = DeliveryStatus.pending;
  updated_at = 12;
}

invoke_replays_example :
    ((invoke key invoke_env hello planned_world).0.turn ≡ planned_turn)
    × ((invoke key invoke_env hello planned_world).0.asked ≡ 0)
    × (((invoke key invoke_env hello planned_world).0.handed ≡ [])
        ⊎ ((invoke key invoke_env hello planned_world).0.handed
            ≡ [] ++ (dispatch_plan dispatchers plan).handed))
unfolding ledger_of commit_plan claim load
invoke_replays_example =
    invoke_replays key invoke_env hello planned_world plan loaded refl refl refl refl

-- A reaction to a message that was shown.
abbrev reacts : ModelResult
reacts = record {
  text = [];
  reply_to_message_id = 0;
  effects =
      record {
        call_id = text "c1";
        intent = record {
          kind = react;
          target_message_id = 20;
          emoji = text "+";
          command = [];
          sticker_name = [];
        };
      }
      ∷ [];
}

dispatch_plan-ok_iff_example : ((dispatch_plan dispatchers plan).error ≡ none) ↔ (
    IsReplied dispatchers plan
    × Follows dispatchers plan.effects
    × ((dispatch_plan dispatchers plan).handed ≡ in_order dispatchers plan))
dispatch_plan-ok_iff_example = dispatch_plan-ok_iff dispatchers plan

validate_model_result-ok_iff_example :
    (validate_model_result reacts (message_react ∷ []) (20 ∷ []) ≡ ok tt) ↔ (
      (valid_string [] ≡ true)
      × ((is_blank [] ≡ false) ⊎ ((1 ≤ 1) × (reacts.reply_to_message_id ≡ 0)))
      × (0 ≤ 16384)
      × (1 ≤ 8)
      × IsTarget (20 ∷ []) 0
      × All (IsSafe (message_react ∷ []) (20 ∷ [])) reacts.effects
      × Distinct reacts.effects)
validate_model_result-ok_iff_example =
    validate_model_result-ok_iff reacts (message_react ∷ []) (20 ∷ [])

Invokes-Runs_example :
    Runs (ledger_of 7 empty) (ledger_of 7 (invoke key invoke_env hello world).0.turn)
Invokes-Runs_example =
    Invokes-Runs key 7 world (invoke key invoke_env hello world).0 (refl, refl)
      (one_more invoke_env hello none_yet)
