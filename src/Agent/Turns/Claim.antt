-- ===== src/Agent/Turns/Claim.antt =====
-- TurnStore.Claim and TurnStore.FailGeneration.
use wazzap_agent_go.Prelude.{
  ℕ, ◌+◌, Bool, true, false, not, ◌&&◌, ◌==◌, leb, if◌then◌else◌, [], Option, none, some, Result,
  ok, err, ◌>>=◌, text_eq,
}
use wazzap_agent_go.Errors.{
  ErrorCode, conflict, provider_failure, integrity_failure, unknown_outcome,
}
use wazzap_agent_go.Turn.{TurnState, generating, failed_retryable, failed_terminal}
use wazzap_agent_go.Policy.Principal.{Key, is_zero}
use wazzap_agent_go.Outbox.Row.{Io, conditional_update}
use wazzap_agent_go.Agent.Invocation.{
  Invocation, SenderContext, is_inbound, is_message, flatten_text,
}
use wazzap_agent_go.Agent.Turns.Row.{
  Origin, InboundRow, Turn, StoredPlan, Reads, parse_id, is_generating, has_plan, load_plan,
  require_id, write, attempt, read_row,
}

pub record ClaimRequest : Type 0 where
  pub key : Key
  pub invocation : Invocation
  pub now : ℕ

pub record TurnClaim : Type 0 where
  pub state : Option TurnState
  pub message_id : ℕ
  pub plan : Option StoredPlan

-- What the database and the identifier generator answer during one claim. A statement that fails
-- before the commit is a write that was not applied.
pub record ClaimEnv : Type 0 where
  pub reads : Reads
  pub new_message_id : Result ErrorCode ℕ
  pub write_io : Io

abbrev pub max_generation_attempts : ℕ
max_generation_attempts = 3

abbrev pub generating_claim : ℕ → TurnClaim
generating_claim id = record { state = some generating; message_id = id; plan = none }

-- The row of an invocation that no message brought: its sender is trusted already.
abbrev origin_of : Invocation → Origin
origin_of inv = record {
  provider_message_id = none;
  cause = inv.cause;
  causation_kind = inv.causation_kind;
  causation_id = some inv.causation_id;
  participant_id = elim inv.sender [ none ↦ none | some s ↦ some s.participant_id ];
  sender_ref = elim inv.sender [ none ↦ none | some s ↦ some s.ref ];
  sender_name = elim inv.sender [ none ↦ [] | some s ↦ s.display_name ];
  input_text = flatten_text inv.input;
  occurred_at = inv.requested_at;
}

-- insertInvocation
unfoldable pub inserted_row : ClaimRequest → ℕ → InboundRow
unfolding flatten_text
inserted_row request id = record {
  state = some generating;
  claimed = true;
  message_id = some id;
  origin = origin_of request.invocation;
  generation_attempts = 1;
  config_version = some request.invocation.policy_version;
  last_error = none;
  updated_at = request.now;
}

abbrev pub set_row : InboundRow → Turn → Turn
set_row row turn = record turn { row = some row }

unfoldable pub first_claim : ClaimEnv → ClaimRequest → Turn → Turn × Result ErrorCode TurnClaim
unfolding inserted_row
first_claim env request turn = attempt env.new_message_id turn (λ id.
    write env.write_io (set_row (inserted_row request id) turn) turn (ok (generating_claim id)))

abbrev matches_id : ℕ → Option ℕ → Bool
matches_id id none = false
matches_id id (some stored) = stored == id

abbrev is_some {ℓ} : {A : Type ℓ} → Option A → Bool
is_some none = false
is_some (some _) = true

matches_sender : Origin → Option SenderContext → Bool
unfolding text_eq
matches_sender origin none = false
matches_sender origin (some s) =
    matches_id s.participant_id origin.participant_id
    && matches_id s.ref origin.sender_ref
    && text_eq origin.sender_name s.display_name

-- matchesPreclaimedInbound
pub matches_preclaimed_inbound : Origin → Invocation → Bool
unfolding matches_sender text_eq flatten_text
matches_preclaimed_inbound origin inv =
    is_some origin.provider_message_id
    && is_inbound inv.cause
    && is_inbound origin.cause
    && is_message inv.causation_kind
    && is_message origin.causation_kind
    && matches_id inv.causation_id origin.causation_id
    && matches_sender origin inv.sender
    && text_eq origin.input_text (flatten_text inv.input)
    && origin.occurred_at == inv.requested_at

abbrev pub parsed_claim : InboundRow → Result ErrorCode TurnClaim
parsed_claim row = parse_id row.message_id >>= λ id. ok (generating_claim id)

-- The row of a claim that the model will be asked for once more.
abbrev pub generating_again : ClaimRequest → InboundRow → InboundRow
generating_again request row = record row {
  state = some generating;
  claimed = true;
  config_version = some request.invocation.policy_version;
  generation_attempts = row.generation_attempts + 1;
  updated_at = request.now;
}

-- A message that was received and not claimed yet.
unfoldable pub claim_received :
    ClaimEnv → ClaimRequest → InboundRow → Turn → Turn × Result ErrorCode TurnClaim
unfolding matches_preclaimed_inbound
claim_received env request row turn =
    if matches_preclaimed_inbound row.origin request.invocation
    then write env.write_io (set_row (generating_again request row) turn) turn (parsed_claim row)
    else (turn, err conflict)

abbrev pub exhausted : ClaimRequest → InboundRow → InboundRow
exhausted request row = record row {
  state = some failed_terminal;
  last_error = some provider_failure;
  updated_at = request.now;
}

-- A turn without a plan is generated again, unless its attempts are used up.
unfoldable pub renew :
    ClaimEnv → ClaimRequest → InboundRow → Turn → Turn × Result ErrorCode TurnClaim
renew env request row turn =
    if leb max_generation_attempts row.generation_attempts
    then write env.write_io (set_row (exhausted request row) turn) turn (err provider_failure)
    else write env.write_io
        (set_row (record (generating_again request row) { last_error = none }) turn) turn
        (parsed_claim row)

-- The switch on a claimed turn without a plan.
unfoldable pub claim_unplanned :
    Option TurnState
    → ClaimEnv
    → ClaimRequest
    → InboundRow
    → Turn
    → Turn × Result ErrorCode TurnClaim
unfolding renew
claim_unplanned (some generating) env request row turn = renew env request row turn
claim_unplanned (some failed_retryable) env request row turn = renew env request row turn
claim_unplanned (some failed_terminal) env request row turn = (turn, err provider_failure)
claim_unplanned (some TurnState.unknown_outcome) env request row turn = (turn, err unknown_outcome)
claim_unplanned _ env request row turn = (turn, err integrity_failure)

unfoldable pub replayed : ClaimEnv → ClaimRequest → InboundRow → Turn → Result ErrorCode TurnClaim
replayed env request row turn =
    load_plan env.reads.refs_error request.invocation.id row turn >>= λ plan.
    parse_id row.message_id >>= λ id.
    ok (record { state = row.state; message_id = id; plan = some plan })

unfoldable pub claim_row :
    ClaimEnv → ClaimRequest → InboundRow → Turn → Turn × Result ErrorCode TurnClaim
unfolding claim_received replayed claim_unplanned
claim_row env request row turn =
    if not row.claimed
    then claim_received env request row turn
    else if has_plan row turn.reply
    then (turn, replayed env request row turn)
    else claim_unplanned row.state env request row turn

unfoldable pub claim_found :
    ClaimEnv → ClaimRequest → Turn → Option InboundRow → Turn × Result ErrorCode TurnClaim
unfolding first_claim claim_row
claim_found env request turn none = first_claim env request turn
claim_found env request turn (some row) = claim_row env request row turn

-- TurnStore.Claim
unfoldable pub claim : ClaimEnv → ClaimRequest → Turn → Turn × Result ErrorCode TurnClaim
unfolding claim_found read_row
claim env request turn =
    attempt
      (require_id request.key (not (is_zero request.invocation.id) && not (is_zero request.now)))
      turn (λ _. attempt (read_row env.reads turn) turn (claim_found env request turn))

pub record FailGenerationRequest : Type 0 where
  pub key : Key
  pub invocation_id : ℕ
  pub code : ErrorCode
  pub retryable : Bool

abbrev pub row_state : Turn → Option TurnState
row_state turn = elim turn.row [ none ↦ none | some row ↦ row.state ]

abbrev pub failed_row : FailGenerationRequest → ℕ → InboundRow → InboundRow
failed_row request now row = record row {
  state = some (if request.retryable then failed_retryable else failed_terminal);
  last_error = some request.code;
  updated_at = now;
}

abbrev pub failed_turn : FailGenerationRequest → ℕ → Turn → Turn
failed_turn request now turn = elim turn.row [
  | none ↦ turn
  | some row ↦ set_row (failed_row request now row) turn
]

-- TurnStore.FailGeneration: one conditional update, of a turn that is generating.
unfoldable pub fail_generation : Io → ℕ → FailGenerationRequest → Turn → Turn × Option ErrorCode
unfolding conditional_update
fail_generation io now request turn =
    elim (require_id request.key (not (is_zero request.invocation_id))) [
      | err code ↦ (turn, some code)
      | ok _ ↦
          conditional_update io (is_generating (row_state turn)) (failed_turn request now turn) turn
    ]
