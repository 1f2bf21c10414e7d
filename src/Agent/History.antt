-- ===== src/Agent/History.antt =====
-- Agent.ensureInvocationHistory of internal/agent/agent.go: the transcript entries of a turn that
-- was planned before.
use wazzap_agent_go.Prelude.{
  ℕ, Bool, true, false, not, ◌||◌, ◌==◌, if◌then◌else◌, List, [], ◌∷◌, Option, none, some, Result,
  ok, err, guard, ◌>>=◌, ◌>>◌, Text,
}
use wazzap_agent_go.Errors.{ErrorCode, integrity_failure, storage_failure}
use wazzap_agent_go.Turn.{TurnState, DeliveryStatus}
use wazzap_agent_go.Strings.{is_blank}
use wazzap_agent_go.Policy.Principal.{is_zero}
use wazzap_agent_go.Agent.Invocation.{SenderContext, Invocation}
use wazzap_agent_go.Agent.Turns.Row.{StoredPlan}

pub data HistoryRole : Type 0 where
  user assistant system : HistoryRole

-- The fields of a history entry that the agent reads or writes; a content is its text parts.
pub record HistoryEntry : Type 0 where
  pub sequence : ℕ
  pub message_id : ℕ
  pub role : HistoryRole
  pub sender : Option SenderContext
  pub quoted : Option ℕ
  pub content : List Text
  pub delivery : DeliveryStatus

-- What the history store answers to the two appends and to the list of a turn.
pub record HistoryAnswers : Type 0 where
  pub append : HistoryEntry → Option ErrorCode
  pub list : ℕ → Result ErrorCode (List HistoryEntry)

-- NewError: the outermost code is the one that CodeOf reads.
abbrev pub wrap {ℓ} : {A : Type ℓ} → ErrorCode → Result ErrorCode A → Result ErrorCode A
wrap code (ok a) = ok a
wrap code (err _) = err code

abbrev pub no_error : Option ErrorCode → Result ErrorCode (Unit {0})
no_error none = ok tt
no_error (some code) = err code

abbrev pub invocation_entry : ℕ → Invocation → HistoryEntry
invocation_entry message_id inv = record {
  sequence = 0;
  message_id = message_id;
  role = elim inv.sender [ none ↦ system | some _ ↦ user ];
  sender = inv.sender;
  quoted = inv.quote;
  content = inv.input;
  delivery = DeliveryStatus.not_started;
}

unfoldable pub delivery_for_turn_state : Option TurnState → DeliveryStatus
delivery_for_turn_state (some TurnState.succeeded) = DeliveryStatus.succeeded
delivery_for_turn_state (some TurnState.failed_terminal) = DeliveryStatus.failed_terminal
delivery_for_turn_state (some TurnState.unknown_outcome) = DeliveryStatus.unknown_outcome
delivery_for_turn_state _ = DeliveryStatus.pending

abbrev is_sent : DeliveryStatus → Bool
is_sent DeliveryStatus.succeeded = true
is_sent _ = false

-- The sender of a quoted message, which a person's message must have.
abbrev has_sender_ref : Option SenderContext → Bool
has_sender_ref none = false
has_sender_ref (some s) = not (is_zero s.ref)

abbrev quotable_role : HistoryEntry → Result ErrorCode (Unit {0})
quotable_role entry = elim entry.role [
  | user ↦ ok tt
  | assistant ↦ guard (is_sent entry.delivery) integrity_failure
  | system ↦ err integrity_failure
]

abbrev one_part : List Text → Bool
one_part (_ ∷ []) = true
one_part _ = false

abbrev is_user : HistoryRole → Bool
is_user user = true
is_user _ = false

-- The checks of an entry that the plan replies to.
unfoldable pub quote_entry : HistoryEntry → Result ErrorCode ℕ
quote_entry entry =
    quotable_role entry
    >> guard (one_part entry.content) integrity_failure
    >> guard (not (is_user entry.role) || has_sender_ref entry.sender) integrity_failure
    >> ok entry.message_id

-- The first entry with the target's identifier.
unfoldable pub find_quote : ℕ → List HistoryEntry → Result ErrorCode ℕ
unfolding quote_entry
find_quote target [] = err integrity_failure
find_quote target (entry ∷ entries) =
    let rest = find_quote target entries in
    if entry.message_id == target then quote_entry entry else rest

restored_quote : HistoryAnswers → StoredPlan → Result ErrorCode (Option ℕ)
unfolding find_quote
restored_quote history plan =
    if is_zero plan.reply_to_message_id
    then ok none
    else wrap storage_failure (history.list plan.config_version) >>= λ entries.
        find_quote plan.reply_to_message_id entries >>= λ id. ok (some id)

abbrev pub response_entry : StoredPlan → DeliveryStatus → Option ℕ → HistoryEntry
response_entry plan delivery quoted = record {
  sequence = 0;
  message_id = plan.response_id;
  role = assistant;
  sender = none;
  quoted = quoted;
  content = plan.text ∷ [];
  delivery = delivery;
}

unfoldable pub restore_response :
    HistoryAnswers → StoredPlan → DeliveryStatus → Result ErrorCode (Unit {0})
unfolding restored_quote is_blank
restore_response history plan delivery =
    if is_blank plan.text
    then ok tt
    else restored_quote history plan >>= λ quoted.
        wrap storage_failure (no_error (history.append (response_entry plan delivery quoted)))

-- ensureInvocationHistory
unfoldable pub ensure_invocation_history :
    HistoryAnswers → ℕ → Invocation → StoredPlan → DeliveryStatus → Result ErrorCode (Unit {0})
unfolding restore_response
ensure_invocation_history history message_id inv plan delivery =
    guard (not (is_zero message_id)) integrity_failure
    >> wrap storage_failure (no_error (history.append (invocation_entry message_id inv)))
    >> restore_response history plan delivery
