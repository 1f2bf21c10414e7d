-- ===== src/Agent/Turns/Row.antt =====
-- The rows of one turn: turnRow, its plan, and the reads of internal/adapters/sqlite/turn.go.
use wazzap_agent_go.Prelude.{
  ℕ, Bool, true, false, not, ◌||◌, if◌then◌else◌, List, [], ◌∷◌, Option, none, some, Result, ok,
  err, guard, ◌>>=◌, ◌>>◌, Text, ◌≡◌, refl, arith,
}
use wazzap_agent_go.Errors.{ErrorCode, invalid_argument, not_found, integrity_failure}
use wazzap_agent_go.Turn.{TurnState, DeliveryStatus}
use wazzap_agent_go.Policy.Principal.{Key, key_validate, is_zero}
use wazzap_agent_go.Agent.Invocation.{InvocationCause, CausationKind}
use wazzap_agent_go.Outbox.Row.{State, succeeded, failed_terminal, unknown, Io, fine, failed}
use wazzap_agent_go.Outbox.Row

-- A stored identifier, or none when the text in the column is not one.
abbrev pub StoredId : Type 0
StoredId = Option ℕ

-- What the inbound message left in its row, which a claim compares.
pub record Origin : Type 0 where
  pub provider_message_id : Option Text
  pub cause : InvocationCause
  pub causation_kind : CausationKind
  pub causation_id : StoredId
  pub participant_id : Option ℕ
  pub sender_ref : Option ℕ
  pub sender_name : Text
  pub input_text : Text
  pub occurred_at : ℕ

-- A row of inbound_events. `state` is none for a number that is no turn state, as 0 before a claim.
pub record InboundRow : Type 0 where
  pub state : Option TurnState
  pub claimed : Bool
  pub message_id : StoredId
  pub origin : Origin
  pub generation_attempts : ℕ
  pub config_version : Option ℕ
  pub last_error : Option ErrorCode
  pub updated_at : ℕ

-- A row of outbound_actions, with the delivery status of its history entry.
pub record ReplyRow : Type 0 where
  pub response_id : StoredId
  pub action_id : StoredId
  pub text : Text
  pub reply_to_message_id : Option StoredId
  pub created_at : ℕ
  pub action : Row.Row
  pub delivery : DeliveryStatus

-- The rows of a turn: its message, its reply, and its model effects in the order they are read.
pub record Turn : Type 0 where
  pub row : Option InboundRow
  pub reply : Option ReplyRow
  pub effects : List StoredId

pub record StoredPlan : Type 0 where
  pub invocation_id : ℕ
  pub config_version : ℕ
  pub response_id : ℕ
  pub reply_to_message_id : ℕ
  pub action_id : ℕ
  pub text : Text
  pub created_at : ℕ
  pub effects : List ℕ

abbrev pub parse_id : StoredId → Result ErrorCode ℕ
parse_id (some id) = ok id
parse_id none = err integrity_failure

abbrev pub is_generating : Option TurnState → Bool
is_generating (some TurnState.generating) = true
is_generating _ = false

abbrev pub is_succeeded : Option TurnState → Bool
is_succeeded (some TurnState.succeeded) = true
is_succeeded _ = false

abbrev pub has_action : Option ReplyRow → Bool
has_action (some _) = true
has_action none = false

-- A turn that has a plan: a reply, or effects only.
abbrev pub has_plan : InboundRow → Option ReplyRow → Bool
has_plan row reply = has_action reply || is_succeeded row.state

abbrev pub parse_reply_to : Option StoredId → Result ErrorCode ℕ
parse_reply_to none = ok 0
parse_reply_to (some id) = parse_id id

abbrev pub config_of : InboundRow → Result ErrorCode ℕ
config_of row = elim row.config_version [ none ↦ err integrity_failure | some v ↦ ok v ]

-- turnRow.plan, its effects not read yet. A turn without a reply has a plan only once it succeeded.
unfoldable pub row_plan : ℕ → InboundRow → Option ReplyRow → Result ErrorCode StoredPlan
row_plan invocation row none =
    guard (is_succeeded row.state) integrity_failure
    >> (config_of row >>= λ version. ok (record {
      invocation_id = invocation;
      config_version = version;
      response_id = 0;
      reply_to_message_id = 0;
      action_id = 0;
      text = [];
      created_at = row.updated_at;
      effects = [];
    }))
row_plan invocation row (some reply) = config_of row >>= λ version.
    parse_id reply.response_id >>= λ response. parse_id reply.action_id >>= λ action.
    parse_reply_to reply.reply_to_message_id >>= λ target. ok (record {
      invocation_id = invocation;
      config_version = version;
      response_id = response;
      reply_to_message_id = target;
      action_id = action;
      text = reply.text;
      created_at = reply.created_at;
      effects = [];
    })

abbrev pub with_effects : StoredPlan → List ℕ → StoredPlan
with_effects plan effects = record plan { effects = effects }

-- loadModelEffectRefs, whose query may fail.
unfoldable pub load_effects : Option ErrorCode → List StoredId → Result ErrorCode (List ℕ)
load_effects (some code) ids = err code
load_effects none [] = ok []
load_effects none (id ∷ ids) =
    parse_id id >>= λ first. load_effects none ids >>= λ rest. ok (first ∷ rest)

abbrev pub load_plan : Option ErrorCode → ℕ → InboundRow → Turn → Result ErrorCode StoredPlan
load_plan refs_error invocation row turn = row_plan invocation row turn.reply >>= λ plan.
    load_effects refs_error turn.effects >>= λ effects. ok (with_effects plan effects)

-- turnRow.delivery
unfoldable pub row_delivery : InboundRow → Option ReplyRow → DeliveryStatus
row_delivery row none =
    if is_succeeded row.state then DeliveryStatus.succeeded else DeliveryStatus.not_started
row_delivery row (some reply) = elim reply.action.state [
  | succeeded ↦ DeliveryStatus.succeeded
  | failed_terminal ↦ DeliveryStatus.failed_terminal
  | unknown ↦ DeliveryStatus.unknown_outcome
  | _ ↦ DeliveryStatus.pending
]

pub record TurnRecord : Type 0 where
  pub message_id : ℕ
  pub state : Option TurnState
  pub plan : Option StoredPlan
  pub delivery : DeliveryStatus
  pub updated_at : ℕ

-- The two reads of an operation may fail.
pub record Reads : Type 0 where
  pub read_error : Option ErrorCode
  pub refs_error : Option ErrorCode

abbrev pub require_id : Key → Bool → Result ErrorCode (Unit {0})
require_id key complete = key_validate key >> guard complete invalid_argument

-- The plan of a turn that has one.
abbrev pub optional_plan :
    Option ErrorCode → ℕ → InboundRow → Turn → Result ErrorCode (Option StoredPlan)
optional_plan refs_error invocation row turn =
    if has_plan row turn.reply
    then load_plan refs_error invocation row turn >>= (λ plan. ok (some plan))
    else ok none

unfoldable pub load_row : Reads → ℕ → InboundRow → Turn → Result ErrorCode TurnRecord
unfolding row_plan load_effects row_delivery
load_row reads invocation row turn =
    guard row.claimed not_found
    >> (parse_id row.message_id >>= λ message_id.
        optional_plan reads.refs_error invocation row turn >>= λ plan. ok (record {
          message_id = message_id;
          state = row.state;
          plan = plan;
          delivery = row_delivery row turn.reply;
          updated_at = row.updated_at;
        }))

unfoldable pub load_found : Reads → ℕ → Turn → Option InboundRow → Result ErrorCode TurnRecord
unfolding load_row
load_found reads invocation turn none = err not_found
load_found reads invocation turn (some row) = load_row reads invocation row turn

-- The write and the commit of a transaction: they succeed, or fail with the write applied or not.
abbrev pub write {ℓ} :
    {A : Type ℓ} → Io → Turn → Turn → Result ErrorCode A → Turn × Result ErrorCode A
write fine after before answer = (after, answer)
write (failed applied code) after before answer = (if applied then after else before, err code)

-- A step of an operation that may fail before anything is written.
abbrev pub attempt {ℓ κ} :
    {A : Type ℓ} {B : Type κ}
    → Result ErrorCode A
    → Turn
    → (A → Turn × Result ErrorCode B)
    → Turn × Result ErrorCode B
attempt (ok a) turn f = f a
attempt (err code) turn f = (turn, err code)

pub attempt_intro {ℓ κ ι} :
    {A : Type ℓ} {B : Type κ} (P : Turn × Result ErrorCode B → Type ι) (r : Result ErrorCode A)
    (turn : Turn) (f : A → Turn × Result ErrorCode B)
    → ((code : ErrorCode) → P (turn, err code))
    → ((a : A) → r ≡ ok a → P (f a))
    → P (attempt r turn f)
attempt_intro P (ok a) turn f pe pf = pf a refl
attempt_intro P (err code) turn f pe pf = pe code

-- The read of the row at the start of a transaction.
unfoldable pub read_row : Reads → Turn → Result ErrorCode (Option InboundRow)
read_row reads turn = elim reads.read_error [ some code ↦ err code | none ↦ ok turn.row ]

pub read_row-ok :
    (reads : Reads) (turn : Turn) (found : Option InboundRow)
    → read_row reads turn ≡ ok found
    → turn.row ≡ found
unfolding read_row
read_row-ok reads turn found h = ground arith

-- TurnStore.Load
unfoldable pub load : Reads → Key → ℕ → Turn → Result ErrorCode TurnRecord
unfolding load_found read_row
load reads key invocation turn =
    require_id key (not (is_zero invocation))
    >> (read_row reads turn >>= λ found. load_found reads invocation turn found)
