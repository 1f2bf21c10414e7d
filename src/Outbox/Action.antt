-- ===== src/Outbox/Action.antt =====
-- internal/action/action.go: Dispatcher.Dispatch over the reply outbox of
-- internal/adapters/sqlite/action.go, one atomic action at a time. A write moves the row together
-- with its two views: the turn, and the delivery status of the assistant's history entry.
pub mod Claim
pub mod Views
pub mod Outcome
use wazzap_agent_go.Prelude.{
  ℕ, zero, suc, ◌+◌, Bool, true, false, Option, none, some, if◌then◌else◌, Text, [], ◌∷◌, Result,
  ok, err,
}
use wazzap_agent_go.Errors.{
  ErrorCode, invalid_argument, not_ready, storage_failure, provider_failure, integrity_failure,
  unknown_outcome, is_conflict,
}
use wazzap_agent_go.Turn.{TurnState, DeliveryStatus}
use wazzap_agent_go.Outbox.Row.{
  State, pending, executing, succeeded, failed_terminal, unknown, other, is_pending, is_executing,
  World, Io, conditional_update, set_state, set_outcome, set_row,
}

pub record Reply : Type 0 where
  pub world : World
  pub turn : TurnState
  pub delivery : DeliveryStatus

-- What everything outside the dispatcher answers during one Dispatch.
pub record Env : Type 0 where
  pub ref_valid : Bool
  pub load_error : Option ErrorCode
  pub authorize_error : Option ErrorCode
  pub sender_ready : Bool
  pub start_io : Io
  pub sent : Result ErrorCode Text
  pub complete_io : Io
  pub record_io : Io

abbrev pub is_response_planned : TurnState → Bool
is_response_planned TurnState.response_planned = true
is_response_planned _ = false

-- ActionStore.Start
unfoldable pub start : Io → Reply → Reply × Option ErrorCode
unfolding conditional_update
start io r =
    conditional_update io (is_pending r.world.row.state)
      (record r {
        world = set_row (set_state executing) r.world;
        turn = if is_response_planned r.turn then TurnState.delivery_pending else r.turn;
      })
      r

-- The turn and delivery states that finishActionTx writes for an outcome.
delivery_of : State → DeliveryStatus
delivery_of failed_terminal = DeliveryStatus.failed_terminal
delivery_of unknown = DeliveryStatus.unknown_outcome
delivery_of _ = DeliveryStatus.succeeded

turn_of : State → TurnState
turn_of failed_terminal = TurnState.failed_terminal
turn_of unknown = TurnState.unknown_outcome
turn_of _ = TurnState.succeeded

-- `COALESCE(?, provider_receipt)`
abbrev coalesce : Option Text → Option Text → Option Text
coalesce (some receipt) old = some receipt
coalesce none old = old

finished : State → Option Text → Option ErrorCode → Reply → Reply
unfolding delivery_of turn_of
finished to receipt code r = record {
  world = set_row (set_outcome to (coalesce receipt r.world.row.receipt) code) r.world;
  turn = turn_of to;
  delivery = delivery_of to;
}

-- finishActionTx, in its transaction.
finish : Io → Bool → State → Option Text → Option ErrorCode → Reply → Reply × Option ErrorCode
unfolding conditional_update finished
finish io matched to receipt code r = conditional_update io matched (finished to receipt code r) r

-- ActionStore.Complete refuses an empty receipt.
unfoldable pub complete : Io → Text → Reply → Reply × Option ErrorCode
unfolding finish
complete io [] r = (r, some invalid_argument)
complete io (c ∷ receipt) r =
    finish io (is_executing r.world.row.state) succeeded (some (c ∷ receipt)) none r

unfoldable pub fail_terminal : Io → ErrorCode → Reply → Reply × Option ErrorCode
unfolding finish
fail_terminal io code r =
    finish io (is_pending r.world.row.state) failed_terminal none (some code) r

unfoldable pub mark_unknown : Io → ErrorCode → Reply → Reply × Option ErrorCode
unfolding finish
mark_unknown io code r = finish io (is_executing r.world.row.state) unknown none (some code) r

-- resolveInterruptedActions, on this row.
unfoldable pub resolve_interrupted_action : Reply → Reply
unfolding finished
resolve_interrupted_action r =
    if is_executing r.world.row.state then finished unknown none (some unknown_outcome) r else r

-- The DeliveryResult's status, if the result is not the zero one, and the error.
pub record Delivery : Type 0 where
  pub status : DeliveryStatus
  pub error : Option ErrorCode

pub data Pc : Type 0 where
  entered : Pc
  loaded : State → Pc
  refused : ErrorCode → Pc
  authorized : Pc
  claimed : Pc
  answered : Result ErrorCode Text → Pc
  unrecorded : Pc
  returned : Delivery → Pc

abbrev pub done : DeliveryStatus → Option ErrorCode → Pc
done status error = returned (record { status = status; error = error })

load : Env → Reply → Pc
load env r =
    if env.ref_valid
    then elim env.load_error [
      | some code ↦ done DeliveryStatus.not_started (some code)
      | none ↦ loaded r.world.row.state
    ]
    else done DeliveryStatus.not_started (some invalid_argument)

-- The checks between Load and Start: the policy first, then the sender.
authorize : Env → Pc
authorize env = elim env.authorize_error [
  | some code ↦ refused code
  | none ↦ if env.sender_ready then authorized else done DeliveryStatus.pending (some not_ready)
]

check : Env → State → Pc
unfolding authorize
check env succeeded = done DeliveryStatus.succeeded none
check env failed_terminal = done DeliveryStatus.failed_terminal (some provider_failure)
check env unknown = done DeliveryStatus.unknown_outcome (some unknown_outcome)
check env executing = done DeliveryStatus.pending (some ErrorCode.delivery_pending)
check env pending = authorize env
check env (other n) = done DeliveryStatus.not_started (some integrity_failure)

claim : Option ErrorCode → Pc
claim none = claimed
claim (some code) =
    if is_conflict code
    then done DeliveryStatus.pending (some ErrorCode.delivery_pending)
    else done DeliveryStatus.pending (some code)

finish_complete : Reply × Option ErrorCode → Pc × Reply
finish_complete (r, none) = (done DeliveryStatus.succeeded none, r)
finish_complete (r, some code) = (unrecorded, r)

-- One atomic action of Dispatch. Handing the text to the sender is counted.
unfoldable pub step : Env → Pc → Reply → Pc × Reply
unfolding load check start claim complete mark_unknown fail_terminal finish_complete
step env entered r = (load env r, r)
step env (loaded state) r = (check env state, r)
step env (refused code) r =
    (done DeliveryStatus.failed_terminal (some code), (fail_terminal env.record_io code r).0)
step env authorized r = let (r', error) = start env.start_io r in (claim error, r')
step env claimed r =
    (answered env.sent, record r { world = record (r.world) { sent = r.world.sent + 1 } })
step env (answered (err code)) r = (
  done DeliveryStatus.unknown_outcome (some unknown_outcome),
  (mark_unknown env.record_io code r).0,
)
step env (answered (ok receipt)) r = finish_complete (complete env.complete_io receipt r)
step env unrecorded r = (
  done DeliveryStatus.unknown_outcome (some unknown_outcome),
  (mark_unknown env.record_io storage_failure r).0,
)
step env (returned d) r = (returned d, r)

unfoldable pub run : ℕ → Env → Pc → Reply → Pc × Reply
run zero env pc r = (pc, r)
run (suc n) env pc r = let (pc', r') = step env pc r in run n env pc' r'

-- Dispatch takes at most six actions.
unfoldable pub dispatch : Env → Reply → Pc × Reply
unfolding run step
dispatch env r = run 6 env entered r
