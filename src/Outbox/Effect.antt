-- ===== src/Outbox/Effect.antt =====
-- internal/effect/effect.go: Dispatcher.Dispatch over the effect outbox of
-- internal/adapters/sqlite/effect.go, one atomic action at a time.
pub mod Claim
pub mod Outcome
use wazzap_agent_go.Prelude.{
  ℕ, zero, suc, ◌+◌, Bool, true, false, ◌&&◌, ◌||◌, Option, none, some, if◌then◌else◌, Text, Result,
  ok, err,
}
use wazzap_agent_go.Errors.{
  ErrorCode, invalid_argument, not_ready, timeout, unavailable, provider_failure, integrity_failure,
  internal, delivery_pending, unknown_outcome, permission_denied, is_conflict, is_permission_denied,
}
use wazzap_agent_go.Outbox.Row.{
  State, pending, executing, succeeded, failed_terminal, unknown, other, is_pending, is_executing,
  Row, World, Io, conditional_update, set_state, set_outcome, set_row, complete, mark_unknown,
}

-- What everything outside the dispatcher answers during one Dispatch: the reference's validation,
-- the read of the row, the sender, the bound command executor, the authorizer, the reply that a
-- model effect follows, the provider or command, and the database writes.
pub record Env : Type 0 where
  pub ref_error : Option ErrorCode
  pub load_error : Option ErrorCode
  pub sender_ready : Bool
  pub is_command : Bool
  pub executor_bound : Bool
  pub authorize_error : Option ErrorCode
  pub reply_error : Option ErrorCode
  pub reply_delivered : Bool
  pub start_io : Io
  pub execution : Result ErrorCode Text
  pub complete_io : Io
  pub record_io : Io

unfoldable pub retryable_pre_execution_error : ErrorCode → Bool
retryable_pre_execution_error not_ready = true
retryable_pre_execution_error timeout = true
retryable_pre_execution_error unavailable = true
retryable_pre_execution_error provider_failure = true
retryable_pre_execution_error internal = true
retryable_pre_execution_error _ = false

-- EffectStore.Start: a model effect waits for its reply, then the claim is one conditional update.
unfoldable pub start : Env → World → World × Option ErrorCode
unfolding conditional_update
start env w = elim env.reply_error [
  | some code ↦ (w, some code)
  | none ↦
      if env.reply_delivered
      then conditional_update env.start_io (is_pending w.row.state)
          (set_row (set_state executing) w) w
      else (w, some not_ready)
]

abbrev pending_or_executing : State → Bool
pending_or_executing s = is_pending s || is_executing s

unfoldable pub fail_terminal : Io → ErrorCode → World → World × Option ErrorCode
unfolding conditional_update
fail_terminal io code w =
    conditional_update io (pending_or_executing w.row.state)
      (set_row (set_outcome failed_terminal none (some code)) w) w

-- Where a Dispatch stands between two atomic actions; `returned` holds its error, if any.
pub data Pc : Type 0 where
  entered : Pc
  loaded : State → Pc
  refused : ErrorCode → Pc
  authorized : Pc
  claimed : Pc
  executed : Result ErrorCode Text → Pc
  unrecorded : Pc
  returned : Option ErrorCode → Pc

-- The command's executor, or the authorizer's verdict on any other effect.
unfoldable pub authorize_error : Env → Option ErrorCode
authorize_error env =
    if env.is_command
    then if env.executor_bound then none else some not_ready
    else env.authorize_error

authorize : Env → Pc
unfolding authorize_error retryable_pre_execution_error
authorize env = elim (authorize_error env) [
  | none ↦ authorized
  | some code ↦ if retryable_pre_execution_error code then returned (some code) else refused code
]

terminal_state_error : State → Option ErrorCode
terminal_state_error succeeded = none
terminal_state_error unknown = some unknown_outcome
terminal_state_error _ = some provider_failure

-- The checks between Load and Start.
check : Env → State → Pc
unfolding authorize terminal_state_error
check env succeeded = returned (terminal_state_error succeeded)
check env failed_terminal = returned (terminal_state_error failed_terminal)
check env unknown = returned (terminal_state_error unknown)
check env executing = returned (some delivery_pending)
check env (other n) = returned (some integrity_failure)
check env pending = if env.sender_ready then authorize env else returned (some not_ready)

load : Env → World → Pc
load env w = elim env.ref_error [
  | some code ↦ returned (some code)
  | none ↦ elim env.load_error [ some code ↦ returned (some code) | none ↦ loaded w.row.state ]
]

claim : Option ErrorCode → Pc
claim none = claimed
claim (some code) =
    if is_conflict code then returned (some delivery_pending) else returned (some code)

-- The outcome of an execution that failed: a command that the registry denied did not run.
fail_execution : Env → ErrorCode → World → Pc × World
unfolding fail_terminal mark_unknown
fail_execution env code w =
    if env.is_command && is_permission_denied code
    then (returned (some code), (fail_terminal env.record_io permission_denied w).0)
    else (returned (some unknown_outcome), (mark_unknown env.record_io code w).0)

finish_complete : World × Option ErrorCode → Pc × World
finish_complete (w, none) = (returned none, w)
finish_complete (w, some code) = (unrecorded, w)

-- One atomic action of Dispatch. Handing the effect to the provider or the command executor is
-- counted.
unfoldable pub step : Env → Pc → World → Pc × World
unfolding load check start claim fail_execution complete mark_unknown fail_terminal finish_complete
step env entered w = (load env w, w)
step env (loaded state) w = (check env state, w)
step env (refused code) w = (returned (some code), (fail_terminal env.record_io code w).0)
step env authorized w = let (w', error) = start env w in (claim error, w')
step env claimed w = (executed env.execution, record w { sent = w.sent + 1 })
step env (executed (err code)) w = fail_execution env code w
step env (executed (ok receipt)) w = finish_complete (complete env.complete_io receipt w)
step env unrecorded w =
    (returned (some unknown_outcome), (mark_unknown env.record_io ErrorCode.storage_failure w).0)
step env (returned error) w = (returned error, w)

unfoldable pub run : ℕ → Env → Pc → World → Pc × World
run zero env pc w = (pc, w)
run (suc n) env pc w = let (pc', w') = step env pc w in run n env pc' w'

-- Dispatch takes at most six actions.
unfoldable pub dispatch : Env → World → Pc × World
unfolding run step
dispatch env w = run 6 env entered w
