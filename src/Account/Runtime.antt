-- ===== src/Account/Runtime.antt =====
-- internal/account/runtime.go: the life of an account's connection. The connector is external: what
-- it answers, and what the select statement of the loop picks, is the argument of `run`. The time
-- of a state change is not kept.
pub mod Outcome
pub mod Signal
use wazzap_agent_go.Prelude.{
  ℕ, suc, ◌≡◌, Bool, true, false, not, ◌&&◌, ◌||◌, List, [], ◌∷◌, ◌++◌, Option, none, some,
  if◌then◌else◌,
}
use wazzap_agent_go.Errors.{ErrorCode, internal, timeout, conflict}

pub data State : Type 0 where
  stopped starting pairing connecting «open» reconnecting draining failed : State

-- What the runtime reads of an error: its code by agent.CodeOf, and whether it wraps
-- context.DeadlineExceeded.
pub record Error : Type 0 where
  pub code : ErrorCode
  pub deadline_exceeded : Bool

-- The runtime's fields, `opened` being whether its channel of one place holds a signal, and how
-- often the connector was started and stopped.
pub record Runtime : Type 0 where
  pub state : State
  pub last_err_code : Option ErrorCode
  pub opened : Bool
  pub starts : ℕ
  pub stops : ℕ

abbrev pub is_open : State → Bool
is_open «open» = true
is_open _ = false

abbrev pub is_stopped : State → Bool
is_stopped stopped = true
is_stopped _ = false

-- A signal that is already waiting is enough.
unfoldable pub set_state : State → Option ErrorCode → Runtime → Runtime
set_state next code runtime = record {
  state = next;
  last_err_code = code;
  opened = runtime.opened || (is_open next && not (is_open runtime.state));
  starts = runtime.starts;
  stops = runtime.stops;
}

-- The runtime leaves the stopped state; from any other, nothing is done.
unfoldable pub transition : State → Option ErrorCode → Runtime → Option Runtime
transition next code runtime =
    if is_stopped runtime.state
    then some (record {
      state = next;
      last_err_code = code;
      opened = runtime.opened;
      starts = runtime.starts;
      stops = runtime.stops;
    })
    else none

abbrev is_internal : ErrorCode → Bool
is_internal internal = true
is_internal _ = false

unfoldable pub stop_error_code : Error → ErrorCode
stop_error_code e = if is_internal e.code && e.deadline_exceeded then timeout else e.code

-- The calls of the connector that change it.
abbrev pub start_connector : Runtime → Runtime
start_connector runtime = record {
  state = runtime.state;
  last_err_code = runtime.last_err_code;
  opened = runtime.opened;
  starts = suc runtime.starts;
  stops = runtime.stops;
}

abbrev pub stop_connector : Runtime → Runtime
stop_connector runtime = record {
  state = runtime.state;
  last_err_code = runtime.last_err_code;
  opened = runtime.opened;
  starts = runtime.starts;
  stops = suc runtime.stops;
}

-- What the select statement picks: the context is done; the fatal channel is closed or gives an
-- error or nil; the channel of events is closed or gives an event, together with what Ready
-- answers at that moment. A consumer may take the signal of `opened` in between.
pub data Choice : Type 0 where
  done fatal_closed events_closed take_opened : Choice
  fatal : Option Error → Choice
  event : (connected ready : Bool) → Choice

-- What the connector answers: to Start (with ctx.Err() after a failure), to the first Ready, and to
-- Stop, by a function of how often it was stopped before.
pub record Connector : Type 0 where
  pub start_error : Option Error
  pub cancelled : Bool
  pub ready : Bool
  pub stop_error : Option Error

-- The errors that Run joins; none is a nil error.
pub data Status : Type 0 where
  returned : List Error → Runtime → Status
  waiting : Runtime → Status

abbrev pub conflict_error : Error
conflict_error = record { code = conflict; deadline_exceeded = false }

-- The ends of Run: the connector is stopped, after a cancellation or after an error.
unfoldable pub drain : Option Error → List Error → Runtime → Status
unfolding set_state stop_error_code
drain stop_error errs runtime = elim stop_error [
  | none ↦ returned [] (set_state stopped none (stop_connector (set_state draining none runtime)))
  | some e ↦ returned (errs ++ e ∷ []) (
      set_state failed (some (stop_error_code e))
        (stop_connector (set_state draining none runtime)))
]

unfoldable pub fail : Option Error → Error → Runtime → Status
unfolding set_state stop_error_code
fail stop_error error runtime = elim stop_error [
  | none ↦ returned (error ∷ []) (stop_connector (set_state failed (some error.code) runtime))
  | some e ↦ returned (error ∷ e ∷ []) (
      set_state failed (some (stop_error_code e))
        (stop_connector (set_state failed (some error.code) runtime)))
]

abbrev take_signal : Runtime → Runtime
take_signal runtime = record {
  state = runtime.state;
  last_err_code = runtime.last_err_code;
  opened = false;
  starts = runtime.starts;
  stops = runtime.stops;
}

-- The state that an event leads to.
unfoldable pub reported : Bool → Bool → State
reported connected ready =
    if connected && ready then «open» else if connected then connecting else reconnecting

-- The loop, with whether the channels of events and of fatal errors are still selected. A channel
-- that was closed is nil from then on and never picked again; when both are, only the context is
-- waited for.
unfoldable pub loop : Option Error → Bool → Bool → List Choice → Runtime → Status
unfolding set_state drain fail reported
loop stop_error events fatals [] runtime = waiting runtime
loop stop_error events fatals (done ∷ _) runtime = drain stop_error [] runtime
loop stop_error events fatals (take_opened ∷ choices) runtime =
    loop stop_error events fatals choices (take_signal runtime)
loop stop_error events fatals (fatal_closed ∷ choices) runtime =
    loop stop_error events false choices runtime
loop stop_error events fatals (events_closed ∷ choices) runtime =
    loop stop_error false fatals choices runtime
loop stop_error events fatals (fatal none ∷ choices) runtime =
    loop stop_error events fatals choices runtime
loop stop_error events fatals (fatal (some e) ∷ choices) runtime =
    let rest = loop stop_error events fatals choices runtime in
    if fatals then fail stop_error e runtime else rest
loop stop_error events fatals (event connected ready ∷ choices) runtime =
    loop stop_error events fatals choices
      (if events then set_state (reported connected ready) none runtime else runtime)

-- The rest of Run once the connector's Start was called.
unfoldable pub after_start : Connector → List Choice → Runtime → Status
unfolding set_state drain fail loop
after_start connector choices runtime = elim connector.start_error [
  | some e ↦
      if connector.cancelled
      then drain connector.stop_error (e ∷ []) runtime
      else fail connector.stop_error e runtime
  | none ↦
      loop connector.stop_error true true choices
        (if connector.ready then set_state «open» none runtime else runtime)
]

unfoldable pub run : Connector → List Choice → Runtime → Status
unfolding set_state transition after_start
run connector choices runtime = elim (transition starting none runtime) [
  | none ↦ returned (conflict_error ∷ []) runtime
  | some begun ↦ after_start connector choices (start_connector (set_state connecting none begun))
]
