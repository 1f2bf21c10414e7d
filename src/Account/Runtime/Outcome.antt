-- ===== src/Account/Runtime/Outcome.antt =====
-- What a run of an account's runtime leaves behind.
use wazzap_agent_go.Prelude.{
  ℕ, ◌≡◌, ◌≢◌, ◌⊎◌, inl, inr, refl, suc, arith, Bool, true, false, Bool-cases, Option-cases, List,
  [], ◌∷◌, Option, none, some,
}
use wazzap_agent_go.Account.Runtime.{
  State, stopped, connecting, «open», reconnecting, failed, Error, Runtime, Connector, Choice, done,
  fatal_closed, events_closed, take_opened, fatal, event, Status, returned, waiting, conflict_error,
  set_state, transition, stop_error_code, drain, fail, loop, run, after_start, reported,
  start_connector,
}

-- The last of the errors is the one that the runtime shows.
abbrev pub Recorded : List Error → Runtime → Type 0
Recorded [] after = (after.state ≡ stopped) × (after.last_err_code ≡ none)
Recorded (e ∷ []) after =
    (after.state ≡ failed)
    × ((after.last_err_code ≡ some e.code) ⊎ (after.last_err_code ≡ some (stop_error_code e)))
Recorded (_ ∷ e ∷ errs) after = Recorded (e ∷ errs) after

-- A state of a runtime that is up.
abbrev pub IsLive : State → Type 0
IsLive connecting = Unit
IsLive «open» = Unit
IsLive reconnecting = Unit
IsLive _ = ⊥

-- Up, with the connector started and stopped so often.
abbrev pub IsUp : ℕ → ℕ → Runtime → Type 0
IsUp starts stops runtime =
    IsLive runtime.state
    × (runtime.last_err_code ≡ none)
    × (runtime.starts ≡ starts)
    × (runtime.stops ≡ stops)

-- Up and not stopped; or down, with the connector stopped once.
abbrev pub Ends : ℕ → ℕ → Status → Type 0
Ends starts stops (waiting after) = IsUp starts stops after
Ends starts stops (returned errs after) =
    Recorded errs after × (after.starts ≡ starts) × (after.stops ≡ suc stops)

module _ (starts stops : ℕ) where
  drain-Ends :
      (stop_error : Option Error) (errs : List Error) (runtime : Runtime)
      → runtime.starts ≡ starts
      → runtime.stops ≡ stops
      → Ends starts stops (drain stop_error [] runtime)
  unfolding drain set_state
  drain-Ends none errs runtime a b = ground arith
  drain-Ends (some e) errs runtime a b = ground arith

  drain-Ends_after :
      (stop_error : Option Error) (e : Error) (runtime : Runtime)
      → runtime.starts ≡ starts
      → runtime.stops ≡ stops
      → Ends starts stops (drain stop_error (e ∷ []) runtime)
  unfolding drain set_state
  drain-Ends_after none e runtime a b = ground arith
  drain-Ends_after (some e') e runtime a b = ground arith

  fail-Ends :
      (stop_error : Option Error) (e : Error) (runtime : Runtime)
      → runtime.starts ≡ starts
      → runtime.stops ≡ stops
      → Ends starts stops (fail stop_error e runtime)
  unfolding fail set_state
  fail-Ends none e runtime a b = ground arith
  fail-Ends (some e') e runtime a b = ground arith

  reported-IsUp :
      (connected ready : Bool) (runtime : Runtime)
      → IsUp starts stops runtime
      → IsUp starts stops (set_state (reported connected ready) none runtime)
  unfolding set_state reported
  reported-IsUp true true runtime up = ground arith
  reported-IsUp true false runtime up = ground arith
  reported-IsUp false ready runtime up = ground arith

  loop-Ends :
      (stop_error : Option Error) (events fatals : Bool) (choices : List Choice) (runtime : Runtime)
      → IsUp starts stops runtime
      → Ends starts stops (loop stop_error events fatals choices runtime)
  unfolding loop
  loop-Ends stop_error events fatals [] runtime up = up
  loop-Ends stop_error events fatals (done ∷ _) runtime up =
      drain-Ends stop_error [] runtime up.2 up.3
  loop-Ends stop_error events fatals (take_opened ∷ choices) runtime up =
      loop-Ends stop_error events fatals choices _ up
  loop-Ends stop_error events fatals (fatal_closed ∷ choices) runtime up =
      loop-Ends stop_error events false choices runtime up
  loop-Ends stop_error events fatals (events_closed ∷ choices) runtime up =
      loop-Ends stop_error false fatals choices runtime up
  loop-Ends stop_error events fatals (fatal none ∷ choices) runtime up =
      loop-Ends stop_error events fatals choices runtime up
  loop-Ends stop_error events true (fatal (some e) ∷ choices) runtime up =
      fail-Ends stop_error e runtime up.2 up.3
  loop-Ends stop_error events false (fatal (some e) ∷ choices) runtime up =
      loop-Ends stop_error events false choices runtime up
  loop-Ends stop_error true fatals (event connected ready ∷ choices) runtime up =
      loop-Ends stop_error true fatals choices _ (reported-IsUp connected ready runtime up)
  loop-Ends stop_error false fatals (event connected ready ∷ choices) runtime up =
      loop-Ends stop_error false fatals choices runtime up

  -- A connector that was started, from whatever state.
  after_start-Ends :
      (connector : Connector) (choices : List Choice) (runtime : Runtime)
      → IsUp starts stops runtime
      → Ends starts stops (after_start connector choices runtime)
  unfolding after_start set_state
  after_start-Ends connector choices runtime up =
      let open_up = reported-IsUp true true runtime up in
      elim (Option-cases connector.start_error) [
        | inl e ↦ elim (Bool-cases connector.ready) [
          | inl r ↦
              rw (e, r) (loop-Ends connector.stop_error true true choices _ (tt, refl, up.2, up.3))
          | inr r ↦ rw (e, r) (loop-Ends connector.stop_error true true choices runtime up)
        ]
        | inr (err, e) ↦ elim (Bool-cases connector.cancelled) [
          | inl c ↦ rw (e, c) (drain-Ends_after connector.stop_error err runtime up.2 up.3)
          | inr c ↦ rw (e, c) (fail-Ends connector.stop_error err runtime up.2 up.3)
        ]
      ]

-- What starting a stopped runtime makes of it.
abbrev pub started : Runtime → Runtime
started runtime = start_connector (record {
  state = connecting;
  last_err_code = none;
  opened = runtime.opened;
  starts = runtime.starts;
  stops = runtime.stops;
})

pub run-started :
    (connector : Connector) (choices : List Choice) (runtime : Runtime)
    → runtime.state ≡ stopped
    → run connector choices runtime ≡ after_start connector choices (started runtime)
unfolding run transition set_state
run-started connector choices runtime h = ground arith

-- On a runtime that is stopped, Run starts the connector once. While Run waits, the account is
-- connecting, open or reconnecting, without an error code, and the connector was not stopped. When
-- Run has returned, the connector was stopped once; the account is stopped without an error code if
-- Run returned nil, and else failed with the code of the last error that Run returned, where a stop
-- that ran out of time counts as a timeout.
pub run-Ends :
    (connector : Connector) (choices : List Choice) (runtime : Runtime)
    → runtime.state ≡ stopped
    → Ends (suc runtime.starts) runtime.stops (run connector choices runtime)
run-Ends connector choices runtime h = rw (run-started connector choices runtime h) (
    after_start-Ends (suc runtime.starts) runtime.stops connector choices (started runtime)
      (tt, refl, refl, refl))

-- Run on a runtime that is not stopped is refused as a conflict, and changes nothing: the connector
-- is neither started nor stopped.
pub run_conflict :
    (connector : Connector) (choices : List Choice) (runtime : Runtime)
    → runtime.state ≢ stopped
    → run connector choices runtime ≡ returned (conflict_error ∷ []) runtime
unfolding run transition
run_conflict connector choices runtime h = ground arith
