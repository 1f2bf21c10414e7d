-- ===== src/Tests/Account.antt =====
-- The account's runtime at concrete runs.
use wazzap_agent_go.Prelude.{refl, true, false, none, some, List, [], ◌∷◌}
use wazzap_agent_go.Errors.{unavailable}
use wazzap_agent_go.Account.Runtime.{
  stopped, Runtime, Connector, Choice, done, event, fatal, events_closed, run,
}
use wazzap_agent_go.Account.Runtime.Outcome.{Ends, run-Ends}
use wazzap_agent_go.Account.Runtime.Signal.{Signals, run-Signals}

abbrev idle : Runtime
idle = record { state = stopped; last_err_code = none; opened = false; starts = 0; stops = 0 }

-- Stop fails with an error that wraps no deadline.
abbrev connector : Connector
connector = record {
  start_error = none;
  cancelled = false;
  ready = false;
  stop_error = some (record { code = unavailable; deadline_exceeded = false });
}

-- The account opens, is disconnected, and opens again.
abbrev opens : List Choice
opens = event true true ∷ event false false ∷ event true true ∷ []

abbrev ends : List Choice
ends = event true true ∷ events_closed ∷ fatal none ∷ done ∷ []

run-Ends_example : Ends 1 0 (run connector ends idle)
run-Ends_example = run-Ends connector ends idle refl

run-Signals_example : Signals (run connector opens idle)
run-Signals_example = run-Signals connector opens idle refl tt
