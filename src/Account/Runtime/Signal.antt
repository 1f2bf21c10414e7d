-- ===== src/Account/Runtime/Signal.antt =====
-- The signal that an account became open.
use wazzap_agent_go.Account.Runtime.Outcome.{started, run-started}
use wazzap_agent_go.Prelude.{
  ◌≡◌, ◌⊎◌, refl, inl, inr, arith, Bool, true, false, Bool-cases, Option-cases, List, [], ◌∷◌,
  Option, none, some,
}
use wazzap_agent_go.Errors.{ErrorCode}
use wazzap_agent_go.Account.Runtime.{
  State, stopped, «open», Error, Runtime, Connector, Choice, done, fatal_closed, events_closed,
  take_opened, fatal, event, Status, returned, waiting, is_open, set_state, drain, fail, loop, run,
  after_start, reported,
}

-- An open account has its signal waiting.
abbrev pub IsSignalled : Runtime → Type 0
IsSignalled runtime = (is_open runtime.state ≡ false) ⊎ (runtime.opened ≡ true)

-- No consumer takes the signal.
abbrev pub NoneTaken : List Choice → Type 0
NoneTaken [] = Unit
NoneTaken (take_opened ∷ _) = ⊥
NoneTaken (_ ∷ choices) = NoneTaken choices

set_state-IsSignalled :
    (next : State) (code : Option ErrorCode) (runtime : Runtime)
    → IsSignalled runtime
    → IsSignalled (set_state next code runtime)
unfolding set_state
set_state-IsSignalled next code runtime s = ground arith

-- A waiting account that is open has its signal waiting.
abbrev pub Signals : Status → Type 0
Signals (waiting after) = IsSignalled after
Signals (returned _ _) = Unit

drain-Signals :
    (stop_error : Option Error) (errs : List Error) (runtime : Runtime)
    → Signals (drain stop_error errs runtime)
unfolding drain
drain-Signals none errs runtime = tt
drain-Signals (some e) errs runtime = tt

fail-Signals :
    (stop_error : Option Error) (e : Error) (runtime : Runtime)
    → Signals (fail stop_error e runtime)
unfolding fail
fail-Signals none e runtime = tt
fail-Signals (some e') e runtime = tt

loop-Signals :
    (stop_error : Option Error) (events fatals : Bool) (choices : List Choice) (runtime : Runtime)
    → NoneTaken choices
    → IsSignalled runtime
    → Signals (loop stop_error events fatals choices runtime)
unfolding loop
loop-Signals stop_error events fatals [] runtime n s = s
loop-Signals stop_error events fatals (done ∷ _) runtime n s = drain-Signals stop_error [] runtime
loop-Signals stop_error events fatals (take_opened ∷ choices) runtime n s = absurd n
loop-Signals stop_error events fatals (fatal_closed ∷ choices) runtime n s =
    loop-Signals stop_error events false choices runtime n s
loop-Signals stop_error events fatals (events_closed ∷ choices) runtime n s =
    loop-Signals stop_error false fatals choices runtime n s
loop-Signals stop_error events fatals (fatal none ∷ choices) runtime n s =
    loop-Signals stop_error events fatals choices runtime n s
loop-Signals stop_error events true (fatal (some e) ∷ choices) runtime n s =
    fail-Signals stop_error e runtime
loop-Signals stop_error events false (fatal (some e) ∷ choices) runtime n s =
    loop-Signals stop_error events false choices runtime n s
loop-Signals stop_error true fatals (event connected ready ∷ choices) runtime n s =
    loop-Signals stop_error true fatals choices _ n
      (set_state-IsSignalled (reported connected ready) none runtime s)
loop-Signals stop_error false fatals (event connected ready ∷ choices) runtime n s =
    loop-Signals stop_error false fatals choices runtime n s

after_start-Signals :
    (connector : Connector) (choices : List Choice) (runtime : Runtime)
    → NoneTaken choices
    → IsSignalled runtime
    → Signals (after_start connector choices runtime)
unfolding after_start
after_start-Signals connector choices runtime n s = elim (Option-cases connector.start_error) [
  | inl e ↦ elim (Bool-cases connector.ready) [
    | inl r ↦
        rw (e, r)
          (loop-Signals connector.stop_error true true choices _ n
            (set_state-IsSignalled «open» none runtime s))
    | inr r ↦ rw (e, r) (loop-Signals connector.stop_error true true choices runtime n s)
  ]
  | inr (err, e) ↦ elim (Bool-cases connector.cancelled) [
    | inl c ↦ rw (e, c) (drain-Signals connector.stop_error (err ∷ []) runtime)
    | inr c ↦ rw (e, c) (fail-Signals connector.stop_error err runtime)
  ]
]

-- While Run waits on a runtime that was stopped, an account that is open has its signal waiting,
-- if no consumer took one.
pub run-Signals :
    (connector : Connector) (choices : List Choice) (runtime : Runtime)
    → runtime.state ≡ stopped
    → NoneTaken choices
    → Signals (run connector choices runtime)
run-Signals connector choices runtime h n =
    rw (run-started connector choices runtime h)
      (after_start-Signals connector choices (started runtime) n (inl refl))
