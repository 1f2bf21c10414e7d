-- ===== src/Outbox/Effect/Claim.antt =====
-- The effect dispatcher as a machine whose one claim is between Start and the execution.
use wazzap_agent_go.Prelude.{ℕ, ◌≤◌, ◌≡◌, refl, inl, none, some, ok, err, arith, Option, Text}
use wazzap_agent_go.Errors.{ErrorCode}
use wazzap_agent_go.Outbox.Row.{
  State, pending, Io, World, resolve_interrupted, complete, mark_unknown,
}
use wazzap_agent_go.Outbox.Once.{Claims, Machine, IsPlanned, System, Reach, start_system, sent_once}
use wazzap_agent_go.Outbox.Effect.{
  Env, Pc, entered, loaded, refused, authorized, claimed, executed, unrecorded, returned, step,
  load, check, start, claim, fail_terminal, fail_execution, finish_complete,
}

pub held : Pc → ℕ
held claimed = 1
held _ = 0

pub entered-held : held entered ≡ 0
unfolding held
entered-held = refl

load-held : (env : Env) (w : World) → held (load env w) ≡ 0
unfolding load held
load-held env w = ground arith

check-held : (env : Env) (state : State) → held (check env state) ≡ 0
unfolding check held
check-held env pending = ground arith
check-held env _ = refl

claim-held : (error : Option ErrorCode) → held (claim error) ≤ 1
unfolding claim held
claim-held none = omega arith
claim-held (some code) = ground arith

start-Claims : (env : Env) (w : World) → Claims w 0 (start env w).0 (held (claim (start env w).1))
unfolding start claim held
start-Claims env w = ground arith

fail_execution-Claims :
    (env : Env) (code : ErrorCode) (w : World)
    → Claims w 0 (fail_execution env code w).1 (held (fail_execution env code w).0)
unfolding fail_execution held
fail_execution-Claims env code w = ground arith

complete-Claims :
    (env : Env) (receipt : Text) (w : World)
    → Claims w 0
        (finish_complete (complete env.complete_io receipt w)).1
        (held (finish_complete (complete env.complete_io receipt w)).0)
unfolding finish_complete complete held
complete-Claims env receipt w = ground arith

fail_terminal-Claims :
    (io : Io) (code : ErrorCode) (w : World) → Claims w 0 (fail_terminal io code w).0 0
unfolding fail_terminal
fail_terminal-Claims io code w = ground arith

mark_unknown-Claims :
    (io : Io) (code : ErrorCode) (w : World) → Claims w 0 (mark_unknown io code w).0 0
unfolding mark_unknown
mark_unknown-Claims io code w = ground arith

pub step-Claims :
    (env : Env) (pc : Pc) (w : World)
    → Claims w (held pc) (step env pc w).1 (held (step env pc w).0)
unfolding step held
step-Claims env entered w = rw (load-held env w) (inl (omega arith, λ p. p))
step-Claims env (loaded state) w = rw (check-held env state) (inl (omega arith, λ p. p))
step-Claims env (refused code) w = fail_terminal-Claims env.record_io code w
step-Claims env authorized w = start-Claims env w
step-Claims env claimed w = inl (omega arith, λ p. p)
step-Claims env (executed (err code)) w = fail_execution-Claims env code w
step-Claims env (executed (ok receipt)) w = complete-Claims env receipt w
step-Claims env unrecorded w = mark_unknown-Claims env.record_io ErrorCode.storage_failure w
step-Claims env (returned error) w = inl (omega arith, λ p. p)

abbrev pub effect_machine : Machine
effect_machine = record {
  Store = World;
  Pc = Pc;
  Env = Env;
  world = λ w. w;
  restarted = resolve_interrupted;
  entered = entered;
  step = step;
  held = held;
  entered_free = entered-held;
  restarted_world = λ w. refl;
  step_claims = step-Claims;
}

-- A planned effect is handed to the provider or its command executor at most once, whatever calls
-- of Dispatch run on it, however their actions interleave, whatever the environment answers
-- (failed and half-applied writes included) and whenever the process restarts.
pub dispatch_once :
    (w : World) (t : System effect_machine)
    → IsPlanned w
    → Reach effect_machine (start_system effect_machine w) t
    → t.store.sent ≤ 1
dispatch_once w t p r = sent_once effect_machine w t p r
