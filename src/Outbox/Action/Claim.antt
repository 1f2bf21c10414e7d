-- ===== src/Outbox/Action/Claim.antt =====
-- The reply dispatcher as a machine whose one claim is between Start and the send.
use wazzap_agent_go.Prelude.{ℕ, ◌≤◌, ◌≡◌, refl, inl, ok, err, [], ◌∷◌, arith, Text}
use wazzap_agent_go.Errors.{ErrorCode, storage_failure}
use wazzap_agent_go.Outbox.Row.{State, pending, Io, resolve_interrupted}
use wazzap_agent_go.Outbox.Once.{Claims, Machine, IsPlanned, System, Reach, start_system, sent_once}
use wazzap_agent_go.Outbox.Action.{
  Reply, Env, Pc, entered, loaded, refused, authorized, claimed, answered, unrecorded, returned,
  load, check, start, claim, complete, mark_unknown, fail_terminal, finish_complete, step,
  resolve_interrupted_action,
}

pub held : Pc → ℕ
held claimed = 1
held _ = 0

pub entered-held : held entered ≡ 0
unfolding held
entered-held = refl

load-held : (env : Env) (r : Reply) → held (load env r) ≡ 0
unfolding load held
load-held env r = ground arith

check-held : (env : Env) (state : State) → held (check env state) ≡ 0
unfolding check held
check-held env pending = ground arith
check-held env _ = refl

start-Claims :
    (io : Io) (r : Reply) → Claims r.world 0 (start io r).0.world (held (claim (start io r).1))
unfolding start claim held
start-Claims io r = ground arith

complete-Claims :
    (io : Io) (receipt : Text) (r : Reply)
    → Claims r.world 0
        (finish_complete (complete io receipt r)).1.world
        (held (finish_complete (complete io receipt r)).0)
unfolding finish_complete complete held
complete-Claims io [] r = ground arith
complete-Claims io (c ∷ receipt) r = ground arith

fail_terminal-Claims :
    (io : Io) (code : ErrorCode) (r : Reply) → Claims r.world 0 (fail_terminal io code r).0.world 0
unfolding fail_terminal
fail_terminal-Claims io code r = ground arith

mark_unknown-Claims :
    (io : Io) (code : ErrorCode) (r : Reply) → Claims r.world 0 (mark_unknown io code r).0.world 0
unfolding mark_unknown
mark_unknown-Claims io code r = ground arith

pub step-Claims :
    (env : Env) (pc : Pc) (r : Reply)
    → Claims r.world (held pc) (step env pc r).1.world (held (step env pc r).0)
unfolding step held
step-Claims env entered r = rw (load-held env r) (inl (omega arith, λ p. p))
step-Claims env (loaded state) r = rw (check-held env state) (inl (omega arith, λ p. p))
step-Claims env (refused code) r = fail_terminal-Claims env.record_io code r
step-Claims env authorized r = start-Claims env.start_io r
step-Claims env claimed r = inl (omega arith, λ p. p)
step-Claims env (answered (err code)) r = mark_unknown-Claims env.record_io code r
step-Claims env (answered (ok receipt)) r = complete-Claims env.complete_io receipt r
step-Claims env unrecorded r = mark_unknown-Claims env.record_io storage_failure r
step-Claims env (returned d) r = inl (omega arith, λ p. p)

pub restarted_world :
    (r : Reply) → (resolve_interrupted_action r).world ≡ resolve_interrupted r.world
unfolding resolve_interrupted_action resolve_interrupted
restarted_world r = ground arith

abbrev pub action_machine : Machine
action_machine = record {
  Store = Reply;
  Pc = Pc;
  Env = Env;
  world = λ r. r.world;
  restarted = resolve_interrupted_action;
  entered = entered;
  step = step;
  held = held;
  entered_free = entered-held;
  restarted_world = restarted_world;
  step_claims = step-Claims;
}

-- A planned reply is handed to the text sender at most once, whatever calls of Dispatch run on it,
-- however their actions interleave, whatever the environment answers (failed and half-applied
-- writes included) and whenever the process restarts.
pub send_once :
    (r : Reply) (t : System action_machine)
    → IsPlanned r.world
    → Reach action_machine (start_system action_machine r) t
    → t.store.world.sent ≤ 1
send_once r t p reach = sent_once action_machine r t p reach
