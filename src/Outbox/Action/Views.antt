-- ===== src/Outbox/Action/Views.antt =====
-- The turn and the history entry follow the reply's row.
use wazzap_agent_go.Prelude.{
  ◌≡◌, refl, sym, subst, Option, none, some, ok, err, [], ◌∷◌, arith, Text,
}
use wazzap_agent_go.Errors.{ErrorCode, storage_failure}
use wazzap_agent_go.Turn.{TurnState, DeliveryStatus}
use wazzap_agent_go.Outbox.Row.{
  State, pending, executing, succeeded, failed_terminal, unknown, other, Io,
}
use wazzap_agent_go.Outbox.Once.{System, Move, enter, act, restart, Reach, here, next, start_system}
use wazzap_agent_go.Outbox.Action.{
  Reply, Env, Pc, entered, loaded, refused, authorized, claimed, answered, unrecorded, returned,
  start, complete, mark_unknown, fail_terminal, finish_complete, step, resolve_interrupted_action,
}
use wazzap_agent_go.Outbox.Action.Claim.{action_machine}

-- The turn state and delivery status that belong to a row's state.
abbrev pub view : State → Option (TurnState × DeliveryStatus)
view pending = some (TurnState.response_planned, DeliveryStatus.pending)
view executing = some (TurnState.delivery_pending, DeliveryStatus.pending)
view succeeded = some (TurnState.succeeded, DeliveryStatus.succeeded)
view failed_terminal = some (TurnState.failed_terminal, DeliveryStatus.failed_terminal)
view unknown = some (TurnState.unknown_outcome, DeliveryStatus.unknown_outcome)
view (other n) = none

abbrev pub Agrees : Reply → Type 0
Agrees r = view r.world.row.state ≡ some (r.turn, r.delivery)

start-Agrees : (io : Io) (r : Reply) → Agrees r → Agrees (start io r).0
unfolding start
start-Agrees io r a = ground arith

complete-Agrees :
    (io : Io) (receipt : Text) (r : Reply) → Agrees r → Agrees (complete io receipt r).0
unfolding complete
complete-Agrees io [] r a = a
complete-Agrees io (c ∷ receipt) r a = ground arith

fail_terminal-Agrees :
    (io : Io) (code : ErrorCode) (r : Reply) → Agrees r → Agrees (fail_terminal io code r).0
unfolding fail_terminal
fail_terminal-Agrees io code r a = ground arith

mark_unknown-Agrees :
    (io : Io) (code : ErrorCode) (r : Reply) → Agrees r → Agrees (mark_unknown io code r).0
unfolding mark_unknown
mark_unknown-Agrees io code r a = ground arith

finish_complete-store : (c : Reply × Option ErrorCode) → (finish_complete c).1 ≡ c.0
unfolding finish_complete
finish_complete-store (r, none) = refl
finish_complete-store (r, some code) = refl

step-Agrees : (env : Env) (pc : Pc) (r : Reply) → Agrees r → Agrees (step env pc r).1
unfolding step
step-Agrees env entered r a = a
step-Agrees env (loaded state) r a = a
step-Agrees env (refused code) r a = fail_terminal-Agrees env.record_io code r a
step-Agrees env authorized r a = start-Agrees env.start_io r a
step-Agrees env claimed r a = a
step-Agrees env (answered (err code)) r a = mark_unknown-Agrees env.record_io code r a
step-Agrees env (answered (ok receipt)) r a =
    rw (finish_complete-store (complete env.complete_io receipt r))
      (complete-Agrees env.complete_io receipt r a)
step-Agrees env unrecorded r a = mark_unknown-Agrees env.record_io storage_failure r a
step-Agrees env (returned d) r a = a

resolve_interrupted_action-Agrees : (r : Reply) → Agrees r → Agrees (resolve_interrupted_action r)
unfolding resolve_interrupted_action
resolve_interrupted_action-Agrees r a = ground arith

StoreAgrees : System action_machine → Type 0
StoreAgrees s = Agrees s.store

Move-Agrees :
    (s t : System action_machine) → Move action_machine s t → Agrees s.store → Agrees t.store
unfolding StoreAgrees
Move-Agrees s t (enter e) a = subst StoreAgrees (sym e) a
Move-Agrees s t (act before after pc env e f) a =
    subst StoreAgrees (sym f) (step-Agrees env pc s.store a)
Move-Agrees s t (restart e) a =
    subst StoreAgrees (sym e) (resolve_interrupted_action-Agrees s.store a)

-- Whatever calls of Dispatch interleave on a reply, whatever the environment answers and whenever
-- the process restarts, the turn's state and the history entry's delivery status are those that
-- belong to the state of the reply's row, if they were so at the start.
pub views_agree :
    (r : Reply) (t : System action_machine)
    → Agrees r
    → Reach action_machine (start_system action_machine r) t
    → Agrees t.store
views_agree r t a here = a
views_agree r t a (next {t = u} reach mv) = Move-Agrees u t mv (views_agree r u a reach)
