-- ===== src/Agent/Turns/Ledger/Commits.antt =====
-- Plans and deliveries keep the ledger, and a plan is read back as it was committed.
use wazzap_agent_go.Prelude.{
  ℕ, ◌≡◌, refl, Bool, true, false, if_intro, List, Option, none, some, Result, ok, arith, guard,
  then-ok, guard-ok,
}
use wazzap_agent_go.Errors.{ErrorCode, conflict}
use wazzap_agent_go.Turn.{TurnState, DeliveryStatus}
use wazzap_agent_go.Strings.{is_empty}
use wazzap_agent_go.Outbox.Row
use wazzap_agent_go.Agent.Turns.Row.{
  InboundRow, ReplyRow, Turn, StoredPlan, is_generating, has_plan, load_plan, require_id,
  attempt_intro, read_row, read_row-ok,
}
use wazzap_agent_go.Agent.Turns.Commit.{
  CommitEnv, CommitPlanRequest, NewIds, commit_plan, commit_found, plan_row, plan_effects_only,
  plan_reply, effects_turn, reply_turn, planned_row, may_plan, complete_request, reply_ids,
  insert_effects,
}
use wazzap_agent_go.Agent.Turns.Ledger.{ledger_of, plans, stays, IsSound, Refines, Refines-refl}
use wazzap_agent_go.Agent.Turns.Ledger.Claims.{write-Refines}

abbrev grants_none : Result ErrorCode StoredPlan → ℕ
grants_none r = 0

abbrev Keeps : ℕ → Turn → Turn × Result ErrorCode StoredPlan → Type 0
Keeps invocation turn out = Refines invocation turn out.0 (grants_none out.1)

pub may_plan-generating :
    (request : CommitPlanRequest) (row : InboundRow)
    → may_plan request row ≡ ok tt
    → is_generating row.state ≡ true
unfolding may_plan
may_plan-generating request row h =
    guard-ok (is_generating row.state) conflict
      (then-ok (guard (is_generating row.state) conflict) _ h).0

effects_turn-Refines :
    (invocation : ℕ) (env : CommitEnv) (request : CommitPlanRequest) (row : InboundRow)
    (ids : List ℕ) (turn : Turn)
    → turn.row ≡ some row
    → is_generating row.state ≡ true
    → IsSound turn
    → Refines invocation turn (effects_turn env request row ids turn) 0
unfolding ledger_of
effects_turn-Refines invocation env request row ids turn e g s = record {
  sound = ground arith;
  allowed =
      plans row.generation_attempts
        (load_plan none invocation
          (planned_row TurnState.succeeded request.config_version env.now row)
          (effects_turn env request row ids turn))
        (ground arith) (ground arith);
  paid = ground arith;
}

reply_turn-Refines :
    (invocation : ℕ) (env : CommitEnv) (request : CommitPlanRequest) (row : InboundRow)
    (ids : NewIds) (turn : Turn)
    → turn.row ≡ some row
    → is_generating row.state ≡ true
    → has_plan row turn.reply ≡ false
    → IsSound turn
    → Refines invocation turn (reply_turn env request row ids turn) 0
unfolding ledger_of
reply_turn-Refines invocation env request row ids turn e g p s = record {
  sound = ground arith;
  allowed =
      plans row.generation_attempts
        (load_plan none invocation
          (planned_row TurnState.response_planned request.config_version env.now row)
          (reply_turn env request row ids turn))
        (ground arith) (ground arith);
  paid = ground arith;
}

plan_effects_only-Refines :
    (invocation : ℕ) (env : CommitEnv) (request : CommitPlanRequest) (row : InboundRow)
    (turn : Turn)
    → turn.row ≡ some row
    → is_generating row.state ≡ true
    → IsSound turn
    → Keeps invocation turn (plan_effects_only env request row turn)
unfolding plan_effects_only
plan_effects_only-Refines invocation env request row turn e g s =
    attempt_intro (Keeps invocation turn) (insert_effects env 0 request.effects) turn _
      (λ code. Refines-refl invocation turn s)
      (λ ids _.
        write-Refines grants_none invocation env.write_io _ turn _ (λ code. refl) s
          (effects_turn-Refines invocation env request row ids turn e g s))

plan_reply-Refines :
    (invocation : ℕ) (env : CommitEnv) (request : CommitPlanRequest) (row : InboundRow)
    (turn : Turn)
    → turn.row ≡ some row
    → is_generating row.state ≡ true
    → has_plan row turn.reply ≡ false
    → IsSound turn
    → Keeps invocation turn (plan_reply env request row turn)
unfolding plan_reply
plan_reply-Refines invocation env request row turn e g p s =
    attempt_intro (Keeps invocation turn) (reply_ids env request row) turn _
      (λ code. Refines-refl invocation turn s)
      (λ ids _.
        write-Refines grants_none invocation env.write_io _ turn _ (λ code. refl) s
          (reply_turn-Refines invocation env request row ids turn e g p s))

plan_row-Refines :
    (invocation : ℕ) (env : CommitEnv) (request : CommitPlanRequest) (row : InboundRow)
    (turn : Turn)
    → turn.row ≡ some row
    → has_plan row turn.reply ≡ false
    → IsSound turn
    → Keeps invocation turn (plan_row env request row turn)
unfolding plan_row
plan_row-Refines invocation env request row turn e p s =
    attempt_intro (Keeps invocation turn) (may_plan request row) turn _
      (λ code. Refines-refl invocation turn s)
      (λ _ h.
        let g = may_plan-generating request row h in
        if_intro (Keeps invocation turn) (is_empty request.response_text) _ _
          (λ _. plan_effects_only-Refines invocation env request row turn e g s)
          (λ _. plan_reply-Refines invocation env request row turn e g p s))

commit_found-Refines :
    (invocation : ℕ) (env : CommitEnv) (request : CommitPlanRequest) (turn : Turn)
    (found : Option InboundRow)
    → turn.row ≡ found
    → IsSound turn
    → Keeps invocation turn (commit_found env request turn found)
unfolding commit_found
commit_found-Refines invocation env request turn none e s = Refines-refl invocation turn s
commit_found-Refines invocation env request turn (some row) e s =
    if_intro (Keeps invocation turn) (has_plan row turn.reply) _ _
      (λ _. Refines-refl invocation turn s)
      (λ p. plan_row-Refines invocation env request row turn e p s)

-- A commit keeps the rows sound and moves the ledger as it allows.
pub commit_plan-Refines :
    (invocation : ℕ) (env : CommitEnv) (request : CommitPlanRequest) (turn : Turn)
    → IsSound turn
    → Refines invocation turn (commit_plan env request turn).0 0
unfolding commit_plan
commit_plan-Refines invocation env request turn s =
    attempt_intro (Keeps invocation turn) (require_id request.key (complete_request request)) turn _
      (λ code. Refines-refl invocation turn s)
      (λ _ _.
        attempt_intro (Keeps invocation turn) (read_row env.reads turn) turn _
          (λ code. Refines-refl invocation turn s)
          (λ found e.
            commit_found-Refines invocation env request turn found
              (read_row-ok env.reads turn found e) s))

-- The states that updateTurnDelivery writes, from the action outbox.
abbrev pub is_delivery : TurnState → Bool
is_delivery TurnState.delivery_pending = true
is_delivery TurnState.succeeded = true
is_delivery TurnState.failed_terminal = true
is_delivery TurnState.unknown_outcome = true
is_delivery _ = false

-- What the action outbox writes to a turn with a reply.
abbrev pub deliver : TurnState → Row.Row → DeliveryStatus → InboundRow → ReplyRow → Turn → Turn
deliver state action delivery row reply turn = record turn {
  row = some (record row { state = some state });
  reply = some (record reply { action = action; delivery = delivery });
}

pub deliver-Refines :
    (invocation : ℕ) (state : TurnState) (action : Row.Row) (delivery : DeliveryStatus)
    (row : InboundRow) (reply : ReplyRow) (turn : Turn)
    → turn.row ≡ some row
    → turn.reply ≡ some reply
    → is_delivery state ≡ true
    → IsSound turn
    → Refines invocation turn (deliver state action delivery row reply turn) 0
unfolding ledger_of
deliver-Refines invocation state action delivery row reply turn e f d s = record {
  sound = ground arith;
  allowed = stays (ground arith);
  paid = ground arith;
}
