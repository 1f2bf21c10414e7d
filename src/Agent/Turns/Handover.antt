-- ===== src/Agent/Turns/Handover.antt =====
-- From the turn to its readers: Load gives the committed plan, and the action outbox starts from it.
use wazzap_agent_go.Prelude.{
  ℕ, ◌≤◌, ◌≡◌, true, if_intro, Option, none, some, Result, ok, err, arith, guard, then-ok, bind-ok,
  List, ok_injective, ap, sym, ◌∙◌, not,
}
use wazzap_agent_go.Errors.{ErrorCode, not_found}
use wazzap_agent_go.Strings.{is_empty}
use wazzap_agent_go.Policy.Principal.{Key, is_zero}
use wazzap_agent_go.Outbox.Once.{IsPlanned, System, Reach, start_system}
use wazzap_agent_go.Outbox.Action.{Reply}
use wazzap_agent_go.Outbox.Action.Claim.{action_machine, send_once}
use wazzap_agent_go.Outbox.Action.Views.{Agrees, views_agree}
use wazzap_agent_go.Agent.Turns.Row.{
  StoredId, InboundRow, Turn, StoredPlan, TurnRecord, Reads, load, load_row, load_found, read_row,
  read_row-ok, has_plan, load_plan, load_effects, require_id, attempt_intro, row_plan,
  optional_plan, parse_id,
}
use wazzap_agent_go.Agent.Turns.Commit.{
  CommitEnv, CommitPlanRequest, commit_plan, commit_found, plan_row, plan_effects_only, plan_reply,
  may_plan, complete_request, reply_ids, insert_effects,
}
use wazzap_agent_go.Agent.Turns.Ledger.{planned, ledger_of, row_ledger}

-- The rows that the action outbox works on, of a turn with a reply.
unfoldable pub outbox_of : Turn → Option Reply
outbox_of turn = elim turn.row [
  | none ↦ none
  | some row ↦ elim row.state [
    | none ↦ none
    | some state ↦ elim turn.reply [
      | none ↦ none
      | some reply ↦ some (record {
        world = record { row = reply.action; sent = 0 };
        turn = state;
        delivery = reply.delivery;
      })
    ]
  ]
]

-- A new reply is a planned row whose turn and history entry agree with it.
abbrev HandsOver : StoredPlan → Reply → Turn × Result ErrorCode StoredPlan → Type 0
HandsOver plan r out = out.1 ≡ ok plan → outbox_of out.0 ≡ some r → IsPlanned r.world × Agrees r

err-HandsOver :
    (plan : StoredPlan) (r : Reply) (turn : Turn) (code : ErrorCode)
    → HandsOver plan r (turn, err code)
err-HandsOver plan r turn code e f = absurd (ground arith)

plan_effects_only-HandsOver :
    (env : CommitEnv) (request : CommitPlanRequest) (row : InboundRow) (turn : Turn)
    (plan : StoredPlan) (r : Reply)
    → turn.reply ≡ none
    → HandsOver plan r (plan_effects_only env request row turn)
unfolding plan_effects_only outbox_of
plan_effects_only-HandsOver env request row turn plan r n =
    attempt_intro (HandsOver plan r) (insert_effects env 0 request.effects) turn _
      (err-HandsOver plan r turn) (λ ids _ e f. absurd (ground arith))

plan_reply-HandsOver :
    (env : CommitEnv) (request : CommitPlanRequest) (row : InboundRow) (turn : Turn)
    (plan : StoredPlan) (r : Reply)
    → turn.reply ≡ none
    → HandsOver plan r (plan_reply env request row turn)
unfolding plan_reply outbox_of
plan_reply-HandsOver env request row turn plan r n =
    attempt_intro (HandsOver plan r) (reply_ids env request row) turn _ (err-HandsOver plan r turn)
      (λ ids _ e f. ground arith)

plan_row-HandsOver :
    (env : CommitEnv) (request : CommitPlanRequest) (row : InboundRow) (turn : Turn)
    (plan : StoredPlan) (r : Reply)
    → turn.reply ≡ none
    → HandsOver plan r (plan_row env request row turn)
unfolding plan_row
plan_row-HandsOver env request row turn plan r n =
    attempt_intro (HandsOver plan r) (may_plan request row) turn _ (err-HandsOver plan r turn)
      (λ _ _.
        if_intro (HandsOver plan r) (is_empty request.response_text) _ _
          (λ _. plan_effects_only-HandsOver env request row turn plan r n)
          (λ _. plan_reply-HandsOver env request row turn plan r n))

commit_found-HandsOver :
    (env : CommitEnv) (request : CommitPlanRequest) (turn : Turn) (found : Option InboundRow)
    (plan : StoredPlan) (r : Reply)
    → turn.reply ≡ none
    → HandsOver plan r (commit_found env request turn found)
unfolding commit_found outbox_of
commit_found-HandsOver env request turn none plan r n = λ e f. absurd (ground arith)
commit_found-HandsOver env request turn (some row) plan r n =
    if_intro (HandsOver plan r) (has_plan row turn.reply) _ _ (λ _ e f. absurd (ground arith))
      (λ _. plan_row-HandsOver env request row turn plan r n)

commit_plan-HandsOver :
    (env : CommitEnv) (request : CommitPlanRequest) (turn : Turn) (plan : StoredPlan) (r : Reply)
    → turn.reply ≡ none
    → HandsOver plan r (commit_plan env request turn)
unfolding commit_plan
commit_plan-HandsOver env request turn plan r n =
    attempt_intro (HandsOver plan r) (require_id request.key (complete_request request)) turn _
      (err-HandsOver plan r turn)
      (λ _ _.
        attempt_intro (HandsOver plan r) (read_row env.reads turn) turn _
          (err-HandsOver plan r turn)
          (λ found _. commit_found-HandsOver env request turn found plan r n))

-- A reply that CommitPlan planned on a turn without one is handed to the text sender at most once,
-- and the turn's state and the history entry stay those of its row, whatever calls of Dispatch
-- interleave on it, whatever the environment answers and whenever the process restarts.
pub commit_plan-sent_once :
    (env : CommitEnv) (request : CommitPlanRequest) (turn : Turn) (plan : StoredPlan) (r : Reply)
    (t : System action_machine)
    → turn.reply ≡ none
    → (commit_plan env request turn).1 ≡ ok plan
    → outbox_of (commit_plan env request turn).0 ≡ some r
    → Reach action_machine (start_system action_machine r) t
    → (t.store.world.sent ≤ 1) × Agrees t.store
commit_plan-sent_once env request turn plan r t n e f reach =
    let (fresh, agrees) = commit_plan-HandsOver env request turn plan r n e f in
    (send_once r t fresh reach, views_agree r t agrees reach)

load_effects-none :
    (error : Option ErrorCode) (stored : List StoredId) (ids : List ℕ)
    → load_effects error stored ≡ ok ids
    → load_effects none stored ≡ ok ids
unfolding load_effects
load_effects-none none stored ids h = h
load_effects-none (some code) stored ids h = absurd (ground arith)

load_plan-none :
    (error : Option ErrorCode) (invocation : ℕ) (row : InboundRow) (turn : Turn) (plan : StoredPlan)
    → load_plan error invocation row turn ≡ ok plan
    → load_plan none invocation row turn ≡ ok plan
load_plan-none error invocation row turn plan h =
    let (head, e, rest) = bind-ok (row_plan invocation row turn.reply) _ h in
    let (effects, f, last) = bind-ok (load_effects error turn.effects) _ rest in
    rw (e, load_effects-none error turn.effects effects f) last

optional_plan-planned :
    (error : Option ErrorCode) (invocation : ℕ) (row : InboundRow) (turn : Turn) (plan : StoredPlan)
    (found : Option StoredPlan)
    → turn.row ≡ some row
    → ledger_of invocation turn ≡ planned (ok plan)
    → optional_plan error invocation row turn ≡ ok found
    → found ≡ some plan
unfolding ledger_of row_ledger
optional_plan-planned error invocation row turn plan found e h o =
    let p : has_plan row turn.reply ≡ true = ground arith in
    let (stored, f, last) =
      bind-ok (load_plan error invocation row turn) (λ (q : StoredPlan). ok (some q)) (rw p at o) in
    let g = load_plan-none error invocation row turn stored f in ground arith

load_found-planned :
    (reads : Reads) (invocation : ℕ) (turn : Turn) (plan : StoredPlan) (loaded : TurnRecord)
    (found : Option InboundRow)
    → turn.row ≡ found
    → ledger_of invocation turn ≡ planned (ok plan)
    → load_found reads invocation turn found ≡ ok loaded
    → loaded.plan ≡ some plan
unfolding load_found load_row
load_found-planned reads invocation turn plan loaded none e h l = absurd (ground arith)
load_found-planned reads invocation turn plan loaded (some row) e h l =
    let (_, r1) = then-ok (guard row.claimed not_found) _ l in
    let (id, _, r2) = bind-ok (parse_id row.message_id) _ r1 in
    let (found, f, last) = bind-ok (optional_plan reads.refs_error invocation row turn) _ r2 in
    ap TurnRecord.plan (sym (ok_injective last))
    ∙ optional_plan-planned reads.refs_error invocation row turn plan found e h f

-- Rows that hold a plan are loaded with that plan, if they are loaded.
pub load-planned :
    (reads : Reads) (key : Key) (invocation : ℕ) (turn : Turn) (plan : StoredPlan)
    (loaded : TurnRecord)
    → ledger_of invocation turn ≡ planned (ok plan)
    → load reads key invocation turn ≡ ok loaded
    → loaded.plan ≡ some plan
unfolding load
load-planned reads key invocation turn plan loaded h e =
    let (_, r1) = then-ok (require_id key (not (is_zero invocation))) _ e in
    let (found, f, r2) = bind-ok (read_row reads turn) _ r1 in
    load_found-planned reads invocation turn plan loaded found (read_row-ok reads turn found f) h r2
