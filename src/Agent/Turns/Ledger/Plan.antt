-- ===== src/Agent/Turns/Ledger/Plan.antt =====
-- A plan that CommitPlan reported is the one that the rows hold.
use wazzap_agent_go.Prelude.{
  ℕ, ◌≡◌, refl, true, false, if_intro, List, [], ◌∷◌, Option, none, some, Result, ok, err, arith,
  guard, then-ok, bind-ok,
}
use wazzap_agent_go.Errors.{ErrorCode, conflict, not_found}
use wazzap_agent_go.Strings.{is_empty}
use wazzap_agent_go.Outbox.Row.{Io, fine, failed}
use wazzap_agent_go.Agent.Turns.Row.{
  StoredId, InboundRow, Turn, StoredPlan, is_generating, has_plan, load_plan, load_effects,
  row_plan, require_id, attempt_intro, read_row, read_row-ok, write, parse_reply_to,
}
use wazzap_agent_go.Agent.Turns.Commit.{
  CommitEnv, CommitPlanRequest, NewIds, commit_plan, commit_found, plan_row, plan_effects_only,
  plan_reply, effects_turn, reply_turn, may_plan, complete_request, reply_ids, insert_effects,
  replay_commit, some_ids, nullable_id, new_plan,
}
use wazzap_agent_go.Agent.Turns.Ledger.{planned, ledger_of, row_ledger, IsSound}
use wazzap_agent_go.Agent.Turns.Ledger.Commits.{may_plan-generating}

load_effects-some_ids : (ids : List ℕ) → load_effects none (some_ids ids) ≡ ok ids
unfolding load_effects
load_effects-some_ids [] = refl
load_effects-some_ids (id ∷ ids) = rw (load_effects-some_ids ids) refl

parse_reply_to-nullable_id : (id : ℕ) → parse_reply_to (nullable_id id) ≡ ok id
parse_reply_to-nullable_id id = ground arith

-- If the operation reported the plan, the rows it leaves hold it.
abbrev Holds : ℕ → StoredPlan → Turn × Result ErrorCode StoredPlan → Type 0
Holds invocation plan out = out.1 ≡ ok plan → ledger_of invocation out.0 ≡ planned (ok plan)

write-Holds :
    (invocation : ℕ) (plan stored : StoredPlan) (io : Io) (after before : Turn)
    → ledger_of invocation after ≡ planned (ok stored)
    → Holds invocation plan (write io after before (ok stored))
write-Holds invocation plan stored fine after before h e = ground arith
write-Holds invocation plan stored (failed _ code) after before h e = absurd (ground arith)

-- A sound turn that is generating without a plan has no reply and no effects.
generating_facts :
    (row : InboundRow) (turn : Turn)
    → turn.row ≡ some row
    → is_generating row.state ≡ true
    → has_plan row turn.reply ≡ false
    → IsSound turn
    → (row.claimed ≡ true) × (turn.effects ≡ []) × (turn.reply ≡ none)
generating_facts row turn e g p s = ground arith

effects_turn-planned :
    (env : CommitEnv) (request : CommitPlanRequest) (row : InboundRow) (ids : List ℕ) (turn : Turn)
    → turn.row ≡ some row
    → is_generating row.state ≡ true
    → has_plan row turn.reply ≡ false
    → IsSound turn
    → ledger_of request.invocation_id (effects_turn env request row ids turn)
      ≡ planned (ok (record (new_plan env request 0 0 ids) { reply_to_message_id = 0; text = [] }))
unfolding ledger_of row_ledger row_plan
effects_turn-planned env request row ids turn e g p s =
    let (c, f, n) = generating_facts row turn e g p s in ground (arith, load_effects-some_ids ids)

reply_turn-planned :
    (env : CommitEnv) (request : CommitPlanRequest) (row : InboundRow) (ids : NewIds) (turn : Turn)
    → turn.row ≡ some row
    → is_generating row.state ≡ true
    → has_plan row turn.reply ≡ false
    → IsSound turn
    → ledger_of request.invocation_id (reply_turn env request row ids turn)
      ≡ planned (ok (new_plan env request ids.response ids.action ids.effects))
unfolding ledger_of row_ledger row_plan
reply_turn-planned env request row ids turn e g p s =
    let (c, f, n) = generating_facts row turn e g p s in
    ground (
      arith,
      load_effects-some_ids ids.effects,
      parse_reply_to-nullable_id request.reply_to_message_id,
    )

err-Holds :
    (invocation : ℕ) (plan : StoredPlan) (turn : Turn) (code : ErrorCode)
    → Holds invocation plan (turn, err code)
err-Holds invocation plan turn code e = absurd (ground arith)

plan_effects_only-Holds :
    (env : CommitEnv) (request : CommitPlanRequest) (row : InboundRow) (turn : Turn)
    (plan : StoredPlan)
    → turn.row ≡ some row
    → is_generating row.state ≡ true
    → has_plan row turn.reply ≡ false
    → IsSound turn
    → Holds request.invocation_id plan (plan_effects_only env request row turn)
unfolding plan_effects_only
plan_effects_only-Holds env request row turn plan e g p s =
    attempt_intro (Holds request.invocation_id plan) (insert_effects env 0 request.effects) turn _
      (err-Holds request.invocation_id plan turn)
      (λ ids _.
        write-Holds request.invocation_id plan _ env.write_io _ turn
          (effects_turn-planned env request row ids turn e g p s))

plan_reply-Holds :
    (env : CommitEnv) (request : CommitPlanRequest) (row : InboundRow) (turn : Turn)
    (plan : StoredPlan)
    → turn.row ≡ some row
    → is_generating row.state ≡ true
    → has_plan row turn.reply ≡ false
    → IsSound turn
    → Holds request.invocation_id plan (plan_reply env request row turn)
unfolding plan_reply
plan_reply-Holds env request row turn plan e g p s =
    attempt_intro (Holds request.invocation_id plan) (reply_ids env request row) turn _
      (err-Holds request.invocation_id plan turn)
      (λ ids _.
        write-Holds request.invocation_id plan _ env.write_io _ turn
          (reply_turn-planned env request row ids turn e g p s))

plan_row-Holds :
    (env : CommitEnv) (request : CommitPlanRequest) (row : InboundRow) (turn : Turn)
    (plan : StoredPlan)
    → turn.row ≡ some row
    → has_plan row turn.reply ≡ false
    → IsSound turn
    → Holds request.invocation_id plan (plan_row env request row turn)
unfolding plan_row
plan_row-Holds env request row turn plan e p s =
    attempt_intro (Holds request.invocation_id plan) (may_plan request row) turn _
      (err-Holds request.invocation_id plan turn)
      (λ _ h.
        let g = may_plan-generating request row h in
        if_intro (Holds request.invocation_id plan) (is_empty request.response_text) _ _
          (λ _. plan_effects_only-Holds env request row turn plan e g p s)
          (λ _. plan_reply-Holds env request row turn plan e g p s))

load_effects-none :
    (error : Option ErrorCode) (stored : List StoredId) (ids : List ℕ)
    → load_effects error stored ≡ ok ids
    → (error ≡ none) × (load_effects none stored ≡ ok ids)
unfolding load_effects
load_effects-none none stored ids h = (refl, h)
load_effects-none (some code) stored ids h = absurd (ground arith)

rows_hold :
    (row : InboundRow) (turn : Turn) (invocation : ℕ) (plan : StoredPlan)
    → turn.row ≡ some row
    → has_plan row turn.reply ≡ true
    → IsSound turn
    → load_plan none invocation row turn ≡ ok plan
    → ledger_of invocation turn ≡ planned (ok plan)
unfolding ledger_of row_ledger
rows_hold row turn invocation plan e p s h = ground arith

-- A replayed plan is what the rows decode to.
replay_commit-load :
    (env : CommitEnv) (request : CommitPlanRequest) (row : InboundRow) (turn : Turn)
    (plan : StoredPlan)
    → replay_commit env request row turn ≡ ok plan
    → load_plan none request.invocation_id row turn ≡ ok plan
unfolding replay_commit
replay_commit-load env request row turn plan h =
    let (head, e, rest) = bind-ok (row_plan request.invocation_id row turn.reply) _ h in
    let (_, tail) = then-ok (guard _ conflict) _ rest in
    let (effects, f, last) = bind-ok (load_effects env.reads.refs_error turn.effects) _ tail in
    let (_, no_failure) = load_effects-none env.reads.refs_error turn.effects effects f in
    rw (e, no_failure) last

commit_found-Holds :
    (env : CommitEnv) (request : CommitPlanRequest) (turn : Turn) (plan : StoredPlan)
    (found : Option InboundRow)
    → turn.row ≡ found
    → IsSound turn
    → Holds request.invocation_id plan (commit_found env request turn found)
unfolding commit_found
commit_found-Holds env request turn plan none e s =
    err-Holds request.invocation_id plan turn not_found
commit_found-Holds env request turn plan (some row) e s =
    if_intro (Holds request.invocation_id plan) (has_plan row turn.reply) _ _
      (λ p h.
        rows_hold row turn request.invocation_id plan e p s
          (replay_commit-load env request row turn plan h))
      (λ p. plan_row-Holds env request row turn plan e p s)

-- Whenever CommitPlan gives a plan, whether it stored it or found it, that plan is what the rows it
-- leaves decode to.
pub commit_plan-ok-planned :
    (env : CommitEnv) (request : CommitPlanRequest) (turn : Turn) (plan : StoredPlan)
    → IsSound turn
    → (commit_plan env request turn).1 ≡ ok plan
    → ledger_of request.invocation_id (commit_plan env request turn).0 ≡ planned (ok plan)
unfolding commit_plan
commit_plan-ok-planned env request turn plan s =
    attempt_intro (Holds request.invocation_id plan)
      (require_id request.key (complete_request request)) turn _
      (err-Holds request.invocation_id plan turn)
      (λ _ _.
        attempt_intro (Holds request.invocation_id plan) (read_row env.reads turn) turn _
          (err-Holds request.invocation_id plan turn)
          (λ found e.
            commit_found-Holds env request turn plan found (read_row-ok env.reads turn found e) s))
