-- ===== src/Agent/Turns/Ledger/Retries.antt =====
-- Retrying a turn comes to an end: the claims of a turn that gets no plan close it.
use wazzap_agent_go.Prelude.{
  ℕ, zero, suc, ◌+◌, ◌≡◌, refl, ap, ◌∙◌, true, false, not, ◌&&◌, leb, if◌then◌else◌, Option, none,
  some, Result, ok, arith,
}
use wazzap_agent_go.Errors.{ErrorCode}
use wazzap_agent_go.Turn.{TurnState, generating, failed_retryable}
use wazzap_agent_go.Policy.Principal.{is_zero}
use wazzap_agent_go.Outbox.Row.{fine}
use wazzap_agent_go.Agent.Turns.Row.{InboundRow, Turn, has_plan, require_id, read_row}
use wazzap_agent_go.Agent.Turns.Claim.{
  ClaimEnv, ClaimRequest, TurnClaim, claim, claim_found, claim_row, claim_unplanned, renew,
}
use wazzap_agent_go.Agent.Turns.Ledger.{
  Ledger, attempting, closed, ledger_of, row_ledger, is_undecided,
}

-- The request is complete, and the database answers.
abbrev pub Works : ClaimEnv → ClaimRequest → Type 0
Works env request =
    (require_id request.key (not (is_zero request.invocation.id) && not (is_zero request.now))
      ≡ ok tt)
    × (env.reads.read_error ≡ none)
    × (env.write_io ≡ fine)

claim-claim_found :
    (env : ClaimEnv) (request : ClaimRequest) (turn : Turn)
    → Works env request
    → claim env request turn ≡ claim_found env request turn turn.row
unfolding claim read_row
claim-claim_found env request turn w = rw (w.0, w.1) refl

abbrev after_claim : ℕ → Ledger
after_claim n = if leb 3 n then closed else attempting (n + 1)

renew-ledger :
    (invocation : ℕ) (env : ClaimEnv) (request : ClaimRequest) (row : InboundRow) (turn : Turn)
    → env.write_io ≡ fine
    → has_plan row turn.reply ≡ false
    → row.claimed ≡ true
    → ledger_of invocation (renew env request row turn).0 ≡ after_claim row.generation_attempts
unfolding renew ledger_of row_ledger
renew-ledger invocation env request row turn f p c = ground arith

claim_unplanned-ledger :
    (state : Option TurnState) (invocation : ℕ) (env : ClaimEnv) (request : ClaimRequest)
    (row : InboundRow) (turn : Turn)
    → is_undecided state ≡ true
    → env.write_io ≡ fine
    → has_plan row turn.reply ≡ false
    → row.claimed ≡ true
    → ledger_of invocation (claim_unplanned state env request row turn).0
      ≡ after_claim row.generation_attempts
unfolding claim_unplanned
claim_unplanned-ledger (some generating) invocation env request row turn u f p c =
    renew-ledger invocation env request row turn f p c
claim_unplanned-ledger (some failed_retryable) invocation env request row turn u f p c =
    renew-ledger invocation env request row turn f p c
claim_unplanned-ledger _ invocation env request row turn u f p c = absurd (ground arith)

attempting_facts :
    (invocation n : ℕ) (row : InboundRow) (turn : Turn)
    → turn.row ≡ some row
    → ledger_of invocation turn ≡ attempting n
    → (row.claimed ≡ true)
      × (has_plan row turn.reply ≡ false)
      × (is_undecided row.state ≡ true)
      × (row.generation_attempts ≡ n)
unfolding ledger_of row_ledger
attempting_facts invocation n row turn e h = ground arith

claim_row-claim_unplanned :
    (env : ClaimEnv) (request : ClaimRequest) (row : InboundRow) (turn : Turn)
    → row.claimed ≡ true
    → has_plan row turn.reply ≡ false
    → claim_row env request row turn ≡ claim_unplanned row.state env request row turn
unfolding claim_row
claim_row-claim_unplanned env request row turn c p = ground arith

claim_found-ledger :
    (invocation n : ℕ) (env : ClaimEnv) (request : ClaimRequest) (turn : Turn)
    (found : Option InboundRow)
    → turn.row ≡ found
    → env.write_io ≡ fine
    → ledger_of invocation turn ≡ attempting n
    → ledger_of invocation (claim_found env request turn found).0 ≡ after_claim n
unfolding claim_found ledger_of
claim_found-ledger invocation n env request turn none e f h = absurd (ground arith)
claim_found-ledger invocation n env request turn (some row) e f h =
    let (c, p, u, a) = attempting_facts invocation n row turn e h in
    ap (λ (out : Turn × Result ErrorCode TurnClaim). ledger_of invocation out.0)
      (claim_row-claim_unplanned env request row turn c p)
    ∙ claim_unplanned-ledger row.state invocation env request row turn u f p c
    ∙ ap after_claim a

-- A claim that works counts one more attempt, or closes a turn that had three.
claim-ledger :
    (invocation n : ℕ) (env : ClaimEnv) (request : ClaimRequest) (turn : Turn)
    → Works env request
    → ledger_of invocation turn ≡ attempting n
    → ledger_of invocation (claim env request turn).0 ≡ after_claim n
claim-ledger invocation n env request turn w h =
    ap (λ (out : Turn × Result ErrorCode TurnClaim). ledger_of invocation out.0)
      (claim-claim_found env request turn w)
    ∙ claim_found-ledger invocation n env request turn turn.row refl w.2 h

-- The turn is claimed again and again, and gets no plan.
unfoldable pub retry : ℕ → ClaimEnv → ClaimRequest → Turn → Turn
unfolding claim
retry zero env request turn = turn
retry (suc k) env request turn = retry k env request (claim env request turn).0

-- Of a turn that was tried `n` times, `4 - n` more claims that work leave it closed.
pub retry-closed :
    (k invocation n : ℕ) (env : ClaimEnv) (request : ClaimRequest) (turn : Turn)
    → Works env request
    → ledger_of invocation turn ≡ attempting n
    → n + suc k ≡ 4
    → ledger_of invocation (retry (suc k) env request turn) ≡ closed
unfolding retry
retry-closed zero invocation n env request turn w h e =
    ground (arith, claim-ledger invocation n env request turn w h)
retry-closed (suc k) invocation n env request turn w h e =
    retry-closed k invocation (n + 1) env request (claim env request turn).0 w
      (ground (arith, claim-ledger invocation n env request turn w h)) (omega arith)
