-- ===== src/Agent/Turns/Ledger/Claims.antt =====
-- Claims and failures keep the ledger.
use wazzap_agent_go.Prelude.{
  ℕ, ◌<◌, ◌≡◌, refl, inl, inr, Bool, true, false, Bool-cases, leb, not, if_intro, option_intro,
  result_intro, Option, none, some, Result, ok, err, arith, Result-cases,
}
use wazzap_agent_go.Errors.{ErrorCode}
use wazzap_agent_go.Policy.Principal.{is_zero}
use wazzap_agent_go.Turn.{TurnState, generating, failed_retryable}
use wazzap_agent_go.Outbox.Row.{Io, fine, failed, conditional_update}
use wazzap_agent_go.Agent.Turns.Row.{
  InboundRow, Turn, parse_id, is_generating, has_plan, write, load_plan, require_id, attempt_intro,
  read_row, read_row-ok,
}
use wazzap_agent_go.Agent.Turns.Claim.{
  ClaimEnv, ClaimRequest, TurnClaim, claim, claim_found, first_claim, claim_row, claim_received,
  claim_unplanned, renew, replayed, parsed_claim, generating_again, set_row, exhausted,
  matches_preclaimed_inbound, failed_turn, failed_row, row_state, FailGenerationRequest,
  fail_generation, inserted_row,
}
use wazzap_agent_go.Agent.Turns.Ledger.{
  ledger_of, begins, retries, gives_up, stays, IsSound, Refines, Refines-refl, granted_none,
  is_undecided,
}

-- A claim that answers without a plan lets its caller ask the model.
abbrev pub granted_of : Result ErrorCode TurnClaim → ℕ
granted_of (ok c) = elim c.plan [ none ↦ 1 | some _ ↦ 0 ]
granted_of (err _) = 0

module _ {ℓ} {A : Type ℓ} (granted : Result ErrorCode A → ℕ) where
  -- A write that may fail, applied or not, refines when the write that succeeds does.
  pub write-Refines :
      (invocation : ℕ) (io : Io) (after before : Turn) (answer : Result ErrorCode A)
      → ((code : ErrorCode) → granted (err code) ≡ 0)
      → IsSound before
      → Refines invocation before after (granted answer)
      → Refines invocation before
          (write io after before answer).0
          (granted (write io after before answer).1)
  write-Refines invocation fine after before answer none_failed s r = r
  write-Refines invocation (failed true code) after before answer none_failed s r =
      rw (none_failed code) (granted_none r)
  write-Refines invocation (failed false code) after before answer none_failed s r =
      rw (none_failed code) (Refines-refl invocation before s)

-- What a claim gives back refines the turn before.
abbrev Keeps : ℕ → Turn → Turn × Result ErrorCode TurnClaim → Type 0
Keeps invocation turn out = Refines invocation turn out.0 (granted_of out.1)

err_grants_none : (code : ErrorCode) → granted_of (err code) ≡ 0
err_grants_none code = refl

inserted-Refines :
    (invocation : ℕ) (request : ClaimRequest) (id : ℕ) (turn : Turn)
    → turn.row ≡ none
    → IsSound turn
    → Refines invocation turn (set_row (inserted_row request id) turn) 1
unfolding inserted_row ledger_of
inserted-Refines invocation request id turn e s = record {
  sound = ground arith;
  allowed = begins (rw e refl) (ground arith);
  paid = ground arith;
}

first_claim-Refines :
    (invocation : ℕ) (env : ClaimEnv) (request : ClaimRequest) (turn : Turn)
    → turn.row ≡ none
    → IsSound turn
    → Refines invocation turn
        (first_claim env request turn).0
        (granted_of (first_claim env request turn).1)
unfolding first_claim
first_claim-Refines invocation env request turn e s =
    attempt_intro (Keeps invocation turn) env.new_message_id turn _
      (λ code. Refines-refl invocation turn s)
      (λ id e'.
        write-Refines granted_of invocation env.write_io _ turn _ err_grants_none s
          (inserted-Refines invocation request id turn e s))

-- The claim of a row answers with a permission only if its message identifier is one.
parsed-Refines :
    (invocation : ℕ) (row : InboundRow) (before after : Turn)
    → Refines invocation before after 1
    → Refines invocation before after (granted_of (parsed_claim row))
parsed-Refines invocation row before after r = elim (Result-cases (parse_id row.message_id)) [
  | inl (id, e) ↦ rw e r
  | inr (code, e) ↦ rw e (granted_none r)
]

received-Refines :
    (invocation : ℕ) (request : ClaimRequest) (row : InboundRow) (turn : Turn)
    → turn.row ≡ some row
    → row.claimed ≡ false
    → IsSound turn
    → Refines invocation turn (set_row (generating_again request row) turn) 1
unfolding ledger_of
received-Refines invocation request row turn e c s = record {
  sound = ground arith;
  allowed = begins (ground arith) (ground arith);
  paid = ground arith;
}

-- A claimed row that has no plan and is undecided.
abbrev IsOpen : InboundRow → Turn → Type 0
IsOpen row turn =
    (turn.row ≡ some row)
    × (row.claimed ≡ true)
    × (has_plan row turn.reply ≡ false)
    × (is_undecided row.state ≡ true)

renewed-Refines :
    (invocation : ℕ) (request : ClaimRequest) (row : InboundRow) (turn : Turn)
    → IsOpen row turn
    → row.generation_attempts < 3
    → IsSound turn
    → Refines invocation turn
        (set_row (record (generating_again request row) { last_error = none }) turn)
        1
unfolding ledger_of
renewed-Refines invocation request row turn o few s = record {
  sound = ground arith;
  allowed = retries row.generation_attempts few (ground arith) (ground arith);
  paid = ground arith;
}

exhausted-Refines :
    (invocation : ℕ) (request : ClaimRequest) (row : InboundRow) (turn : Turn)
    → IsOpen row turn
    → IsSound turn
    → Refines invocation turn (set_row (exhausted request row) turn) 0
unfolding ledger_of
exhausted-Refines invocation request row turn o s = record {
  sound = ground arith;
  allowed = gives_up row.generation_attempts (ground arith) (ground arith);
  paid = ground arith;
}

renew-Refines :
    (invocation : ℕ) (env : ClaimEnv) (request : ClaimRequest) (row : InboundRow) (turn : Turn)
    → IsOpen row turn
    → IsSound turn
    → Refines invocation turn
        (renew env request row turn).0
        (granted_of (renew env request row turn).1)
unfolding renew
renew-Refines invocation env request row turn o s =
    elim (Bool-cases (leb 3 row.generation_attempts)) [
      | inl used_up ↦ rw used_up (
          write-Refines granted_of invocation env.write_io _ turn _ err_grants_none s
            (exhausted-Refines invocation request row turn o s))
      | inr left ↦ rw left (
          write-Refines granted_of invocation env.write_io _ turn _ err_grants_none s (
            parsed-Refines invocation row turn _
              (renewed-Refines invocation request row turn o (ground arith) s)))
    ]

unplanned-Refines :
    (state : Option TurnState) (invocation : ℕ) (env : ClaimEnv) (request : ClaimRequest)
    (row : InboundRow) (turn : Turn)
    → row.state ≡ state
    → turn.row ≡ some row
    → row.claimed ≡ true
    → has_plan row turn.reply ≡ false
    → IsSound turn
    → Refines invocation turn
        (claim_unplanned state env request row turn).0
        (granted_of (claim_unplanned state env request row turn).1)
unfolding claim_unplanned
unplanned-Refines (some generating) invocation env request row turn e f c p s =
    renew-Refines invocation env request row turn (f, c, p, rw e refl) s
unplanned-Refines (some failed_retryable) invocation env request row turn e f c p s =
    renew-Refines invocation env request row turn (f, c, p, rw e refl) s
unplanned-Refines _ invocation env request row turn e f c p s = Refines-refl invocation turn s

-- A replay grants nothing.
replayed-none :
    (env : ClaimEnv) (request : ClaimRequest) (row : InboundRow) (turn : Turn)
    → granted_of (replayed env request row turn) ≡ 0
unfolding replayed
replayed-none env request row turn =
    elim (Result-cases (load_plan env.reads.refs_error request.invocation.id row turn)) [
      | inl (plan, e) ↦ elim (Result-cases (parse_id row.message_id)) [
        | inl (id, e') ↦ rw (e, e') refl
        | inr (code, e') ↦ rw (e, e') refl
      ]
      | inr (code, e) ↦ rw e refl
    ]

received_or_refused-Refines :
    (invocation : ℕ) (env : ClaimEnv) (request : ClaimRequest) (row : InboundRow) (turn : Turn)
    → turn.row ≡ some row
    → row.claimed ≡ false
    → IsSound turn
    → Refines invocation turn
        (claim_received env request row turn).0
        (granted_of (claim_received env request row turn).1)
unfolding claim_received
received_or_refused-Refines invocation env request row turn e c s =
    elim (Bool-cases (matches_preclaimed_inbound row.origin request.invocation)) [
      | inl same ↦ rw same (
          write-Refines granted_of invocation env.write_io _ turn _ err_grants_none s (
            parsed-Refines invocation row turn _
              (received-Refines invocation request row turn e c s)))
      | inr different ↦ rw different (Refines-refl invocation turn s)
    ]

claim_row-Refines :
    (invocation : ℕ) (env : ClaimEnv) (request : ClaimRequest) (row : InboundRow) (turn : Turn)
    → turn.row ≡ some row
    → IsSound turn
    → Keeps invocation turn (claim_row env request row turn)
unfolding claim_row
claim_row-Refines invocation env request row turn e s =
    if_intro (Keeps invocation turn) (not row.claimed) _ _
      (λ c. received_or_refused-Refines invocation env request row turn e (ground arith) s)
      (λ c.
        if_intro (Keeps invocation turn) (has_plan row turn.reply) _ _
          (λ p. rw (replayed-none env request row turn) (Refines-refl invocation turn s))
          (λ p.
            unplanned-Refines row.state invocation env request row turn refl e (ground arith) p s))

claim_found-Refines :
    (invocation : ℕ) (env : ClaimEnv) (request : ClaimRequest) (turn : Turn)
    (found : Option InboundRow)
    → turn.row ≡ found
    → IsSound turn
    → Keeps invocation turn (claim_found env request turn found)
unfolding claim_found
claim_found-Refines invocation env request turn none e s =
    first_claim-Refines invocation env request turn e s
claim_found-Refines invocation env request turn (some row) e s =
    claim_row-Refines invocation env request row turn e s

-- A claim keeps the rows of a turn sound, moves the ledger as it allows, and lets its caller ask
-- the model only against one more counted attempt.
pub claim-Refines :
    (invocation : ℕ) (env : ClaimEnv) (request : ClaimRequest) (turn : Turn)
    → IsSound turn
    → Keeps invocation turn (claim env request turn)
unfolding claim
claim-Refines invocation env request turn s =
    attempt_intro (Keeps invocation turn) _ turn _ (λ code. Refines-refl invocation turn s)
      (λ _ _.
        attempt_intro (Keeps invocation turn) (read_row env.reads turn) turn _
          (λ code. Refines-refl invocation turn s)
          (λ found e.
            claim_found-Refines invocation env request turn found
              (read_row-ok env.reads turn found e) s))

-- A conditional update gives the state before it, or, on a match, the state after it.
pub conditional_intro {κ} :
    {S : Type 0} (P : S → Type κ) (io : Io) (matched : Bool) (after before : S)
    → P before
    → (matched ≡ true → P after)
    → P (conditional_update io matched after before).0
unfolding conditional_update
conditional_intro P fine true after before b a = a refl
conditional_intro P fine false after before b a = b
conditional_intro P (failed true _) true after before b a = a refl
conditional_intro P (failed true _) false after before b a = b
conditional_intro P (failed false _) _ after before b a = b

failed_row-Refines :
    (invocation : ℕ) (request : FailGenerationRequest) (now : ℕ) (row : InboundRow) (turn : Turn)
    → turn.row ≡ some row
    → is_generating row.state ≡ true
    → IsSound turn
    → Refines invocation turn (set_row (failed_row request now row) turn) 0
unfolding ledger_of
failed_row-Refines invocation request now row turn e g s = record {
  sound = ground arith;
  allowed = elim (Bool-cases request.retryable) [
    | inl again ↦ stays (ground arith)
    | inr terminal ↦ gives_up row.generation_attempts (ground arith) (ground arith)
  ];
  paid = ground arith;
}

failed_turn-Refines :
    (invocation : ℕ) (request : FailGenerationRequest) (now : ℕ) (turn : Turn)
    → is_generating (row_state turn) ≡ true
    → IsSound turn
    → Refines invocation turn (failed_turn request now turn) 0
failed_turn-Refines invocation request now turn g s =
    option_intro (λ (after : Turn). Refines invocation turn after 0) turn.row turn
      (λ row. set_row (failed_row request now row) turn) (λ e. absurd (ground arith))
      (λ row e. failed_row-Refines invocation request now row turn e (ground arith) s)

-- A recorded failure closes the turn or leaves it to be tried again.
pub fail_generation-Refines :
    (invocation : ℕ) (io : Io) (now : ℕ) (request : FailGenerationRequest) (turn : Turn)
    → IsSound turn
    → Refines invocation turn (fail_generation io now request turn).0 0
unfolding fail_generation
fail_generation-Refines invocation io now request turn s =
    result_intro (λ (out : Turn × Option ErrorCode). Refines invocation turn out.0 0)
      (require_id request.key (not (is_zero request.invocation_id))) (λ code. (turn, some code)) _
      (λ code e. Refines-refl invocation turn s)
      (λ _ e.
        conditional_intro (λ after. Refines invocation turn after 0) io _ _ turn
          (Refines-refl invocation turn s)
          (λ g. failed_turn-Refines invocation request now turn g s))
