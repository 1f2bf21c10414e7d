-- ===== src/Agent/Invoke/Advance.antt =====
-- An Invoke is a sequence of claims, commits and failures of its turn, and asks the model only
-- after a claim that lets it.
use wazzap_agent_go.Prelude.{
  ℕ, suc, ◌+◌, ◌≤◌, ◌≡◌, refl, true, List, Option, some, Result, ok, err, arith, guard, not,
  option_intro, if_intro, ◌==◌,
}
use wazzap_agent_go.Errors.{
  ErrorCode, provider_failure, integrity_failure, storage_failure, conflict, is_not_found,
}
use wazzap_agent_go.Turn.{TurnState, DeliveryStatus}
use wazzap_agent_go.Outbox.Row
use wazzap_agent_go.Policy.Principal.{Key, is_zero}
use wazzap_agent_go.Agent.Effects.{ModelResult}
use wazzap_agent_go.Agent.Invocation.{Invocation}
use wazzap_agent_go.Agent.Turns.Row.{
  InboundRow, ReplyRow, Turn, StoredPlan, TurnRecord, is_generating, load,
}
use wazzap_agent_go.Agent.Turns.Claim.{TurnClaim, claim}
use wazzap_agent_go.Agent.Turns.Commit.{commit_plan}
use wazzap_agent_go.Agent.Turns.Ledger.{IsSound, Runs, ledger_of}
use wazzap_agent_go.Agent.Turns.Ledger.Commits.{is_delivery, deliver}
use wazzap_agent_go.Agent.Turns.Ledger.Claims.{granted_of}
use wazzap_agent_go.Agent.Turns.Ledger.Reached.{
  System, Reach, start, later, claims, commits, fails, delivers, granted_at_most_three, Reach-Runs,
}
use wazzap_agent_go.Agent.History.{
  HistoryEntry, wrap, no_error, invocation_entry, delivery_for_turn_state,
  ensure_invocation_history,
}
use wazzap_agent_go.Agent.Invoke.{
  InvokeEnv, World, Outcome, with_turn, attempt, failed, generating, dispatched, replay, commit,
  commit_request, checked, fail_request, normalized, ask, generate, claimed, claim_request,
  claim_turn, new_turn, loaded, invoke, is_failed_terminal,
}

abbrev pub system : Turn → ℕ → System
system turn granted = record { turn = turn; granted = granted }

-- The rows moved as the turn's operations move them, and the model was asked no more often than the
-- claims allowed; `spare` permissions are not used yet.
record Advance (first : World) (granted spare : ℕ) (w : World) : Type 0 where
  grants : ℕ
  moved : Reach (system first.turn granted) (system w.turn grants)
  within : w.asked + spare + granted ≤ first.asked + grants

module _ (key : Key) (env : InvokeEnv) (inv : Invocation) (first : World) (granted : ℕ) where
  -- What an operation of the agent leaves.
  Leaves : World × Outcome → Type 0
  Leaves out = Advance first granted 0 out.0

  Advance-unused : (n : ℕ) (w : World) → Advance first granted n w → Advance first granted 0 w
  Advance-unused n w a =
      let within = a.within in record { grants = a.grants; moved = a.moved; within = omega arith }

  Advance-failed :
      (n : ℕ) (code : ErrorCode) (w : World)
      → Advance first granted n w
      → Advance first granted n (failed key env inv code w)
  unfolding failed
  Advance-failed n code w a = record {
    grants = a.grants;
    moved =
        later a.moved (fails env.fail_io env.commit_env.now (fail_request key env inv code) refl);
    within = a.within;
  }

  attempt-Leaves {ℓ} :
      {A : Type ℓ} (n : ℕ) (r : Result ErrorCode A) (w : World) (f : A → World × Outcome)
      → Advance first granted n w
      → ((a : A) → r ≡ ok a → Leaves (f a))
      → Leaves (attempt r w f)
  unfolding Leaves
  attempt-Leaves n (ok a) w f adv k = k a refl
  attempt-Leaves n (err code) w f adv k = Advance-unused n w adv

  generating-Leaves {ℓ} :
      {A : Type ℓ} (n : ℕ) (r : Result ErrorCode A) (w : World) (f : A → World × Outcome)
      → Advance first granted n w
      → ((a : A) → r ≡ ok a → Leaves (f a))
      → Leaves (generating key env inv r w f)
  unfolding Leaves
  generating-Leaves n (ok a) w f adv k = k a refl
  generating-Leaves n (err code) w f adv k = Advance-failed 0 code w (Advance-unused n w adv)

  dispatched-Leaves :
      (n : ℕ) (plan : StoredPlan) (w : World)
      → Advance first granted n w
      → Leaves (dispatched key env inv plan w)
  unfolding Leaves dispatched
  dispatched-Leaves n plan w a =
      let a' = Advance-unused n w a in
      record { grants = a'.grants; moved = a'.moved; within = a'.within }

  replay-Leaves :
      (n message_id : ℕ) (state : Option TurnState) (plan : StoredPlan) (w : World)
      → Advance first granted n w
      → Leaves (replay key env inv message_id state plan w)
  unfolding replay
  replay-Leaves n message_id state plan w a =
      attempt-Leaves n
        (ensure_invocation_history env.history message_id inv plan (delivery_for_turn_state state))
        w (λ _. dispatched key env inv plan w) a (λ _ _. dispatched-Leaves n plan w a)

  Advance-commit :
      (n version message_id : ℕ) (generated : ModelResult) (w : World)
      → Advance first granted n w
      → Advance first granted n (
          with_turn w
            (commit_plan env.commit_env
              (commit_request key env inv version message_id generated)
              w.turn).0)
  Advance-commit n version message_id generated w a = record {
    grants = a.grants;
    moved =
        later a.moved
          (commits env.commit_env (commit_request key env inv version message_id generated) refl);
    within = a.within;
  }

  commit-Leaves :
      (n version message_id : ℕ) (generated : ModelResult) (w : World)
      → Advance first granted n w
      → Leaves (commit key env inv version message_id generated w)
  unfolding commit
  commit-Leaves n version message_id generated w a =
      let a' = Advance-commit n version message_id generated w a in
      let request = commit_request key env inv version message_id generated in
      let (turn, plan) = commit_plan env.commit_env request w.turn in
      attempt-Leaves n plan (with_turn w turn) (λ p. dispatched key env inv p (with_turn w turn)) a'
        (λ p _. dispatched-Leaves n p (with_turn w turn) a')

  Advance-asked :
      (n : ℕ) (w : World)
      → Advance first granted (suc n) w
      → Advance first granted n (record w { asked = suc w.asked })
  Advance-asked n w a =
      let within = a.within in record { grants = a.grants; moved = a.moved; within = omega arith }

  ask-Leaves :
      (version message_id : ℕ) (entries : List HistoryEntry) (w : World)
      → Advance first granted 1 w
      → Leaves (ask key env inv version message_id entries w)
  unfolding ask
  ask-Leaves version message_id entries w a =
      let w' = record w { asked = suc w.asked } in
      let a' = Advance-asked 0 w a in
      generating-Leaves 0 (wrap provider_failure env.generate) w' _ a' (λ generated _.
        generating-Leaves 0 (checked key env inv entries generated) w' _ a'
          (λ _ _. commit-Leaves 0 version message_id (normalized key env inv generated) w' a'))

  generate-Leaves :
      (version message_id : ℕ) (w : World)
      → Advance first granted 1 w
      → Leaves (generate key env inv version message_id w)
  unfolding generate
  generate-Leaves version message_id w a =
      generating-Leaves 1 (no_error (env.history.append (invocation_entry message_id inv))) w _ a
        (λ _ _.
          generating-Leaves 1 (wrap integrity_failure (env.history.list version)) w _ a
            (λ entries _. generating-Leaves 1 (no_error env.chat_error) w _ a (λ _ _.
              generating-Leaves 1 (wrap integrity_failure (no_error env.build_error)) w _ a
                (λ _ _. ask-Leaves version message_id entries w a))))

  claimed-Leaves :
      (version : ℕ) (c : TurnClaim) (w : World)
      → Advance first granted (granted_of (ok c)) w
      → Leaves (claimed key env inv version c w)
  unfolding claimed
  claimed-Leaves version c w a =
      option_intro Leaves c.plan _ _
        (λ e.
          let a' : Advance first granted 1 w = rw e at a in
          attempt-Leaves 1 (guard (is_generating c.state) integrity_failure) w _ a' (λ _ _.
            attempt-Leaves 1 (guard (not (is_zero c.message_id)) integrity_failure) w _ a'
              (λ _ _. generate-Leaves version c.message_id w a')))
        (λ plan e. replay-Leaves (granted_of (ok c)) c.message_id c.state plan w a)

  Advance-claim :
      (w : World)
      → Advance first granted 0 w
      → Advance first granted
          (granted_of (claim env.claim_env (claim_request key env inv) w.turn).1)
          (with_turn w (claim env.claim_env (claim_request key env inv) w.turn).0)
  Advance-claim w a =
      let request = claim_request key env inv in
      let within = a.within in
      record {
        grants = granted_of (claim env.claim_env request w.turn).1 + a.grants;
        moved = later a.moved (claims env.claim_env request refl);
        within = omega arith;
      }

  -- The permissions of a claim that answered are those of its answer.
  granted_of-wrap :
      (code : ErrorCode) (r : Result ErrorCode TurnClaim) (c : TurnClaim)
      → wrap code r ≡ ok c
      → granted_of r ≡ granted_of (ok c)
  granted_of-wrap code r c h = ground arith

  claim_turn-Leaves :
      (version : ℕ) (w : World)
      → Advance first granted 0 w
      → Leaves (claim_turn key env inv version w)
  unfolding claim_turn
  claim_turn-Leaves version w a =
      let request = claim_request key env inv in
      let (turn, answer) = claim env.claim_env request w.turn in
      let w' = with_turn w turn in
      let a' = Advance-claim w a in
      attempt-Leaves 0 (guard (version == inv.policy_version) conflict) w _ a (λ _ _.
        attempt-Leaves (granted_of answer) (wrap storage_failure answer) w' _ a' (λ c e.
          claimed-Leaves version c w' (rw (granted_of-wrap storage_failure answer c e) at a')))

  new_turn-Leaves : (w : World) → Advance first granted 0 w → Leaves (new_turn key env inv w)
  unfolding new_turn
  new_turn-Leaves w a =
      attempt-Leaves 0 (wrap integrity_failure env.config) w _ a
        (λ version _. claim_turn-Leaves version w a)

  loaded-Leaves :
      (r : Result ErrorCode TurnRecord) (w : World)
      → Advance first granted 0 w
      → Leaves (loaded key env inv r w)
  unfolding loaded Leaves
  loaded-Leaves (ok r) w a =
      option_intro Leaves r.plan _ _
        (λ _.
          if_intro Leaves (is_failed_terminal key env inv r.state) _ _ (λ _. a)
            (λ _. new_turn-Leaves w a))
        (λ plan _.
          attempt-Leaves 0 (ensure_invocation_history env.history r.message_id inv plan r.delivery)
            w (λ _. dispatched key env inv plan w) a (λ _ _. dispatched-Leaves 0 plan w a))
  loaded-Leaves (err code) w a =
      if_intro Leaves (is_not_found code) _ _ (λ _. new_turn-Leaves w a) (λ _. a)

  invoke-Leaves : (w : World) → Advance first granted 0 w → Leaves (invoke key env inv w)
  unfolding invoke
  invoke-Leaves w a = attempt-Leaves 0 (no_error env.gate_error) w _ a (λ _ _.
      attempt-Leaves 0 (no_error env.invocation_error) w _ a
        (λ _ _. loaded-Leaves (load env.reads key inv.id w.turn) w a))

-- Any number of Invokes of a turn, each with answers of its own, with deliveries between them. An
-- Invoke that a crash cuts off is one whose later answers are errors.
pub data Invokes (key : Key) (first : World) : World → Type 0 where
  none_yet : Invokes key first first
  one_more :
      {w : World} (env : InvokeEnv) (inv : Invocation)
      → Invokes key first w
      → Invokes key first (invoke key env inv w).0
  delivery :
      {w : World} (state : TurnState) (action : Row.Row) (status : DeliveryStatus)
      (row : InboundRow) (reply : ReplyRow)
      → w.turn.row ≡ some row
      → w.turn.reply ≡ some reply
      → is_delivery state ≡ true
      → Invokes key first w
      → Invokes key first (with_turn w (deliver state action status row reply w.turn))

Invokes-Advance : (key : Key) (first w : World) → Invokes key first w → Advance first 0 0 w
unfolding Leaves
Invokes-Advance key first w none_yet = record { grants = 0; moved = start; within = omega arith }
Invokes-Advance key first w (one_more {w = before} env inv r) =
    invoke-Leaves key env inv first 0 before (Invokes-Advance key first before r)
Invokes-Advance key first w (delivery {w = before} state action status row reply e f d r) =
    let a = Invokes-Advance key first before r in
    record {
      grants = a.grants;
      moved = later a.moved (delivers state action status row reply e f d refl);
      within = a.within;
    }

-- However often a message is invoked, with whatever failures, crashes and deliveries between, the
-- model is asked for it at most three times.
pub asked_at_most_three :
    (key : Key) (first w : World)
    → IsSound first.turn
    → Invokes key first w
    → w.asked ≤ first.asked + 3
asked_at_most_three key first w s r =
    let a = Invokes-Advance key first w r in
    let within = a.within in let bound = granted_at_most_three _ _ s refl a.moved in omega arith

-- However often a message is invoked, with whatever failures, crashes and deliveries between, the
-- ledger that the rows stand for makes a run of the abstract turn.
pub Invokes-Runs :
    (key : Key) (invocation : ℕ) (first w : World)
    → IsSound first.turn
    → Invokes key first w
    → Runs (ledger_of invocation first.turn) (ledger_of invocation w.turn)
Invokes-Runs key invocation first w s r =
    Reach-Runs invocation _ _ s (Invokes-Advance key first w r).moved
