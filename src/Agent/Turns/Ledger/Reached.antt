-- ===== src/Agent/Turns/Ledger/Reached.antt =====
-- Any sequence of claims, commits, failures and deliveries on the rows of one turn, which is also
-- what crashes and restarts leave of them.
use wazzap_agent_go.Prelude.{ℕ, ◌+◌, ◌≤◌, ◌≡◌, sym, subst, true, some, Result, ok, arith}
use wazzap_agent_go.Errors.{ErrorCode}
use wazzap_agent_go.Turn.{TurnState, DeliveryStatus}
use wazzap_agent_go.Outbox.Row.{Io}
use wazzap_agent_go.Outbox.Row
use wazzap_agent_go.Agent.Turns.Row.{InboundRow, ReplyRow, Turn, StoredPlan}
use wazzap_agent_go.Agent.Turns.Claim.{
  ClaimEnv, ClaimRequest, claim, FailGenerationRequest, fail_generation,
}
use wazzap_agent_go.Agent.Turns.Commit.{CommitEnv, CommitPlanRequest, commit_plan}
use wazzap_agent_go.Agent.Turns.Ledger.{
  Ledger, planned, ledger_of, Allows, stays, begins, retries, gives_up, plans, Runs, here, next,
  IsSound, Refines, attempts_of,
}
use wazzap_agent_go.Agent.Turns.Ledger.Claims.{granted_of, claim-Refines, fail_generation-Refines}
use wazzap_agent_go.Agent.Turns.Ledger.Commits.{
  commit_plan-Refines, is_delivery, deliver, deliver-Refines,
}
use wazzap_agent_go.Agent.Turns.Ledger.Plan.{commit_plan-ok-planned}

-- The rows of a turn, and how often a claim let its caller ask the model.
pub record System : Type 0 where
  pub turn : Turn
  pub granted : ℕ

pub data Move (s t : System) : Type 0 where
  claims :
      (env : ClaimEnv) (request : ClaimRequest)
      → t ≡ record {
        turn = (claim env request s.turn).0;
        granted = granted_of (claim env request s.turn).1 + s.granted;
      }
      → Move s t
  commits :
      (env : CommitEnv) (request : CommitPlanRequest)
      → t ≡ record s { turn = (commit_plan env request s.turn).0 }
      → Move s t
  fails :
      (io : Io) (now : ℕ) (request : FailGenerationRequest)
      → t ≡ record s { turn = (fail_generation io now request s.turn).0 }
      → Move s t
  delivers :
      (state : TurnState) (action : Row.Row) (delivery : DeliveryStatus) (row : InboundRow)
      (reply : ReplyRow)
      → s.turn.row ≡ some row
      → s.turn.reply ≡ some reply
      → is_delivery state ≡ true
      → t ≡ record s { turn = deliver state action delivery row reply s.turn }
      → Move s t

pub data Reach (s : System) : System → Type 0 where
  start : Reach s s
  later : {t u : System} → Reach s t → Move t u → Reach s u

-- A move is a step that the ledger allows, and pays for what it grants.
record Step (invocation : ℕ) (s t : System) : Type 0 where
  sound : IsSound t.turn
  allowed : Allows (ledger_of invocation s.turn) (ledger_of invocation t.turn)
  paid : t.granted + attempts_of s.turn ≤ attempts_of t.turn + s.granted

Refines-Step :
    (invocation granted : ℕ) (s : System) (after : Turn)
    → Refines invocation s.turn after granted
    → Step invocation s (record { turn = after; granted = granted + s.granted })
Refines-Step invocation granted s after r =
    let paid = r.paid in record { sound = r.sound; allowed = r.allowed; paid = omega arith }

keeps-Step :
    (invocation : ℕ) (s : System) (after : Turn)
    → Refines invocation s.turn after 0
    → Step invocation s (record { turn = after; granted = s.granted })
keeps-Step invocation s after r =
    let paid = r.paid in record { sound = r.sound; allowed = r.allowed; paid = omega arith }

Move-Step : (invocation : ℕ) (s t : System) → Move s t → IsSound s.turn → Step invocation s t
Move-Step invocation s t (claims env request e) i =
    subst (Step invocation s) (sym e)
      (Refines-Step invocation _ s _ (claim-Refines invocation env request s.turn i))
Move-Step invocation s t (commits env request e) i =
    subst (Step invocation s) (sym e)
      (keeps-Step invocation s _ (commit_plan-Refines invocation env request s.turn i))
Move-Step invocation s t (fails io now request e) i =
    subst (Step invocation s) (sym e)
      (keeps-Step invocation s _ (fail_generation-Refines invocation io now request s.turn i))
Move-Step invocation s t (delivers state action delivery row reply f g d e) i =
    subst (Step invocation s) (sym e) (
      keeps-Step invocation s _
        (deliver-Refines invocation state action delivery row reply s.turn f g d i))

pub Reach-IsSound : (s t : System) → IsSound s.turn → Reach s t → IsSound t.turn
Reach-IsSound s t i start = i
Reach-IsSound s t i (later {t = u} r m) = (Move-Step 0 u t m (Reach-IsSound s u i r)).sound

-- Whatever claims, commits, failures and deliveries do to sound rows, whatever the database
-- answers, the ledger that the rows stand for makes a run of the abstract turn.
pub Reach-Runs :
    (invocation : ℕ) (s t : System)
    → IsSound s.turn
    → Reach s t
    → Runs (ledger_of invocation s.turn) (ledger_of invocation t.turn)
Reach-Runs invocation s t i start = here
Reach-Runs invocation s t i (later {t = u} r m) =
    next (Reach-Runs invocation s u i r)
      (Move-Step invocation u t m (Reach-IsSound s u i r)).allowed

Reach-paid :
    (s t : System)
    → IsSound s.turn
    → Reach s t
    → t.granted + attempts_of s.turn ≤ attempts_of t.turn + s.granted
Reach-paid s t i start = omega arith
Reach-paid s t i (later {t = u} r m) =
    let before = Reach-paid s u i r in
    let step = (Move-Step 0 u t m (Reach-IsSound s u i r)).paid in omega arith

IsSound-attempts : (turn : Turn) → IsSound turn → attempts_of turn ≤ 3
IsSound-attempts turn i = ground arith

-- From a turn that was not claimed yet, the model is asked for at most three times, whatever claims
-- and other operations follow, whatever the database answers.
pub granted_at_most_three :
    (s t : System) → IsSound s.turn → s.granted ≡ 0 → Reach s t → t.granted ≤ 3
granted_at_most_three s t i z r =
    let paid = Reach-paid s t i r in
    let bound = IsSound-attempts t.turn (Reach-IsSound s t i r) in omega arith

Allows-planned :
    (a b : Ledger) (p : Result ErrorCode StoredPlan) → a ≡ planned p → Allows a b → b ≡ planned p
Allows-planned a b p e (stays f) = cc
Allows-planned a b p e (begins f g) = absurd (ground arith)
Allows-planned a b p e (retries n l f g) = absurd (ground arith)
Allows-planned a b p e (gives_up n f g) = absurd (ground arith)
Allows-planned a b p e (plans n q f g) = absurd (ground arith)

Runs-planned :
    (a b : Ledger) (p : Result ErrorCode StoredPlan) → a ≡ planned p → Runs a b → b ≡ planned p
Runs-planned a b p e here = e
Runs-planned a b p e (next {b = c} r m) = Allows-planned c b p (Runs-planned a c p e r) m

-- Once CommitPlan gave a plan, the rows decode to that plan for ever, whatever follows.
pub plan_is_kept :
    (env : CommitEnv) (request : CommitPlanRequest) (turn : Turn) (granted : ℕ) (plan : StoredPlan)
    (t : System)
    → IsSound turn
    → (commit_plan env request turn).1 ≡ ok plan
    → Reach (record { turn = (commit_plan env request turn).0; granted = granted }) t
    → ledger_of request.invocation_id t.turn ≡ planned (ok plan)
plan_is_kept env request turn granted plan t i e r =
    Runs-planned _ _ (ok plan) (commit_plan-ok-planned env request turn plan i e) (
      Reach-Runs request.invocation_id _ t
        (commit_plan-Refines request.invocation_id env request turn i).sound r)
