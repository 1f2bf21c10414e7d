-- ===== src/Outbox/Effect/Outcome.antt =====
-- What one uninterrupted Dispatch of an effect does, on every branch.
use wazzap_agent_go.Prelude.{
  ◌+◌, ◌≡◌, ◌≢◌, true, false, ◌⊎◌, inl, inr, Option, none, some, ok, arith, Text,
}
use wazzap_agent_go.Errors.{ErrorCode}
use wazzap_agent_go.Outbox.Row.{pending, succeeded, World, fine, set_outcome, nullable_string}
use wazzap_agent_go.Outbox.Effect.{
  Env, Pc, returned, dispatch, authorize_error, retryable_pre_execution_error,
}

abbrev pub HasReturned : Pc → Type 0
HasReturned (returned _) = Unit
HasReturned _ = ⊥

abbrev pub error_of : Pc → Option ErrorCode
error_of (returned e) = e
error_of _ = none

-- Six actions always reach a return.
pub dispatch_returns : (env : Env) (w : World) → HasReturned (dispatch env w).0
unfolding dispatch
dispatch_returns env w = ground arith

-- A row that is not pending is never touched and never handed over again.
pub dispatch_settled : (env : Env) (w : World) → w.row.state ≢ pending → (dispatch env w).1 ≡ w
unfolding dispatch
dispatch_settled env w h = ground arith

-- The conditions under which an effect may run.
pub record MayRun (env : Env) (w : World) : Type 0 where
  pub is_valid : env.ref_error ≡ none
  pub is_loaded : env.load_error ≡ none
  pub is_unclaimed : w.row.state ≡ pending
  pub is_ready : env.sender_ready ≡ true
  pub is_authorized : authorize_error env ≡ none
  pub is_known : env.reply_error ≡ none
  pub follows_reply : env.reply_delivered ≡ true
  pub is_claimed : env.start_io ≡ fine

may_run-sent : (env : Env) (w : World) → MayRun env w → (dispatch env w).1.sent ≡ w.sent + 1
unfolding dispatch
may_run-sent env w m = ground arith

sent_cases : (env : Env) (w : World) → ((dispatch env w).1.sent ≡ w.sent) ⊎ MayRun env w
unfolding dispatch authorize_error
sent_cases env w = ground arith

-- A call hands the effect over once exactly when the reference is valid, the row is loaded and
-- pending, the sender is ready, the authorizer or the bound executor admits it, the reply it
-- follows is sent, and the claim commits; otherwise it hands over nothing.
pub dispatch-sent_cases :
    (env : Env) (w : World)
    → MayRun env w × ((dispatch env w).1.sent ≡ w.sent + 1)
      ⊎ (¬ MayRun env w) × ((dispatch env w).1.sent ≡ w.sent)
dispatch-sent_cases env w = elim (sent_cases env w) [
  | inl same ↦ inr (λ may. omega (arith, may_run-sent env w may), same)
  | inr may ↦ inl (may, may_run-sent env w may)
]

-- A pending effect stays as it is when the sender is not ready, when it is refused for a reason that
-- allows another try, or when it is authorized but the reply that it follows is not sent yet.
pub dispatch_waits :
    (env : Env) (w : World) (code : ErrorCode)
    → w.row.state ≡ pending
    → (env.sender_ready ≡ false)
      ⊎ (authorize_error env ≡ some code) × (retryable_pre_execution_error code ≡ true)
      ⊎ (authorize_error env ≡ none) × (env.reply_error ≡ none) × (env.reply_delivered ≡ false)
    → (dispatch env w).1 ≡ w
unfolding dispatch
dispatch_waits env w code p h = ground arith

-- A call that may run, whose execution succeeds and whose receipt is recorded, reports no error and
-- leaves the row succeeded with that receipt, an empty one being stored as none.
pub dispatch_succeeds :
    (env : Env) (w : World) (receipt : Text)
    → MayRun env w
    → env.execution ≡ ok receipt
    → env.complete_io ≡ fine
    → ((dispatch env w).0 ≡ returned none)
      × ((dispatch env w).1.row ≡ set_outcome succeeded (nullable_string receipt) none w.row)
unfolding dispatch
dispatch_succeeds env w receipt m e f = ground arith

-- If the call reports no error, the row is succeeded.
pub dispatch_no_error :
    (env : Env) (w : World)
    → error_of (dispatch env w).0 ≡ none
    → (dispatch env w).1.row.state ≡ succeeded
unfolding dispatch
dispatch_no_error env w h = ground arith
