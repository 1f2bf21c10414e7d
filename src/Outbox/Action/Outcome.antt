-- ===== src/Outbox/Action/Outcome.antt =====
-- What one uninterrupted Dispatch of a reply does, on every branch.
use wazzap_agent_go.Prelude.{
  ℕ, ◌+◌, ◌≡◌, ◌≢◌, true, false, ◌⊎◌, inl, inr, Option, none, some, ok, err, arith, [], ◌∷◌, Text,
}
use wazzap_agent_go.Errors.{ErrorCode, unknown_outcome, not_ready}
use wazzap_agent_go.Turn.{TurnState, DeliveryStatus}
use wazzap_agent_go.Outbox.Row.{
  pending, succeeded, failed_terminal, unknown, fine, failed, set_outcome,
}
use wazzap_agent_go.Outbox.Action.{Reply, Env, Pc, returned, done, dispatch}

abbrev pub HasReturned : Pc → Type 0
HasReturned (returned _) = Unit
HasReturned _ = ⊥

abbrev pub error_of : Pc → Option ErrorCode
error_of (returned d) = d.error
error_of _ = none

-- Six actions always reach a return.
pub reply_returns : (env : Env) (r : Reply) → HasReturned (dispatch env r).0
unfolding dispatch
reply_returns env r = ground arith

-- A row that is not pending is never touched and never sent again.
pub reply_settled : (env : Env) (r : Reply) → r.world.row.state ≢ pending → (dispatch env r).1 ≡ r
unfolding dispatch
reply_settled env r h = ground arith

-- The conditions under which a reply may be sent.
pub record MaySend (env : Env) (r : Reply) : Type 0 where
  pub is_valid : env.ref_valid ≡ true
  pub is_loaded : env.load_error ≡ none
  pub is_unclaimed : r.world.row.state ≡ pending
  pub is_authorized : env.authorize_error ≡ none
  pub is_ready : env.sender_ready ≡ true
  pub is_claimed : env.start_io ≡ fine

may_send-sent :
    (env : Env) (r : Reply) → MaySend env r → (dispatch env r).1.world.sent ≡ r.world.sent + 1
unfolding dispatch
may_send-sent env r m = ground arith

sent_cases :
    (env : Env) (r : Reply) → ((dispatch env r).1.world.sent ≡ r.world.sent) ⊎ MaySend env r
unfolding dispatch
sent_cases env r = ground arith

-- A call sends the text once exactly when the reference is valid, the row is loaded and pending,
-- the policy allows the chat, the sender is ready and the claim commits; otherwise it sends nothing.
pub reply_sent_cases :
    (env : Env) (r : Reply)
    → MaySend env r × ((dispatch env r).1.world.sent ≡ r.world.sent + 1)
      ⊎ (¬ MaySend env r) × ((dispatch env r).1.world.sent ≡ r.world.sent)
reply_sent_cases env r = elim (sent_cases env r) [
  | inl same ↦ inr (λ may. omega (arith, may_send-sent env r may), same)
  | inr may ↦ inl (may, may_send-sent env r may)
]

-- While the account is offline an allowed reply stays pending, unchanged.
pub reply_offline :
    (env : Env) (r : Reply)
    → env.ref_valid ≡ true
    → env.load_error ≡ none
    → r.world.row.state ≡ pending
    → env.authorize_error ≡ none
    → env.sender_ready ≡ false
    → dispatch env r ≡ (done DeliveryStatus.pending (some not_ready), r)
unfolding dispatch
reply_offline env r h1 h2 h3 h4 h5 = ground arith

-- A send that succeeds with a receipt that is recorded reports success, and leaves the row, the turn
-- and the history entry succeeded.
pub reply_succeeds :
    (env : Env) (r : Reply) (c : ℕ) (receipt : Text)
    → MaySend env r
    → env.sent ≡ ok (c ∷ receipt)
    → env.complete_io ≡ fine
    → ((dispatch env r).0 ≡ done DeliveryStatus.succeeded none)
      × ((dispatch env r).1 ≡ record {
        world = record {
          row = set_outcome succeeded (some (c ∷ receipt)) none r.world.row;
          sent = r.world.sent + 1;
        };
        turn = TurnState.succeeded;
        delivery = DeliveryStatus.succeeded;
      })
unfolding dispatch
reply_succeeds env r c receipt m e f = ground arith

-- When a pending reply with a valid reference is loaded, the policy refuses it and the refusal is
-- recorded, then nothing is sent, the row fails terminally, and the call reports the refusal's code.
pub reply_denied :
    (env : Env) (r : Reply) (code : ErrorCode)
    → env.ref_valid ≡ true
    → env.load_error ≡ none
    → r.world.row.state ≡ pending
    → env.authorize_error ≡ some code
    → env.record_io ≡ fine
    → ((dispatch env r).0 ≡ done DeliveryStatus.failed_terminal (some code))
      × ((dispatch env r).1.world.row.state ≡ failed_terminal)
      × ((dispatch env r).1.world.sent ≡ r.world.sent)
unfolding dispatch
reply_denied env r code h1 h2 h3 h4 h5 = ground arith

-- When a call that may send has a send that fails, or whose receipt is empty or is not recorded, and
-- the outcome is recorded, the row has an unknown outcome after one hand-over, and the call reports it.
pub reply_unknown :
    (env : Env) (r : Reply) (code : ErrorCode)
    → MaySend env r
    → (env.sent ≡ err code) ⊎ (env.sent ≡ ok []) ⊎ (env.complete_io ≡ failed false code)
    → env.record_io ≡ fine
    → ((dispatch env r).0 ≡ done DeliveryStatus.unknown_outcome (some unknown_outcome))
      × ((dispatch env r).1.world.row.state ≡ unknown)
      × ((dispatch env r).1.world.sent ≡ r.world.sent + 1)
unfolding dispatch
reply_unknown env r code m f h = ground arith

-- A call that reports no error leaves the row succeeded.
pub reply_no_error :
    (env : Env) (r : Reply)
    → error_of (dispatch env r).0 ≡ none
    → (dispatch env r).1.world.row.state ≡ succeeded
unfolding dispatch
reply_no_error env r h = ground arith
