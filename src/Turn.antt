-- ===== src/Turn.antt =====
-- The turn and delivery states of internal/agent/turn.go.
pub data TurnState : Type 0 where
  generating failed_retryable response_planned delivery_pending : TurnState
  succeeded failed_terminal unknown_outcome : TurnState

pub data DeliveryStatus : Type 0 where
  not_started pending succeeded failed_terminal unknown_outcome : DeliveryStatus
