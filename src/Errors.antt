-- ===== src/Errors.antt =====
-- The error codes of internal/agent/errors.go. An error value is modelled by the code that CodeOf
-- reads from it; its operation and cause are only text.
use wazzap_agent_go.Prelude.{Bool, true, false}

pub data ErrorCode : Type 0 where
  invalid_argument not_found permission_denied conflict in_progress not_ready : ErrorCode
  unsupported rate_limited resource_exhausted timeout cancelled unavailable : ErrorCode
  storage_failure provider_failure integrity_failure delivery_pending : ErrorCode
  unknown_outcome internal : ErrorCode

abbrev pub is_conflict : ErrorCode → Bool
is_conflict conflict = true
is_conflict _ = false

abbrev pub is_permission_denied : ErrorCode → Bool
is_permission_denied permission_denied = true
is_permission_denied _ = false

abbrev pub is_not_found : ErrorCode → Bool
is_not_found not_found = true
is_not_found _ = false
