-- ===== src/Outbox/Row.antt =====
-- One outbox row and the conditional updates by which internal/adapters/sqlite moves it. Both
-- outboxes have the same five states; the times and the counter of attempts are left out.
use wazzap_agent_go.Prelude.{
  ℕ, Bool, true, false, ◌&&◌, [], ◌∷◌, Option, none, some, if◌then◌else◌, Text,
}
use wazzap_agent_go.Errors.{ErrorCode, conflict, unknown_outcome}

-- `other` is a stored number that is none of the states.
pub data State : Type 0 where
  pending executing succeeded failed_terminal unknown : State
  other : ℕ → State

abbrev pub is_pending : State → Bool
is_pending pending = true
is_pending _ = false

abbrev pub is_executing : State → Bool
is_executing executing = true
is_executing _ = false

pub record Row : Type 0 where
  pub state : State
  pub receipt : Option Text
  pub last_error : Option ErrorCode

-- The row, and how often it was handed to the provider.
pub record World : Type 0 where
  pub row : Row
  pub sent : ℕ

-- How the database answers a write: it commits, or it reports an error, and then the write may
-- have been applied or not.
pub data Io : Type 0 where
  fine : Io
  failed : (applied : Bool) → ErrorCode → Io

-- `UPDATE … WHERE … AND state IN (…)` and requireOne, in one transaction: if the row matches, the
-- state after the write replaces the state before it, and a row that does not is a conflict.
unfoldable pub conditional_update : {S : Type 0} → Io → Bool → S → S → S × Option ErrorCode
conditional_update fine matched after before =
    if matched then (after, none) else (before, some conflict)
conditional_update (failed applied code) matched after before =
    (if applied && matched then after else before, some code)

abbrev pub set_state : State → Row → Row
set_state state row = record row { state = state }

-- The columns that an outcome writes.
abbrev pub set_outcome : State → Option Text → Option ErrorCode → Row → Row
set_outcome state receipt code row = record { state = state; receipt = receipt; last_error = code }

abbrev pub set_row : (Row → Row) → World → World
set_row change w = record w { row = change w.row }

-- nullableString: an empty text is stored as NULL.
abbrev pub nullable_string : Text → Option Text
nullable_string [] = none
nullable_string (c ∷ s) = some (c ∷ s)

unfoldable pub complete : Io → Text → World → World × Option ErrorCode
unfolding conditional_update
complete io receipt w =
    conditional_update io (is_executing w.row.state)
      (set_row (set_outcome succeeded (nullable_string receipt) none) w) w

unfoldable pub mark_unknown : Io → ErrorCode → World → World × Option ErrorCode
unfolding conditional_update
mark_unknown io code w =
    conditional_update io (is_executing w.row.state)
      (set_row (set_outcome unknown none (some code)) w) w

-- At startup: a row still executing was cut off by the last shutdown or crash.
unfoldable pub resolve_interrupted : World → World
resolve_interrupted w =
    if is_executing w.row.state
    then set_row (λ row. record row { state = unknown; last_error = some unknown_outcome }) w
    else w
