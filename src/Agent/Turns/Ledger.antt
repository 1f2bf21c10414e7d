-- ===== src/Agent/Turns/Ledger.antt =====
-- What the rows of a turn promise: a ledger that is claimed, tried at most three times, and planned
-- or closed once.
pub mod Claims
pub mod Commits
pub mod Plan
pub mod Reached
pub mod Retries
use wazzap_agent_go.Prelude.{
  ℕ, ◌+◌, ◌≤◌, ◌<◌, ◌≡◌, refl, ◌⊎◌, inl, inr, Bool, true, false, ◌||◌, if◌then◌else◌, List, [], ◌∷◌,
  Option, none, some, Result, ok, err, arith,
}
use wazzap_agent_go.Errors.{ErrorCode}
use wazzap_agent_go.Turn.{TurnState, generating, failed_retryable}
use wazzap_agent_go.Outbox.Row.{Io, fine, failed}
use wazzap_agent_go.Agent.Turns.Row.{
  StoredId, InboundRow, ReplyRow, Turn, StoredPlan, has_action, has_plan, is_succeeded, load_plan,
  write, row_plan, load_effects,
}

-- The abstract turn. A plan is what its rows decode to.
pub data Ledger : Type 0 where
  idle : Ledger
  attempting : ℕ → Ledger
  closed : Ledger
  planned : Result ErrorCode StoredPlan → Ledger

-- A turn that may be generated, now or again.
abbrev pub is_undecided : Option TurnState → Bool
is_undecided (some generating) = true
is_undecided (some failed_retryable) = true
is_undecided _ = false

-- The ledger may stay, begin, be tried again while it was tried fewer than three times, be closed,
-- or be planned. Nothing leaves a plan.
pub data Allows (a b : Ledger) : Type 0 where
  stays : b ≡ a → Allows a b
  begins : a ≡ idle → b ≡ attempting 1 → Allows a b
  retries : (n : ℕ) → n < 3 → a ≡ attempting n → b ≡ attempting (n + 1) → Allows a b
  gives_up : (n : ℕ) → a ≡ attempting n → b ≡ closed → Allows a b
  plans : (n : ℕ) (p : Result ErrorCode StoredPlan) → a ≡ attempting n → b ≡ planned p → Allows a b

pub data Runs (a : Ledger) : Ledger → Type 0 where
  here : Runs a a
  next : {b c : Ledger} → Runs a b → Allows b c → Runs a c

module _ (invocation : ℕ) where
  -- The ledger that the rows stand for.
  unfoldable pub row_ledger : InboundRow → Turn → Ledger
  unfolding row_plan load_effects
  row_ledger row turn =
      if row.claimed
      then (if has_plan row turn.reply
          then planned (load_plan none invocation row turn)
          else if is_undecided row.state
          then attempting row.generation_attempts
          else closed)
      else idle

  unfoldable pub ledger_of : Turn → Ledger
  unfolding row_ledger
  ledger_of turn = elim turn.row [ none ↦ idle | some row ↦ row_ledger row turn ]

abbrev pub attempts_of : Turn → ℕ
attempts_of turn = elim turn.row [ none ↦ 0 | some row ↦ row.generation_attempts ]

abbrev is_some {ℓ} : {A : Type ℓ} → Option A → Bool
is_some none = false
is_some (some _) = true

-- A row before its claim: the message was received, and no more.
abbrev pub IsReceived : InboundRow → Option ReplyRow → List StoredId → Type 0
IsReceived row reply effects =
    (row.claimed ≡ false)
    × (row.state ≡ none)
    × (row.generation_attempts ≡ 0)
    × (reply ≡ none)
    × (effects ≡ [])

-- A row after its claim: a reply has left the undecided states, and effects belong to a plan.
abbrev pub IsClaimed : InboundRow → Option ReplyRow → List StoredId → Type 0
IsClaimed row reply effects =
    (row.claimed ≡ true)
    × (row.generation_attempts ≤ 3)
    × (is_some row.config_version ≡ true)
    × ((is_undecided row.state ≡ false) ⊎ (has_action reply ≡ false))
    × ((has_plan row reply ≡ true) ⊎ (effects ≡ []))

abbrev pub IsSound : Turn → Type 0
IsSound turn = elim turn.row [
  | none ↦ (turn.reply ≡ none) × (turn.effects ≡ [])
  | some row ↦ IsReceived row turn.reply turn.effects ⊎ IsClaimed row turn.reply turn.effects
]

-- A transaction keeps the rows sound, moves the ledger as it allows, and pays for every permission
-- to generate with an attempt.
pub record Refines (invocation : ℕ) (before after : Turn) (granted : ℕ) : Type 0 where
  pub sound : IsSound after
  pub allowed : Allows (ledger_of invocation before) (ledger_of invocation after)
  pub paid : granted + attempts_of before ≤ attempts_of after

pub Refines-refl : (invocation : ℕ) (turn : Turn) → IsSound turn → Refines invocation turn turn 0
Refines-refl invocation turn s = record { sound = s; allowed = stays refl; paid = omega arith }

pub granted_none :
    {invocation granted : ℕ} {before after : Turn}
    → Refines invocation before after granted
    → Refines invocation before after 0
granted_none {granted} r = record {
  sound = r.sound;
  allowed = r.allowed;
  paid = omega (arith, r.paid);
}
