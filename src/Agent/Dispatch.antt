-- ===== src/Agent/Dispatch.antt =====
-- Agent.dispatchPlan of internal/agent/agent.go: the reply of a plan, then its effects, which the
-- effect dispatcher (internal/effect/effect.go) takes together.
pub mod Order
use wazzap_agent_go.Prelude.{
  ℕ, Bool, true, false, not, ◌&&◌, ◌||◌, ◌==◌, if◌then◌else◌, List, [], ◌∷◌, ◌++◌, length, Option,
  none, some, Text,
}
use wazzap_agent_go.Errors.{ErrorCode, integrity_failure}
use wazzap_agent_go.Turn.{DeliveryStatus}
use wazzap_agent_go.Strings.{is_blank}
use wazzap_agent_go.Policy.Principal.{is_zero}
use wazzap_agent_go.Agent.Turns.Row.{StoredPlan}

pub record InvokeResult : Type 0 where
  pub invocation_id : ℕ
  pub config_version : ℕ
  pub response_id : ℕ
  pub action_id : ℕ
  pub text : Text
  pub delivery : DeliveryStatus

pub record DeliveryResult : Type 0 where
  pub action_id : ℕ
  pub status : DeliveryStatus

-- What was handed to the dispatchers, in order: replies, effects, and the message in which the
-- commands among a plan's effects are reported.
pub data Handed : Type 0 where
  response : ℕ → Handed
  effect : ℕ → Handed
  report : Handed

-- What the dispatchers answer: the reply's, for an action, and the effects' DispatchEffect, for an
-- effect. `takes_batches` is whether the latter has DispatchEffects, as effect.Dispatcher has, and
-- `report_commands` what its report answers to the effects that were handed over, if its commands
-- are a CommandBatcher.
pub record Dispatchers : Type 0 where
  pub respond : ℕ → DeliveryResult × Option ErrorCode
  pub takes_batches : Bool
  pub report_commands : Option (List Handed → Option ErrorCode)
  pub dispatch_effect : ℕ → Option ErrorCode

pub record Dispatched : Type 0 where
  pub handed : List Handed
  pub result : InvokeResult
  pub error : Option ErrorCode

abbrev pub planned_result : StoredPlan → InvokeResult
planned_result plan = record {
  invocation_id = plan.invocation_id;
  config_version = plan.config_version;
  response_id = plan.response_id;
  action_id = plan.action_id;
  text = plan.text;
  delivery = DeliveryStatus.pending;
}

-- A status that a dispatcher may report for a reply.
abbrev pub is_reported : DeliveryStatus → Bool
is_reported DeliveryStatus.not_started = false
is_reported _ = true

-- The effects one by one, up to the first error.
unfoldable pub each_effect : (ℕ → Option ErrorCode) → List ℕ → List Handed × Option ErrorCode
each_effect dispatch [] = ([], none)
each_effect dispatch (id ∷ ids) =
    let (handed, error) = each_effect dispatch ids in
    elim (dispatch id) [
      | some code ↦ (effect id ∷ [], some code)
      | none ↦ (effect id ∷ handed, error)
    ]

-- errors.Join, of which agent.CodeOf reads the first error that carries a code. An error without one,
-- which CodeOf would pass over here, is not told apart.
abbrev pub join : Option ErrorCode → Option ErrorCode → Option ErrorCode
join (some code) other = some code
join none other = other

-- DispatchEffects of effect.Dispatcher, with its deferred report.
unfoldable pub dispatch_effects : Dispatchers → List ℕ → List Handed × Option ErrorCode
unfolding each_effect
dispatch_effects d ids =
    let (handed, error) = each_effect d.dispatch_effect ids in
    elim d.report_commands [
      | none ↦ (handed, error)
      | some answer ↦ (handed ++ report ∷ [], join error (answer handed))
    ]

unfoldable pub all_effects : Dispatchers → List ℕ → List Handed × Option ErrorCode
unfolding each_effect dispatch_effects
all_effects d ids =
    if d.takes_batches then dispatch_effects d ids else each_effect d.dispatch_effect ids

-- The end of dispatchPlan, once the reply is out of the way.
unfoldable pub then_effects : Dispatchers → List Handed → InvokeResult → List ℕ → Dispatched
unfolding all_effects
then_effects d handed result ids =
    let (more, error) = all_effects d ids in
    record { handed = handed ++ more; result = result; error = error }

abbrev stopped : List Handed → InvokeResult → ErrorCode → Dispatched
stopped handed result code = record { handed = handed; result = result; error = some code }

-- What follows the reply dispatcher's answer.
unfoldable pub after_response :
    Dispatchers → StoredPlan → DeliveryResult → Option ErrorCode → Dispatched
unfolding then_effects
after_response d plan delivery error =
    let handed = response plan.action_id ∷ [] in
    let result = planned_result plan in
    let seen = record result { delivery = delivery.status } in
    elim error [
      | some code ↦
          if is_zero delivery.action_id
          then stopped handed result code
          else if not (delivery.action_id == plan.action_id)
          then stopped handed result integrity_failure
          else if not (is_reported delivery.status)
          then stopped handed result integrity_failure
          else stopped handed seen code
      | none ↦
          if not (delivery.action_id == plan.action_id)
          then stopped handed result integrity_failure
          else if not (is_reported delivery.status)
          then stopped handed result integrity_failure
          else then_effects d handed seen plan.effects
    ]

-- An effect-only plan: no text, no response and at least one effect.
unfoldable pub is_effect_only : StoredPlan → Bool
unfolding is_blank
is_effect_only plan =
    is_blank plan.text && is_zero plan.response_id && not (length plan.effects == 0)

unfoldable pub dispatch_plan : Dispatchers → StoredPlan → Dispatched
unfolding is_effect_only after_response then_effects
dispatch_plan d plan =
    let result = planned_result plan in
    let (delivery, error) = d.respond plan.action_id in
    if is_zero plan.action_id
    then (if is_effect_only plan
        then then_effects d [] (record result { delivery = DeliveryStatus.succeeded }) plan.effects
        else stopped [] result integrity_failure)
    else after_response d plan delivery error
