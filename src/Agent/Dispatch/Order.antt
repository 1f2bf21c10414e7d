-- ===== src/Agent/Dispatch/Order.antt =====
-- The reply comes first, and the effects follow in order until one fails.
use mathlib.Core.Option.{some-injective}
use wazzap_agent_go.Prelude.{
  ℕ, ◌==◌, ◌≡◌, ◌≤◌, refl, sym, subst, ◌⊎◌, inl, inr, ◌↔◌, Bool, true, false, if◌then◌else◌, arith,
  List, [], ◌∷◌, ◌++◌, append-nil, length, All, map, Option, none, some,
}
use wazzap_agent_go.Errors.{ErrorCode}
use wazzap_agent_go.Turn.{DeliveryStatus}
use wazzap_agent_go.Strings.{is_blank}
use wazzap_agent_go.Agent.Turns.Row.{StoredPlan}
use wazzap_agent_go.Agent.Dispatch.{
  DeliveryResult, Dispatchers, Handed, response, effect, report, dispatch_effects, join,
  each_effect, all_effects, then_effects, after_response, is_effect_only, is_reported,
  dispatch_plan,
}

-- The effect was dispatched without an error.
abbrev pub Succeeds : (ℕ → Option ErrorCode) → ℕ → Type 0
Succeeds dispatch id = dispatch id ≡ none

-- A status that belongs to a reply.
abbrev pub IsReported : DeliveryStatus → Type 0
IsReported status =
    (status ≡ DeliveryStatus.pending)
    ⊎ (status ≡ DeliveryStatus.succeeded)
    ⊎ (status ≡ DeliveryStatus.failed_terminal)
    ⊎ (status ≡ DeliveryStatus.unknown_outcome)

is_reported_iff : (status : DeliveryStatus) → (is_reported status ≡ true) ↔ IsReported status
is_reported_iff status = ground arith

each_effect-ok_iff :
    (dispatch : ℕ → Option ErrorCode) (ids : List ℕ)
    → ((each_effect dispatch ids).1 ≡ none) ↔ All (Succeeds dispatch) ids
unfolding each_effect
each_effect-ok_iff dispatch [] = ground arith
each_effect-ok_iff dispatch (id ∷ ids) = ground (arith, each_effect-ok_iff dispatch ids)

each_effect-handed :
    (dispatch : ℕ → Option ErrorCode) (ids : List ℕ)
    → All (Succeeds dispatch) ids
    → (each_effect dispatch ids).0 ≡ map effect ids
unfolding each_effect
each_effect-handed dispatch [] h = refl
each_effect-handed dispatch (id ∷ ids) h = ground (arith, each_effect-handed dispatch ids h.1)

-- The reply is out of the way: there is none, the plan having no text and no response but an effect,
-- or its dispatcher reported, without an error, a status of the same action that is a reply's.
abbrev pub IsReplied : Dispatchers → StoredPlan → Type 0
IsReplied d plan =
    (plan.action_id ≡ 0)
      × (is_blank plan.text ≡ true)
      × (plan.response_id ≡ 0)
      × (1 ≤ length plan.effects)
    ⊎ ((1 ≤ plan.action_id)
        × ((d.respond plan.action_id).1 ≡ none)
        × ((d.respond plan.action_id).0.action_id ≡ plan.action_id)
        × IsReported (d.respond plan.action_id).0.status)

-- The commands among the effects are not reported, or their report succeeds.
abbrev pub ReportSucceeds : Dispatchers → List Handed → Type 0
ReportSucceeds d handed =
    (d.takes_batches ≡ false)
    ⊎ (d.report_commands ≡ none)
    ⊎ ((answer : List Handed → Option ErrorCode) × (d.report_commands ≡ some answer)
        × (answer handed ≡ none))

-- The reply of a plan, if it has one, then its effects in order, then the report of their commands, if
-- the dispatcher makes one.
abbrev pub reply_of : StoredPlan → List Handed
reply_of plan = if plan.action_id == 0 then [] else response plan.action_id ∷ []

abbrev pub report_of : Dispatchers → List Handed
report_of d =
    if d.takes_batches then elim d.report_commands [ none ↦ [] | some _ ↦ report ∷ [] ] else []

abbrev pub in_order : Dispatchers → StoredPlan → List Handed
in_order d plan = reply_of plan ++ (map effect plan.effects ++ report_of d)

-- Everything that follows the reply succeeds.
abbrev pub Follows : Dispatchers → List ℕ → Type 0
Follows d ids = All (Succeeds d.dispatch_effect) ids × ReportSucceeds d (map effect ids)

join-none : (a b : Option ErrorCode) → (join a b ≡ none) ↔ ((a ≡ none) × (b ≡ none))
join-none none b = ground arith
join-none (some code) b = ground arith

-- With a report, the effects' own errors and the report's are joined.
reported-ok_iff :
    (dispatch : ℕ → Option ErrorCode) (answer : List Handed → Option ErrorCode) (ids : List ℕ)
    → (join (each_effect dispatch ids).1 (answer (each_effect dispatch ids).0) ≡ none)
      ↔ (All (Succeeds dispatch) ids × (answer (map effect ids) ≡ none))
reported-ok_iff dispatch answer ids =
    let handed = each_effect dispatch ids in
    (
      λ h.
          let (none_failed, told) = (join-none handed.1 (answer handed.0)).0 h in
          let all = (each_effect-ok_iff dispatch ids).0 none_failed in
          (all, subst (λ l. answer l ≡ none) (each_effect-handed dispatch ids all) told),
      λ (all, told). (join-none handed.1 (answer handed.0)).1 (
        (each_effect-ok_iff dispatch ids).1 all,
        subst (λ l. answer l ≡ none) (sym (each_effect-handed dispatch ids all)) told,
      ),
    )

all_effects-ok_iff :
    (d : Dispatchers) (ids : List ℕ) → ((all_effects d ids).1 ≡ none) ↔ Follows d ids
unfolding all_effects dispatch_effects
all_effects-ok_iff d ids = by_case d.respond d.takes_batches d.report_commands d.dispatch_effect
  where
    by_case :
        (respond : ℕ → DeliveryResult × Option ErrorCode) (batches : Bool)
        (answers : Option (List Handed → Option ErrorCode)) (dispatch : ℕ → Option ErrorCode)
        → let d' : Dispatchers = record {
          respond = respond;
          takes_batches = batches;
          report_commands = answers;
          dispatch_effect = dispatch;
        } in
          ((all_effects d' ids).1 ≡ none) ↔ Follows d' ids
    by_case respond false answers dispatch = ground (arith, each_effect-ok_iff dispatch ids)
    by_case respond true none dispatch = ground (arith, each_effect-ok_iff dispatch ids)
    by_case respond true (some answer) dispatch =
        let both = reported-ok_iff dispatch answer ids in
        (
          λ h. let (all, told) = both.0 h in (all, inr (inr (answer, refl, told))),
          λ (all, r). elim r [
            | inl never ↦ cc
            | inr (inl never) ↦ cc
            | inr (inr (other, same, told)) ↦ both.1 (
              all,
              subst (λ a. a (map effect ids) ≡ none) (sym (some-injective answer other same)) told,
            )
          ],
        )

all_effects-handed :
    (d : Dispatchers) (ids : List ℕ)
    → All (Succeeds d.dispatch_effect) ids
    → (all_effects d ids).0 ≡ map effect ids ++ report_of d
unfolding all_effects dispatch_effects
all_effects-handed d ids all =
    by_case d.respond d.takes_batches d.report_commands d.dispatch_effect all
  where
    by_case :
        (respond : ℕ → DeliveryResult × Option ErrorCode) (batches : Bool)
        (answers : Option (List Handed → Option ErrorCode)) (dispatch : ℕ → Option ErrorCode)
        → All (Succeeds dispatch) ids
        → let d' : Dispatchers = record {
          respond = respond;
          takes_batches = batches;
          report_commands = answers;
          dispatch_effect = dispatch;
        } in
          (all_effects d' ids).0 ≡ map effect ids ++ report_of d'
    by_case respond false answers dispatch all =
        rw (append-nil (map effect ids)) (each_effect-handed dispatch ids all)
    by_case respond true none dispatch all =
        rw (append-nil (map effect ids)) (each_effect-handed dispatch ids all)
    by_case respond true (some answer) dispatch all = rw (each_effect-handed dispatch ids all) refl

is_effect_only_iff :
    (plan : StoredPlan)
    → (is_effect_only plan ≡ true)
      ↔ ((is_blank plan.text ≡ true) × (plan.response_id ≡ 0) × (1 ≤ length plan.effects))
unfolding is_effect_only
is_effect_only_iff plan = ground arith

after_response-ok_iff :
    (d : Dispatchers) (plan : StoredPlan) (delivery : DeliveryResult) (error : Option ErrorCode)
    → ((after_response d plan delivery error).error ≡ none) ↔ (
        (error ≡ none)
        × (delivery.action_id ≡ plan.action_id)
        × IsReported delivery.status
        × Follows d plan.effects)
unfolding after_response then_effects
after_response-ok_iff d plan delivery none =
    ground (arith, is_reported_iff delivery.status, all_effects-ok_iff d plan.effects)
after_response-ok_iff d plan delivery (some code) = ground arith

dispatch_plan-error_iff :
    (d : Dispatchers) (plan : StoredPlan)
    → ((dispatch_plan d plan).error ≡ none) ↔ (IsReplied d plan × Follows d plan.effects)
unfolding dispatch_plan then_effects
dispatch_plan-error_iff d plan = ground (
  arith,
  is_effect_only_iff plan,
  all_effects-ok_iff d plan.effects,
  after_response-ok_iff d plan (d.respond plan.action_id).0 (d.respond plan.action_id).1,
)

after_response-handed :
    (d : Dispatchers) (plan : StoredPlan) (delivery : DeliveryResult) (error : Option ErrorCode)
    → error ≡ none
    → delivery.action_id ≡ plan.action_id
    → IsReported delivery.status
    → All (Succeeds d.dispatch_effect) plan.effects
    → (after_response d plan delivery error).handed
      ≡ response plan.action_id ∷ (map effect plan.effects ++ report_of d)
unfolding after_response then_effects
after_response-handed d plan delivery none e same known all =
    let handed = all_effects-handed d plan.effects all in
    let reported = (is_reported_iff delivery.status).1 known in ground (arith)
after_response-handed d plan delivery (some code) e same known all = cc

dispatch_plan-handed :
    (d : Dispatchers) (plan : StoredPlan)
    → IsReplied d plan
    → All (Succeeds d.dispatch_effect) plan.effects
    → (dispatch_plan d plan).handed ≡ in_order d plan
unfolding dispatch_plan then_effects
dispatch_plan-handed d plan (inl (none_planned, blank, unset, some_effect)) all =
    let only = (is_effect_only_iff plan).1 (blank, unset, some_effect) in
    let handed = all_effects-handed d plan.effects all in rw (none_planned, only, handed) refl
dispatch_plan-handed d plan (inr (planned, answered, same, known)) all =
    let handed =
      after_response-handed d plan (d.respond plan.action_id).0 (d.respond plan.action_id).1
        answered same known all in
    ground arith

-- A plan is dispatched without an error exactly when its reply is out of the way, every effect
-- succeeds, and so does the report of their commands, where the dispatcher makes one; and what was
-- handed over is then the reply, if there is one, every effect in the plan's order, and that report.
-- The reply is out of the way when it was reported under its own action with a status and without an
-- error, or when the plan has no action, no text and no response, but an effect.
pub dispatch_plan-ok_iff :
    (d : Dispatchers) (plan : StoredPlan)
    → ((dispatch_plan d plan).error ≡ none) ↔ (
        IsReplied d plan
        × Follows d plan.effects
        × ((dispatch_plan d plan).handed ≡ in_order d plan))
dispatch_plan-ok_iff d plan = (
  λ h.
      let (replied, follows) = (dispatch_plan-error_iff d plan).0 h in
      (replied, follows, dispatch_plan-handed d plan replied follows.0),
  λ (replied, follows, order). (dispatch_plan-error_iff d plan).1 (replied, follows),
)
