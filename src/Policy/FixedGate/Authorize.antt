-- ===== src/Policy/FixedGate/Authorize.antt =====
-- What the policy authorizes, written out as conditions.
use wazzap_agent_go.Prelude.{
  ◌≡◌, ◌↔◌, refl, true, ok, guard, bind-ok, then-ok, guard-ok, ok-then, ok-guard, subst,
}
use wazzap_agent_go.Errors.{permission_denied}
use wazzap_agent_go.Policy.Principal.{
  Key, PrincipalKind, human, model, system, recovery, unknown_kind, EffectAuthorization,
  authorization_validate,
}
use wazzap_agent_go.Policy.FixedGate.Described.{
  IsRequest, NamesPolicy, Grants, require_policy_iff, model_tool_capability_iff,
  is_message_delete_iff, authorization_validate-ok, ok-authorization_validate,
}
use wazzap_agent_go.Policy.FixedGate.{
  FixedGate, Stores, PermissionConfig, current_policy, authorize_desktop_effect, authorize_by_kind,
  authorize_effect, authorize_send, model_tool_capability, is_message_delete,
}

-- The stores say that the chat is allowlisted and that its config names the gate's policy.
abbrev pub IsCurrent : FixedGate → Stores → Key → Type 0
IsCurrent gate stores key =
    (stores.is_chat_allowlisted key ≡ ok true)
    × ((permission : PermissionConfig) × (stores.load_config key ≡ ok permission)
        × NamesPolicy gate permission)

current_policy-ok :
    (gate : FixedGate) (stores : Stores) (key : Key)
    → current_policy gate stores key ≡ ok tt
    → IsCurrent gate stores key
unfolding current_policy
current_policy-ok gate stores key h =
    let (allowed, e, rest) = bind-ok (stores.is_chat_allowlisted key) _ h in
    let (admitted, config) = then-ok (guard allowed permission_denied) _ rest in
    let (permission, l, r) = bind-ok (stores.load_config key) _ config in
    let on = guard-ok allowed permission_denied admitted in
    (
      subst (λ b. stores.is_chat_allowlisted key ≡ ok b) on e,
      (permission, l, (require_policy_iff gate permission).0 r),
    )

ok-current_policy :
    (gate : FixedGate) (stores : Stores) (key : Key)
    → IsCurrent gate stores key
    → current_policy gate stores key ≡ ok tt
unfolding current_policy
ok-current_policy gate stores key (a, (permission, l, n)) =
    let r = (require_policy_iff gate permission).1 n in rw (a, l, r) refl

-- Sending to a chat is authorized exactly when the agent is switched on, the chat is allowlisted and
-- its current config names this policy and revision.
pub authorize_send_iff :
    (gate : FixedGate) (stores : Stores) (key : Key)
    → (authorize_send gate stores key ≡ ok tt) ↔ ((gate.enabled ≡ true) × IsCurrent gate stores key)
unfolding authorize_send
authorize_send_iff gate stores key = (
  λ h.
      let (on, current) = then-ok (guard gate.enabled permission_denied) _ h in
      (guard-ok gate.enabled permission_denied on, current_policy-ok gate stores key current),
  λ (on, current).
      ok-then (ok-guard permission_denied on) (ok-current_policy gate stores key current),
)

by_kind-ok :
    (kind : PrincipalKind) (gate : FixedGate) (stores : Stores) (request : EffectAuthorization)
    → authorize_by_kind kind gate stores request ≡ ok tt
    → IsCurrent gate stores request.key × Grants kind request.capability
unfolding authorize_by_kind authorize_desktop_effect
by_kind-ok model gate stores request h =
    let (current, granted) = then-ok (current_policy gate stores request.key) _ h in
    (
      current_policy-ok gate stores request.key current,
      (model_tool_capability_iff request.capability).0
          (guard-ok (model_tool_capability request.capability) permission_denied granted),
    )
by_kind-ok system gate stores request h =
    let (granted, current) =
      then-ok (guard (is_message_delete request.capability) permission_denied) _ h in
    (
      current_policy-ok gate stores request.key current,
      (is_message_delete_iff request.capability).0
          (guard-ok (is_message_delete request.capability) permission_denied granted),
    )
by_kind-ok human gate stores request h = cc
by_kind-ok recovery gate stores request h = cc
by_kind-ok (unknown_kind n) gate stores request h = cc

ok-by_kind :
    (kind : PrincipalKind) (gate : FixedGate) (stores : Stores) (request : EffectAuthorization)
    → IsCurrent gate stores request.key × Grants kind request.capability
    → authorize_by_kind kind gate stores request ≡ ok tt
unfolding authorize_by_kind authorize_desktop_effect
ok-by_kind model gate stores request (c, g) =
    let tool = (model_tool_capability_iff request.capability).1 g in
    rw (ok-current_policy gate stores request.key c, tool) refl
ok-by_kind system gate stores request (c, g) =
    rw (g, ok-current_policy gate stores request.key c) refl
ok-by_kind human gate stores request (c, g) = absurd g
ok-by_kind recovery gate stores request (c, g) = absurd g
ok-by_kind (unknown_kind n) gate stores request (c, g) = absurd g

-- An effect is authorized exactly when its key is set, its principal is identified as its kind asks
-- and acts in the key's chat, the agent is switched on, the chat is allowlisted, its current config is
-- valid and names this policy and revision, and the capability is to react or to send a sticker
-- for a model's principal, or to delete a message for the desktop's. Every other principal is refused.
pub authorize_effect_iff :
    (gate : FixedGate) (stores : Stores) (request : EffectAuthorization)
    → (authorize_effect gate stores request ≡ ok tt) ↔ (
        IsRequest request
        × (gate.enabled ≡ true)
        × (IsCurrent gate stores request.key × Grants request.principal.kind request.capability))
unfolding authorize_effect
authorize_effect_iff gate stores request =
    let kind = request.principal.kind in
    (
      λ h.
          let (valid, rest) = then-ok (authorization_validate request) _ h in
          let (on, by_kind) = then-ok (guard gate.enabled permission_denied) _ rest in
          (
            authorization_validate-ok request valid,
            guard-ok gate.enabled permission_denied on,
            by_kind-ok kind gate stores request by_kind,
          ),
      λ (valid, on, granted).
          ok-then (ok-authorization_validate request valid granted.1)
            (ok-then (ok-guard permission_denied on) (ok-by_kind kind gate stores request granted)),
    )
