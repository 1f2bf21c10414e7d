-- ===== src/Policy/FixedGate/Described.antt =====
-- What the policy asks of a request, a principal and a config, without the code that checks them.
use wazzap_agent_go.Prelude.{◌≤◌, ◌≡◌, ◌⊎◌, ◌↔◌, arith, true, not, ok}
use wazzap_agent_go.Policy.Principal.{
  Key, Principal, PrincipalKind, human, model, system, recovery, unknown_kind, is_zero, carries,
  principal_validate, Capability, command_execute, message_react, message_delete, message_sticker,
  unknown_capability, capability_valid, EffectAuthorization, authorization_validate,
}
use wazzap_agent_go.Policy.FixedGate.{
  FixedGate, PermissionConfig, require_policy, model_tool_capability, is_message_delete,
}

-- Every part of the key is set.
abbrev pub IsKey : Key → Type 0
IsKey key = (1 ≤ key.tenant_id) × (1 ≤ key.account_id) × (1 ≤ key.chat_id)

-- The identities that a principal of each kind has: a person its own two, the model and a recovery
-- the invocation's, the desktop none.
abbrev pub Identified : PrincipalKind → Principal → Type 0
Identified human p = (1 ≤ p.participant_id) × (1 ≤ p.lid) × (p.invocation_id ≡ 0)
Identified model p = (p.participant_id ≡ 0) × (p.lid ≡ 0) × (1 ≤ p.invocation_id)
Identified recovery p = (p.participant_id ≡ 0) × (p.lid ≡ 0) × (1 ≤ p.invocation_id)
Identified system p = (p.participant_id ≡ 0) × (p.lid ≡ 0) × (p.invocation_id ≡ 0)
Identified (unknown_kind _) p = ⊥

abbrev pub IsPrincipal : Principal → Type 0
IsPrincipal p = IsKey p.key × Identified p.kind p

-- The principal acts in the chat of the request.
abbrev pub IsScoped : Key → Key → Type 0
IsScoped a b = (a.tenant_id ≡ b.tenant_id) × (a.account_id ≡ b.account_id) × (a.chat_id ≡ b.chat_id)

-- A config that names the gate's policy and revision, neither of them unset, and a moderation level
-- up to three.
abbrev pub NamesPolicy : FixedGate → PermissionConfig → Type 0
NamesPolicy gate permission =
    (1 ≤ permission.policy_id)
    × (1 ≤ permission.revision)
    × (permission.moderation_level ≤ 3)
    × (permission.policy_id ≡ gate.policy_id)
    × (permission.revision ≡ gate.revision)

Identified-iff :
    (kind : PrincipalKind) (p : Principal)
    → (carries kind
          (not (is_zero p.participant_id))
          (not (is_zero p.lid))
          (not (is_zero p.invocation_id))
        ≡ true)
      ↔ Identified kind p
Identified-iff human p = ground arith
Identified-iff model p = ground arith
Identified-iff recovery p = ground arith
Identified-iff system p = ground arith
Identified-iff (unknown_kind n) p = ground arith

pub principal_validate_iff : (p : Principal) → (principal_validate p ≡ ok tt) ↔ IsPrincipal p
unfolding principal_validate
principal_validate_iff p = ground (arith, Identified-iff p.kind p)

pub require_policy_iff :
    (gate : FixedGate) (permission : PermissionConfig)
    → (require_policy gate permission ≡ ok tt) ↔ NamesPolicy gate permission
unfolding require_policy
require_policy_iff gate permission = ground arith

-- A request of an identified principal about its own chat.
abbrev pub IsRequest : EffectAuthorization → Type 0
IsRequest request =
    IsKey request.key × IsPrincipal request.principal × IsScoped request.principal.key request.key

-- The principals and capabilities that the policy knows: for a model, to react and to send a sticker;
-- for the desktop, to delete a message.
abbrev pub Grants : PrincipalKind → Capability → Type 0
Grants model capability = (capability ≡ message_react) ⊎ (capability ≡ message_sticker)
Grants system capability = capability ≡ message_delete
Grants _ capability = ⊥

pub model_tool_capability_iff :
    (c : Capability)
    → (model_tool_capability c ≡ true) ↔ ((c ≡ message_react) ⊎ (c ≡ message_sticker))
model_tool_capability_iff command_execute = ground arith
model_tool_capability_iff message_react = ground arith
model_tool_capability_iff message_delete = ground arith
model_tool_capability_iff message_sticker = ground arith
model_tool_capability_iff (unknown_capability n) = ground arith

pub is_message_delete_iff : (c : Capability) → (is_message_delete c ≡ true) ↔ (c ≡ message_delete)
is_message_delete_iff c = ground arith

-- A request with what the policy grants has a capability that is known.
Grants-valid : (kind : PrincipalKind) (c : Capability) → Grants kind c → capability_valid c ≡ true
Grants-valid model c g = ground arith
Grants-valid system c g = ground arith
Grants-valid human c g = absurd g
Grants-valid recovery c g = absurd g
Grants-valid (unknown_kind n) c g = absurd g

pub authorization_validate-ok :
    (request : EffectAuthorization) → authorization_validate request ≡ ok tt → IsRequest request
unfolding authorization_validate
authorization_validate-ok request h = ground (arith, principal_validate_iff request.principal)

pub ok-authorization_validate :
    (request : EffectAuthorization)
    → IsRequest request
    → Grants request.principal.kind request.capability
    → authorization_validate request ≡ ok tt
unfolding authorization_validate
ok-authorization_validate request i g =
    let known = Grants-valid request.principal.kind request.capability g in
    ground (arith, principal_validate_iff request.principal)
