-- ===== src/Policy/Principal.antt =====
-- internal/policy/principal.go: who asks, and what is observed of them. An identity is a number, 0
-- being the zero value: identities are only compared.
use wazzap_agent_go.Prelude.{ℕ, Bool, true, false, not, ◌&&◌, ◌||◌, ◌==◌, Result, guard, ◌>>◌}
use wazzap_agent_go.Errors.{ErrorCode, invalid_argument, integrity_failure}
use wazzap_agent_go.Policy.Chat.{ChatKind, direct, group, status, other}

-- agent.Key
pub record Key : Type 0 where
  pub tenant_id : ℕ
  pub account_id : ℕ
  pub chat_id : ℕ

abbrev pub is_zero : ℕ → Bool
is_zero n = n == 0

abbrev pub key_eq : Key → Key → Bool
key_eq a b = a.tenant_id == b.tenant_id && (a.account_id == b.account_id && a.chat_id == b.chat_id)

abbrev pub key_validate : Key → Result ErrorCode (Unit {0})
key_validate key =
    guard (not (is_zero key.tenant_id || (is_zero key.account_id || is_zero key.chat_id)))
      invalid_argument

pub data PrincipalKind : Type 0 where
  human model system recovery : PrincipalKind
  unknown_kind : ℕ → PrincipalKind

pub record Principal : Type 0 where
  pub kind : PrincipalKind
  pub key : Key
  pub participant_id : ℕ
  pub lid : ℕ
  pub invocation_id : ℕ

-- The switch of Validate: which identities go with a kind.
abbrev pub carries : PrincipalKind → Bool → Bool → Bool → Bool
carries human participant lid invocation = participant && lid && not invocation
carries model participant lid invocation = invocation && not participant && not lid
carries recovery participant lid invocation = invocation && not participant && not lid
carries system participant lid invocation = not invocation && not participant && not lid
carries (unknown_kind _) _ _ _ = false

unfoldable pub principal_validate : Principal → Result ErrorCode (Unit {0})
principal_validate p =
    key_validate p.key
    >> guard
        (carries p.kind (not (is_zero p.participant_id)) (not (is_zero p.lid))
          (not (is_zero p.invocation_id)))
        invalid_argument

pub record HumanAccess : Type 0 where
  pub chat_kind : ChatKind
  pub allowlisted : Bool
  pub configured_owner : Bool

abbrev pub is_status : ChatKind → Bool
is_status status = true
is_status _ = false

abbrev pub is_known : ChatKind → Bool
is_known (other _) = false
is_known _ = true

unfoldable pub access_validate : HumanAccess → Result ErrorCode (Unit {0})
access_validate access =
    guard (is_known access.chat_kind) invalid_argument
    >> guard (not (is_status access.chat_kind && (access.allowlisted || access.configured_owner)))
        integrity_failure

-- `observed` is whether ObservedAt is positive.
pub record ChatAuthority : Type 0 where
  pub chat_kind : ChatKind
  pub actor_is_admin : Bool
  pub bot_is_admin : Bool
  pub observed : Bool

abbrev pub is_direct_chat : ChatKind → Bool
is_direct_chat direct = true
is_direct_chat _ = false

abbrev pub is_group_chat : ChatKind → Bool
is_group_chat group = true
is_group_chat _ = false

unfoldable pub authority_validate : ChatAuthority → Result ErrorCode (Unit {0})
authority_validate a =
    guard (is_direct_chat a.chat_kind || is_group_chat a.chat_kind) invalid_argument
    >> guard a.observed invalid_argument
    >> guard (not (is_direct_chat a.chat_kind && (a.actor_is_admin || a.bot_is_admin)))
        integrity_failure

-- agent.Capability
pub data Capability : Type 0 where
  command_execute message_react message_delete message_sticker : Capability
  unknown_capability : ℕ → Capability

abbrev pub capability_valid : Capability → Bool
capability_valid (unknown_capability _) = false
capability_valid _ = true

pub record EffectAuthorization : Type 0 where
  pub key : Key
  pub principal : Principal
  pub capability : Capability

unfoldable pub authorization_validate : EffectAuthorization → Result ErrorCode (Unit {0})
unfolding principal_validate
authorization_validate request =
    key_validate request.key
    >> principal_validate request.principal
    >> guard (key_eq request.principal.key request.key && capability_valid request.capability)
        invalid_argument
