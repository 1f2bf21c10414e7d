-- ===== src/Policy/FixedGate.antt =====
-- internal/policy/fixed.go: the one policy of the program. What the stores and the judge answer, the
-- validation of a message and the match of the other triggers are arguments.
pub mod Described
pub mod Authorize
pub mod Facts
use wazzap_agent_go.Prelude.{
  ℕ, Bool, true, false, not, ◌&&◌, ◌||◌, ◌==◌, leb, if◌then◌else◌, List, [], ◌∷◌, length, Option,
  none, some, Result, ok, err, guard, ◌>>=◌, ◌>>◌,
}
use wazzap_agent_go.Errors.{
  ErrorCode, invalid_argument, permission_denied, conflict, integrity_failure, is_not_found,
}
use wazzap_agent_go.Policy.Permission.Parser.{PermissionFacts}
use wazzap_agent_go.Policy.Chat.{ChatKind}
use wazzap_agent_go.Policy.Principal.{
  Key, Principal, PrincipalKind, human, model, system, recovery, unknown_kind, HumanAccess,
  ChatAuthority, Capability, message_react, message_delete, message_sticker, EffectAuthorization,
  authorization_validate, principal_validate, access_validate, authority_validate, is_status,
  is_group_chat, is_direct_chat, is_zero,
}

-- agent.PermissionConfig
pub record PermissionConfig : Type 0 where
  pub policy_id : ℕ
  pub revision : ℕ
  pub moderation_level : ℕ

pub record FixedGate : Type 0 where
  pub policy_id : ℕ
  pub revision : ℕ
  pub enabled : Bool

-- What the stores and the group snapshot answer.
pub record Stores : Type 0 where
  pub load_config : Key → Result ErrorCode PermissionConfig
  pub is_chat_allowlisted : Key → Result ErrorCode Bool
  pub read_human_access : Principal → Result ErrorCode HumanAccess
  pub read_chat_authority : Principal → Result ErrorCode ChatAuthority

abbrev pub Verdict : Type 0
Verdict = Result ErrorCode (Unit {0})

-- PermissionConfig.Validate
abbrev pub permission_valid : PermissionConfig → Bool
permission_valid p = not (is_zero p.policy_id || is_zero p.revision) && leb p.moderation_level 3

unfoldable pub require_policy : FixedGate → PermissionConfig → Verdict
require_policy gate permission =
    guard (permission_valid permission) permission_denied
    >> guard (permission.policy_id == gate.policy_id && permission.revision == gate.revision)
        permission_denied

-- ModelToolCapabilities().Has
abbrev pub model_tool_capability : Capability → Bool
model_tool_capability message_react = true
model_tool_capability message_sticker = true
model_tool_capability _ = false

abbrev pub is_message_delete : Capability → Bool
is_message_delete message_delete = true
is_message_delete _ = false

-- The chat must be allowlisted and its config must name this policy.
unfoldable pub current_policy : FixedGate → Stores → Key → Verdict
unfolding require_policy
current_policy gate stores key = stores.is_chat_allowlisted key >>= λ allowed.
    guard allowed permission_denied
    >> (stores.load_config key >>= λ permission. require_policy gate permission)

unfoldable pub authorize_desktop_effect : FixedGate → Stores → EffectAuthorization → Verdict
unfolding current_policy
authorize_desktop_effect gate stores request =
    guard (is_message_delete request.capability) permission_denied
    >> current_policy gate stores request.key

unfoldable pub authorize_by_kind :
    PrincipalKind → FixedGate → Stores → EffectAuthorization → Verdict
unfolding authorize_desktop_effect current_policy
authorize_by_kind system gate stores request = authorize_desktop_effect gate stores request
authorize_by_kind model gate stores request =
    current_policy gate stores request.key
    >> guard (model_tool_capability request.capability) permission_denied
authorize_by_kind _ gate stores request = err permission_denied

unfoldable pub authorize_effect : FixedGate → Stores → EffectAuthorization → Verdict
unfolding authorization_validate authorize_by_kind
authorize_effect gate stores request =
    authorization_validate request
    >> guard gate.enabled permission_denied
    >> authorize_by_kind request.principal.kind gate stores request

unfoldable pub authorize_send : FixedGate → Stores → Key → Verdict
unfolding current_policy
authorize_send gate stores key =
    guard gate.enabled permission_denied >> current_policy gate stores key

-- A principal that is not found any more is denied.
abbrev pub human_access : Stores → Principal → Result ErrorCode HumanAccess
human_access stores principal = elim (stores.read_human_access principal) [
  | ok access ↦ ok access
  | err code ↦ err (if is_not_found code then permission_denied else code)
]

unfoldable pub authorize_human : FixedGate → Stores → Principal → PermissionConfig → Bool → Verdict
unfolding principal_validate require_policy access_validate
authorize_human gate stores principal permission requires_owner =
    principal_validate principal
    >> require_policy gate permission
    >> (human_access stores principal >>= λ access.
        access_validate access
        >> guard
            (access.allowlisted
              && (not (is_status access.chat_kind)
                  && (not requires_owner || access.configured_owner)))
            permission_denied)

abbrev pub permission_eq : PermissionConfig → PermissionConfig → Bool
permission_eq a b =
    a.policy_id == b.policy_id
    && (a.revision == b.revision && a.moderation_level == b.moderation_level)

-- The first case of CommandPermissionFacts.
unfoldable pub human_facts : Stores → Principal → Bool → Result ErrorCode PermissionFacts
unfolding access_validate authority_validate
human_facts stores principal from_me =
    guard (not from_me) permission_denied
    >> (human_access stores principal >>= λ access.
        (elim (access_validate access) [ ok _ ↦ ok tt | err _ ↦ err integrity_failure ])
        >> guard (access.allowlisted && not (is_status access.chat_kind)) permission_denied
        >> (stores.read_chat_authority principal >>= λ authority.
            authority_validate authority
            >> ok (record {
              is_owner = access.configured_owner;
              is_admin = authority.actor_is_admin;
              bot_is_admin = authority.bot_is_admin;
              is_group = is_group_chat authority.chat_kind;
              is_private = is_direct_chat authority.chat_kind;
              from_me = false;
            })))

-- The second case.
unfoldable pub model_facts :
    Stores → Principal → PermissionConfig → Bool → Result ErrorCode PermissionFacts
unfolding authority_validate
model_facts stores principal permission from_me =
    guard from_me permission_denied
    >> (stores.load_config principal.key >>= λ current.
        guard (permission_eq current permission) conflict
        >> (stores.is_chat_allowlisted principal.key >>= λ allowed.
            guard allowed permission_denied
            >> (stores.read_chat_authority principal >>= λ authority.
                authority_validate authority
                >> ok (record {
                  is_owner = false;
                  is_admin = authority.bot_is_admin;
                  bot_is_admin = authority.bot_is_admin;
                  is_group = is_group_chat authority.chat_kind;
                  is_private = is_direct_chat authority.chat_kind;
                  from_me = true;
                }))))

unfoldable pub facts_by_kind :
    PrincipalKind → Stores → Principal → PermissionConfig → Bool → Result ErrorCode PermissionFacts
unfolding human_facts model_facts
facts_by_kind human stores principal permission from_me = human_facts stores principal from_me
facts_by_kind model stores principal permission from_me =
    model_facts stores principal permission from_me
facts_by_kind _ stores principal permission from_me = err permission_denied

unfoldable pub command_permission_facts :
    FixedGate → Stores → Principal → PermissionConfig → Bool → Result ErrorCode PermissionFacts
unfolding principal_validate require_policy facts_by_kind
command_permission_facts gate stores principal permission from_me =
    guard gate.enabled permission_denied
    >> principal_validate principal
    >> require_policy gate permission
    >> facts_by_kind principal.kind stores principal permission from_me
