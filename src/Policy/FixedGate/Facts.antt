-- ===== src/Policy/FixedGate/Facts.antt =====
-- Which facts a command's permission expression is evaluated on.
use wazzap_agent_go.Prelude.{
  ◌≡◌, ◌⊎◌, inl, inr, refl, subst, arith, Bool, true, false, not, ◌&&◌, ok, guard, bind-ok, then-ok,
  guard-ok, ok_injective,
}
use wazzap_agent_go.Errors.{permission_denied, conflict}
use wazzap_agent_go.Policy.Permission.Parser.{PermissionFacts}
use wazzap_agent_go.Policy.Principal.{
  Principal, PrincipalKind, human, model, system, recovery, unknown_kind, HumanAccess,
  ChatAuthority, authority_validate, principal_validate, is_status, is_group_chat, is_direct_chat,
}
use wazzap_agent_go.Policy.Chat.{direct, group}
use wazzap_agent_go.Policy.FixedGate.Described.{
  IsPrincipal, NamesPolicy, principal_validate_iff, require_policy_iff,
}
use wazzap_agent_go.Policy.FixedGate.{
  FixedGate, Stores, PermissionConfig, require_policy, human_facts, model_facts, facts_by_kind,
  command_permission_facts, human_access, permission_eq,
}

-- The chat is either a group or private, and no one is an admin in private.
abbrev pub Consistent : PermissionFacts → Type 0
Consistent facts =
    (facts.is_group ≡ not facts.is_private)
    × ((facts.is_private ≡ false) ⊎ ((facts.is_admin ≡ false) × (facts.bot_is_admin ≡ false)))

-- The kind of chat and the admin rights of the bot that the group snapshot gives.
abbrev pub Observed : ChatAuthority → PermissionFacts → Type 0
Observed authority facts =
    ((authority.chat_kind ≡ direct) × (facts.is_private ≡ true) × (facts.is_group ≡ false)
      ⊎ (authority.chat_kind ≡ group) × (facts.is_private ≡ false) × (facts.is_group ≡ true))
    × (authority.observed ≡ true)
    × (facts.bot_is_admin ≡ authority.bot_is_admin)

-- A person: not marked as the bot, in a chat that the records call allowlisted and no status, the
-- owner if the records say so, and an admin if the group snapshot of the person says so.
abbrev pub OfHuman : Stores → Principal → PermissionFacts → Type 0
OfHuman stores principal facts =
    (facts.from_me ≡ false)
    × ((access : HumanAccess) × (stores.read_human_access principal ≡ ok access)
        × (access.allowlisted ≡ true)
        × (is_status access.chat_kind ≡ false)
        × (facts.is_owner ≡ access.configured_owner))
    × ((authority : ChatAuthority) × (stores.read_chat_authority principal ≡ ok authority)
        × Observed authority facts
        × (facts.is_admin ≡ authority.actor_is_admin))

-- The model: marked as the bot, in an allowlisted chat whose config is the turn's, with the bot's
-- rights in the group snapshot, and never the owner.
abbrev pub OfModel : Stores → Principal → PermissionConfig → PermissionFacts → Type 0
OfModel stores principal permission facts =
    (facts.from_me ≡ true)
    × (facts.is_owner ≡ false)
    × (stores.load_config principal.key ≡ ok permission)
    × (stores.is_chat_allowlisted principal.key ≡ ok true)
    × ((authority : ChatAuthority) × (stores.read_chat_authority principal ≡ ok authority)
        × Observed authority facts
        × (facts.is_admin ≡ authority.bot_is_admin))

abbrev pub OfKind : PrincipalKind → Stores → Principal → PermissionConfig → PermissionFacts → Type 0
OfKind human stores principal permission facts = OfHuman stores principal facts
OfKind model stores principal permission facts = OfModel stores principal permission facts
OfKind _ stores principal permission facts = ⊥

-- What the snapshot gives, in the facts that the two cases build.
authority-Observed :
    (a : ChatAuthority) (owner admin from_me : Bool)
    → authority_validate a ≡ ok tt
    → (admin ≡ a.actor_is_admin) ⊎ (admin ≡ a.bot_is_admin)
    → let facts : PermissionFacts = record {
      is_owner = owner;
      is_admin = admin;
      bot_is_admin = a.bot_is_admin;
      is_group = is_group_chat a.chat_kind;
      is_private = is_direct_chat a.chat_kind;
      from_me = from_me;
    } in
      Observed a facts × Consistent facts
unfolding authority_validate
authority-Observed a owner admin from_me h e = ground arith

allowlisted-is_status :
    (access : HumanAccess)
    → access.allowlisted && not (is_status access.chat_kind) ≡ true
    → (access.allowlisted ≡ true) × (is_status access.chat_kind ≡ false)
allowlisted-is_status access h = (ground arith, ground arith)

human_access-read :
    (stores : Stores) (principal : Principal) (access : HumanAccess)
    → human_access stores principal ≡ ok access
    → stores.read_human_access principal ≡ ok access
human_access-read stores principal access h = ground arith

permission_eq-same : (a b : PermissionConfig) → permission_eq a b ≡ true → a ≡ b
permission_eq-same a b h = ground arith

human_facts-ok :
    (stores : Stores) (principal : Principal) (from_me : Bool) (facts : PermissionFacts)
    → human_facts stores principal from_me ≡ ok facts
    → OfHuman stores principal facts × Consistent facts
unfolding human_facts
human_facts-ok stores principal from_me facts h =
    let (person, rest) = then-ok (guard (not from_me) permission_denied) _ h in
    let (access, found, rest') = bind-ok (human_access stores principal) _ rest in
    let (valid, rest'') = then-ok _ _ rest' in
    let (admitted, rest''') =
      then-ok (guard (access.allowlisted && not (is_status access.chat_kind)) permission_denied) _
        rest'' in
    let (authority, read, last) = bind-ok (stores.read_chat_authority principal) _ rest''' in
    let (known, same) = then-ok (authority_validate authority) _ last in
    let (listed, no_status) =
      allowlisted-is_status access (guard-ok _ permission_denied admitted) in
    let (seen, sane) =
      authority-Observed authority access.configured_owner authority.actor_is_admin false known
        (inl refl) in
    let read_access = human_access-read stores principal access found in
    subst (λ f. OfHuman stores principal f × Consistent f) (ok_injective same)
      ((refl, (access, read_access, listed, no_status, refl), (authority, read, seen, refl)), sane)

model_facts-ok :
    (stores : Stores) (principal : Principal) (permission : PermissionConfig) (from_me : Bool)
    (facts : PermissionFacts)
    → model_facts stores principal permission from_me ≡ ok facts
    → OfModel stores principal permission facts × Consistent facts
unfolding model_facts
model_facts-ok stores principal permission from_me facts h =
    let (bot, rest) = then-ok (guard from_me permission_denied) _ h in
    let (current, loaded, rest') = bind-ok (stores.load_config principal.key) _ rest in
    let (fresh, rest'') = then-ok (guard (permission_eq current permission) conflict) _ rest' in
    let (allowed, asked, rest''') = bind-ok (stores.is_chat_allowlisted principal.key) _ rest'' in
    let (admitted, more) = then-ok (guard allowed permission_denied) _ rest''' in
    let (authority, read, last) = bind-ok (stores.read_chat_authority principal) _ more in
    let (known, same) = then-ok (authority_validate authority) _ last in
    let listed = guard-ok allowed permission_denied admitted in
    let (seen, sane) =
      authority-Observed authority false authority.bot_is_admin true known (inr refl) in
    let agreed = permission_eq-same current permission (guard-ok _ conflict fresh) in
    subst (λ f. OfModel stores principal permission f × Consistent f) (ok_injective same)
      (
        (
          refl,
          refl,
          subst (λ c. stores.load_config principal.key ≡ ok c) agreed loaded,
          subst (λ b. stores.is_chat_allowlisted principal.key ≡ ok b) listed asked,
          (authority, read, seen, refl),
        ),
        sane,
      )

facts_by_kind-ok :
    (kind : PrincipalKind) (stores : Stores) (principal : Principal) (permission : PermissionConfig)
    (from_me : Bool) (facts : PermissionFacts)
    → facts_by_kind kind stores principal permission from_me ≡ ok facts
    → OfKind kind stores principal permission facts × Consistent facts
unfolding facts_by_kind
facts_by_kind-ok human stores principal permission from_me facts h =
    human_facts-ok stores principal from_me facts h
facts_by_kind-ok model stores principal permission from_me facts h =
    model_facts-ok stores principal permission from_me facts h
facts_by_kind-ok system stores principal permission from_me facts h = cc
facts_by_kind-ok recovery stores principal permission from_me facts h = cc
facts_by_kind-ok (unknown_kind n) stores principal permission from_me facts h = cc

-- When CommandPermissionFacts gives facts, the agent is switched on, the principal is identified as
-- its kind asks, and the command's config is valid and names this policy. A person's facts are not
-- marked as the bot's, its chat is allowlisted and no status, it is the owner as the records say and an
-- admin as the group snapshot says. The model's facts are marked as the bot's, its chat is allowlisted
-- and has the command's config, it is an admin if the bot is one and it is never the owner. The kind of
-- chat and the bot's right are the snapshot's. No other principal gets facts. The chat is either a
-- group or private, and no one is an admin in private.
pub command_permission_facts-ok :
    (gate : FixedGate) (stores : Stores) (principal : Principal) (permission : PermissionConfig)
    (from_me : Bool) (facts : PermissionFacts)
    → command_permission_facts gate stores principal permission from_me ≡ ok facts
    → (gate.enabled ≡ true)
      × IsPrincipal principal
      × NamesPolicy gate permission
      × (OfKind principal.kind stores principal permission facts × Consistent facts)
unfolding command_permission_facts
command_permission_facts-ok gate stores principal permission from_me facts h =
    let (on, rest) = then-ok (guard gate.enabled permission_denied) _ h in
    let (valid, rest') = then-ok (principal_validate principal) _ rest in
    let (policy, last) = then-ok (require_policy gate permission) _ rest' in
    (
      guard-ok gate.enabled permission_denied on,
      (principal_validate_iff principal).0 valid,
      (require_policy_iff gate permission).0 policy,
      facts_by_kind-ok principal.kind stores principal permission from_me facts last,
    )
