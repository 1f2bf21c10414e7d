-- ===== src/Tests/Gate.antt =====
-- The fixed policy at a concrete chat.
use wazzap_agent_go.Prelude.{
  ◌≤◌, ◌≡◌, ◌↔◌, refl, arith, true, false, ◌==◌, if◌then◌else◌, length, none, some, ok, err, [],
  text,
}
use wazzap_agent_go.Errors.{not_found}
use wazzap_agent_go.Policy.Chat.{group}
use wazzap_agent_go.Policy.Permission.Parser.{PermissionFacts}
use wazzap_agent_go.Policy.Principal.{
  Key, Principal, human, model, message_react, EffectAuthorization,
}
use wazzap_agent_go.Policy.FixedGate.{
  FixedGate, Stores, PermissionConfig, authorize_effect, command_permission_facts,
}
use wazzap_agent_go.Policy.FixedGate.Described.{IsRequest, IsPrincipal, NamesPolicy, Grants}
use wazzap_agent_go.Policy.FixedGate.Authorize.{IsCurrent, authorize_effect_iff}
use wazzap_agent_go.Policy.FixedGate.Facts.{OfKind, Consistent, command_permission_facts-ok}
use wazzap_agent_go.Policy.Trigger.{
  Gate, Message, Snapshot, Memory, max_judged, authorize_invocation, needs_judgment,
}
use wazzap_agent_go.Policy.Trigger.Judged.{
  authorize_invocation-max_judged, authorize_invocation-needs_judgment, authorize_invocation_again,
}

abbrev chat : Key
chat = record { tenant_id = 1; account_id = 2; chat_id = 3 }

abbrev policy : PermissionConfig
policy = record { policy_id = 7; revision = 1; moderation_level = 0 }

abbrev gate : FixedGate
gate = record { policy_id = 7; revision = 1; enabled = true }

-- Only the one chat is allowlisted, and its members are no admins.
abbrev stores : Stores
stores = record {
  load_config = λ key. ok policy;
  is_chat_allowlisted = λ key. ok (key.chat_id == 3);
  read_human_access = λ p.
      (if p.participant_id == 5
        then ok (record { chat_kind = group; allowlisted = true; configured_owner = true })
        else err not_found);
  read_chat_authority = λ p.
      ok (record {
        chat_kind = group;
        actor_is_admin = false;
        bot_is_admin = true;
        observed = true;
      });
}

abbrev bot : Principal
bot = record { kind = model; key = chat; participant_id = 0; lid = 0; invocation_id = 9 }

abbrev owner : Principal
owner = record { kind = human; key = chat; participant_id = 5; lid = 6; invocation_id = 0 }

abbrev reaction : EffectAuthorization
reaction = record { key = chat; principal = bot; capability = message_react }

authorize_effect_iff_example : (authorize_effect gate stores reaction ≡ ok tt) ↔ (
    IsRequest reaction × (true ≡ true) × (IsCurrent gate stores chat × Grants model message_react))
authorize_effect_iff_example = authorize_effect_iff gate stores reaction

abbrev owner_facts : PermissionFacts
owner_facts = record {
  is_owner = true;
  is_admin = false;
  bot_is_admin = true;
  is_group = true;
  is_private = false;
  from_me = false;
}

owner-facts : command_permission_facts gate stores owner policy false ≡ ok owner_facts
unfolding command_permission_facts
owner-facts = refl

command_permission_facts-ok_example :
    (true ≡ true)
    × IsPrincipal owner
    × NamesPolicy gate policy
    × (OfKind human stores owner policy owner_facts × Consistent owner_facts)
command_permission_facts-ok_example =
    command_permission_facts-ok gate stores owner policy false owner_facts owner-facts

abbrev smart : Snapshot
smart = record {
  permission = policy;
  triggers = record {
    mention = true;
    name = false;
    reply = true;
    name_regex = false;
    name_pattern = [];
    smart = true;
  };
}

abbrev judging : Gate
judging = record {
  fixed = gate;
  stores = stores;
  strings = record {
    trim_space = λ t. t;
    contains_folded = λ t n. false;
    match_string = λ p t. none;
  };
  assistant_name = text "wazzap";
  judge = some (λ m. ok true);
}

abbrev message : Message
message = record {
  valid = true;
  key = chat;
  sender_id = 5;
  sender_lid = 6;
  invocation_id = 9;
  chat_kind = group;
  from_me = false;
  mentions_bot = false;
  replied_to_bot = false;
  authored_text = text "hello";
}

abbrev fresh : Memory
fresh = record { judged = []; asked = 0 }

authorize_invocation-max_judged_example :
    length (authorize_invocation judging message smart fresh).1.judged ≤ max_judged
authorize_invocation-max_judged_example =
    authorize_invocation-max_judged judging message smart fresh (omega arith)

authorize_invocation-needs_judgment_example :
    (authorize_invocation judging message smart fresh).1.asked
    ≡ (if needs_judgment judging message smart fresh then 1 else 0)
authorize_invocation-needs_judgment_example =
    authorize_invocation-needs_judgment judging message smart fresh

authorize_invocation_again_example :
    authorize_invocation judging message smart (authorize_invocation judging message smart fresh).1
    ≡ authorize_invocation judging message smart fresh
authorize_invocation_again_example = authorize_invocation_again judging message smart fresh
