-- ===== src/Policy/Trigger.antt =====
-- internal/policy/fixed.go with TriggerConfig of internal/agent/config.go: which messages wake the
-- agent. The gate remembers what the judge said of a message. Concurrent calls are not modelled.
pub mod Judged
use wazzap_agent_go.Prelude.{
  ℕ, suc, ◌+◌, Bool, true, false, not, ◌&&◌, ◌||◌, ◌==◌, leb, if◌then◌else◌, List, [], ◌∷◌, length,
  Option, none, some, Result, ok, err, ◌>>=◌, ◌>>◌, guard, Text, text_eq,
}
use wazzap_agent_go.Errors.{ErrorCode, invalid_argument, permission_denied}
use wazzap_agent_go.Policy.Chat.{ChatKind}
use wazzap_agent_go.Policy.Principal.{
  Key, Principal, human, principal_validate, is_status, is_group_chat,
}
use wazzap_agent_go.Policy.FixedGate.{FixedGate, Stores, PermissionConfig, Verdict, authorize_human}

-- What the gate reads of an IncomingMessage; `valid` is whether its Validate accepts it, and
-- `authored_text` what AuthoredText gives.
pub record Message : Type 0 where
  pub valid : Bool
  pub key : Key
  pub sender_id : ℕ
  pub sender_lid : ℕ
  pub invocation_id : ℕ
  pub chat_kind : ChatKind
  pub from_me : Bool
  pub mentions_bot : Bool
  pub replied_to_bot : Bool
  pub authored_text : Text

pub record TriggerConfig : Type 0 where
  pub mention : Bool
  pub name : Bool
  pub reply : Bool
  pub name_regex : Bool
  pub name_pattern : Text
  pub smart : Bool

-- strings.TrimSpace; strings.Contains after strings.ToLower on both; and the match of a regular
-- expression, if it compiles.
pub record Strings : Type 0 where
  pub trim_space : Text → Text
  pub contains_folded : Text → Text → Bool
  pub match_string : Text → Text → Option Bool

unfoldable pub matches_name : Strings → TriggerConfig → Text → Text → Bool
matches_name strings triggers text assistant_name =
    if triggers.name_regex
    then not (text_eq (strings.trim_space triggers.name_pattern) [])
      && (elim (strings.match_string triggers.name_pattern text) [ none ↦ false | some b ↦ b ])
    else not (text_eq (strings.trim_space assistant_name) [])
      && strings.contains_folded text (strings.trim_space assistant_name)

unfoldable pub matches : Strings → TriggerConfig → Bool → Bool → Text → Text → Bool
unfolding matches_name
matches strings triggers mentions_bot replied_to_bot text assistant_name =
    (triggers.mention && mentions_bot || triggers.reply && replied_to_bot)
    || (triggers.name && matches_name strings triggers text assistant_name)

-- The remembered judgments, newest first, and how often the judge was asked.
pub record Memory : Type 0 where
  pub judged : List (ℕ × Bool)
  pub asked : ℕ

abbrev pub max_judged : ℕ
max_judged = 1024

unfoldable pub lookup : ℕ → List (ℕ × Bool) → Option Bool
lookup id [] = none
lookup id ((other, respond) ∷ judged) = if id == other then some respond else lookup id judged

-- What is fixed while a message is handled. The judge is nil or answers.
pub record Gate : Type 0 where
  pub fixed : FixedGate
  pub stores : Stores
  pub strings : Strings
  pub assistant_name : Text
  pub judge : Option (Message → Result ErrorCode Bool)

pub record Snapshot : Type 0 where
  pub permission : PermissionConfig
  pub triggers : TriggerConfig

abbrev pub other_trigger : Gate → Message → Snapshot → Bool
other_trigger gate message snapshot =
    matches gate.strings snapshot.triggers message.mentions_bot message.replied_to_bot
      message.authored_text gate.assistant_name

-- A failed judgment counts as no response.
abbrev pub response : Result ErrorCode Bool → Bool
response (ok respond) = respond
response (err code) = false

-- The judgment is remembered; a full memory starts anew.
unfoldable pub remember : ℕ → Bool → Memory → Memory
remember id respond memory = record {
  judged = (id, respond) ∷ (if leb max_judged (length memory.judged) then [] else memory.judged);
  asked = suc memory.asked;
}

unfoldable pub ask : Gate → Message → Memory → Bool × Memory
unfolding lookup remember
ask gate message memory = elim gate.judge [
  | none ↦ (false, memory)
  | some judge ↦ elim (lookup message.invocation_id memory.judged) [
    | some respond ↦ (respond, memory)
    | none ↦
        (response (judge message), remember message.invocation_id (response (judge message)) memory)
  ]
]

unfoldable pub triggered : Gate → Message → Snapshot → Memory → Bool × Memory
unfolding ask
triggered gate message snapshot memory =
    if other_trigger gate message snapshot
    then (true, memory)
    else if snapshot.triggers.smart
    then ask gate message memory
    else (false, memory)

abbrev sender : Message → Principal
sender message = record {
  kind = human;
  key = message.key;
  participant_id = message.sender_id;
  lid = message.sender_lid;
  invocation_id = 0;
}

-- HumanPrincipal
unfoldable pub human_principal : Message → Result ErrorCode Principal
unfolding principal_validate
human_principal message =
    let principal = sender message in
    guard message.valid invalid_argument >> principal_validate principal >> ok principal

unfoldable pub authorize_sender : Gate → Message → Snapshot → Verdict
unfolding human_principal authorize_human
authorize_sender gate message snapshot = human_principal message >>= λ principal.
    authorize_human gate.fixed gate.stores principal snapshot.permission false

abbrev pub ineligible : Gate → Message → Bool
ineligible gate message = not gate.fixed.enabled || (message.from_me || is_status message.chat_kind)

abbrev answer : Gate → Message → Snapshot → Bool × Memory → Verdict × Memory
answer gate message snapshot (wakes, memory) =
    (if wakes then authorize_sender gate message snapshot else err permission_denied, memory)

unfoldable pub authorize_invocation : Gate → Message → Snapshot → Memory → Verdict × Memory
unfolding triggered authorize_sender
authorize_invocation gate message snapshot memory =
    if ineligible gate message
    then (err permission_denied, memory)
    else answer gate message snapshot (
        if is_group_chat message.chat_kind
        then triggered gate message snapshot memory
        else (true, memory))

abbrev is_some : {A : Type 0} → Option A → Bool
is_some none = false
is_some (some _) = true

unfoldable pub needs_judgment : Gate → Message → Snapshot → Memory → Bool
unfolding lookup
needs_judgment gate message snapshot memory =
    gate.fixed.enabled
    && (not message.from_me
        && (is_group_chat message.chat_kind
            && (snapshot.triggers.smart
                && (is_some gate.judge
                    && (not (other_trigger gate message snapshot)
                        && not (is_some (lookup message.invocation_id memory.judged)))))))
