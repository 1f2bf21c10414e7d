-- ===== src/Agent/Effects.antt =====
-- internal/agent/types.go and agent.go: what a model may return, and how it is checked before it is
-- planned.
pub mod Described
pub mod Checked
use wazzap_agent_go.Prelude.{
  ℕ, ◌%◌, Bool, true, false, not, ◌&&◌, ◌||◌, ◌==◌, leb, if◌then◌else◌, List, [], ◌∷◌, any, length,
  Option, none, some, Result, ok, err, guard, ◌>>◌, Text, text_eq, elem, map,
}
use wazzap_agent_go.Utf8.{valid_string}
use wazzap_agent_go.Strings.{is_blank, is_empty, trim_space}
use wazzap_agent_go.Errors.{ErrorCode, invalid_argument, permission_denied, provider_failure}
use wazzap_agent_go.Policy.Principal.{
  is_zero, Capability, command_execute, message_react, message_delete, message_sticker,
  unknown_capability,
}

abbrev pub max_input_bytes : ℕ
max_input_bytes = 32768

abbrev pub max_response_bytes : ℕ
max_response_bytes = 16384

abbrev pub max_model_effects : ℕ
max_model_effects = 8

pub data EffectKind : Type 0 where
  react run_command sticker : EffectKind
  unknown_kind : ℕ → EffectKind

pub record EffectIntent : Type 0 where
  pub kind : EffectKind
  pub target_message_id : ℕ
  pub emoji : Text
  pub command : Text
  pub sticker_name : Text

pub record ModelEffect : Type 0 where
  pub call_id : Text
  pub intent : EffectIntent

pub record ModelResult : Type 0 where
  pub text : Text
  pub reply_to_message_id : ℕ
  pub effects : List ModelEffect

abbrev pub Verdict : Type 0
Verdict = Result ErrorCode (Unit {0})

abbrev capability_eq : Capability → Capability → Bool
capability_eq command_execute command_execute = true
capability_eq message_react message_react = true
capability_eq message_delete message_delete = true
capability_eq message_sticker message_sticker = true
capability_eq (unknown_capability m) (unknown_capability n) = m == n
capability_eq _ _ = false

-- CapabilitySet.Has, on the values of the set.
unfoldable pub has : List Capability → Capability → Bool
has values wanted = any (capability_eq wanted) values

abbrev sticker_char : ℕ → Bool
sticker_char c = (leb b'a' c && leb c b'z') || (leb b'0' c && leb c b'9') || c == b'_' || c == b'-'

all_sticker_chars : Text → Bool
all_sticker_chars [] = true
all_sticker_chars (c ∷ s) = sticker_char c && all_sticker_chars s

unfoldable pub valid_sticker_name : Text → Bool
unfolding is_empty all_sticker_chars
valid_sticker_name name = not (is_empty name) && leb (length name) 64 && all_sticker_chars name

-- EffectIntent.Capability: a command needs none.
abbrev pub intent_capability : EffectKind → Option Capability
intent_capability react = some message_react
intent_capability sticker = some message_sticker
intent_capability _ = none

abbrev starts_with_slash : Text → Bool
starts_with_slash [] = false
starts_with_slash (c ∷ _) = c == b'/'

-- EffectIntent.Validate
unfoldable pub intent_fits : EffectKind → EffectIntent → Bool
unfolding is_blank valid_string is_empty trim_space text_eq valid_sticker_name
intent_fits react i =
    not (is_zero i.target_message_id)
    && not (is_blank i.emoji)
    && valid_string i.emoji
    && leb (length i.emoji) 64
    && is_empty i.command
    && is_empty i.sticker_name
intent_fits run_command i =
    text_eq (trim_space i.command) i.command
    && starts_with_slash i.command
    && not (is_empty i.command)
    && leb (length i.command) max_input_bytes
    && valid_string i.command
    && is_empty i.emoji
    && is_empty i.sticker_name
intent_fits sticker i = valid_sticker_name i.sticker_name && is_empty i.emoji && is_empty i.command
intent_fits (unknown_kind _) i = false

abbrev pub intent_validate : EffectIntent → Verdict
intent_validate i = guard (intent_fits i.kind i) invalid_argument

abbrev pub valid_call_id : Text → Bool
valid_call_id id =
    text_eq (trim_space id) id && not (is_empty id) && leb (length id) 128 && valid_string id

-- The capability that an effect needs was granted, or it needs none.
abbrev pub granted : List Capability → Option Capability → Bool
granted capabilities none = true
granted capabilities (some needed) = has capabilities needed

-- ModelEffect.Validate
unfoldable pub effect_validate : List Capability → ModelEffect → Verdict
effect_validate capabilities e =
    guard (valid_call_id e.call_id) invalid_argument
    >> intent_validate e.intent
    >> guard (granted capabilities (intent_capability e.intent.kind)) permission_denied

abbrev pub succeeds : Verdict → Bool
succeeds (ok _) = true
succeeds (err _) = false

-- A message identifier among the ones that a target may name.
unfoldable pub allowed : List ℕ → ℕ → Bool
allowed targets id = any (λ target. id == target) targets

-- The target of a reply or an effect: none, or a supplied message.
abbrev pub target_allowed : List ℕ → ℕ → Bool
target_allowed targets id = is_zero id || allowed targets id

-- The loop over the effects in validateModelResult, with the call IDs seen so far.
unfoldable pub validate_effects : List Capability → List ℕ → List Text → List ModelEffect → Verdict
unfolding effect_validate allowed elem
validate_effects capabilities targets seen [] = ok tt
validate_effects capabilities targets seen (e ∷ es) =
    guard (succeeds (effect_validate capabilities e)) provider_failure
    >> guard (target_allowed targets e.intent.target_message_id) provider_failure
    >> guard (not (elem e.call_id seen)) provider_failure
    >> validate_effects capabilities targets (e.call_id ∷ seen) es

-- validateModelResult, on the messages that the model was shown.
unfoldable pub validate_model_result : ModelResult → List Capability → List ℕ → Verdict
unfolding valid_string is_blank validate_effects allowed
validate_model_result result capabilities targets =
    guard (valid_string result.text) provider_failure
    >> guard (not (is_blank result.text && (length result.effects == 0))) provider_failure
    >> guard (not (is_blank result.text && not (is_zero result.reply_to_message_id)))
        provider_failure
    >> guard (leb (length result.text) max_response_bytes) provider_failure
    >> guard (leb (length result.effects) max_model_effects) provider_failure
    >> guard (target_allowed targets result.reply_to_message_id) provider_failure
    >> validate_effects capabilities targets [] result.effects

-- The transcript number and the message of a history entry.
pub record Shown : Type 0 where
  pub sequence : ℕ
  pub message_id : ℕ

-- formatCompactContextID shows a sequence number modulo a million.
abbrev pub context_id : ℕ → ℕ
context_id n = n % 1000000

-- Writing a key of a Go map.
unfoldable pub assign : ℕ → ℕ → List (ℕ × ℕ) → List (ℕ × ℕ)
assign k v [] = (k, v) ∷ []
assign k v ((k', v') ∷ rest) =
    let written = assign k v rest in if k == k' then (k, v) ∷ rest else (k', v') ∷ written

-- contextMessageMap, added to the map so far.
unfoldable pub context_message_map : List (ℕ × ℕ) → List Shown → List (ℕ × ℕ)
unfolding assign
context_message_map m [] = m
context_message_map m (e ∷ es) =
    context_message_map
      (if not (is_zero e.sequence) && not (is_zero e.message_id)
        then assign (context_id e.sequence) e.message_id m
        else m)
      es

abbrev pub targets_of : List (ℕ × ℕ) → List ℕ
targets_of m = map (λ entry. entry.1) m
