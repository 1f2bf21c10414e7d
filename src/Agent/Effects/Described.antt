-- ===== src/Agent/Effects/Described.antt =====
-- A well-formed effect of a model, without the code that checks it.
use wazzap_agent_go.Prelude.{
  ℕ, ◌≤◌, ◌≡◌, ◌⊎◌, ◌↔◌, true, false, arith, List, [], ◌∷◌, All, length, Text, text_eq_iff,
}
use wazzap_agent_go.Utf8.{valid_string}
use wazzap_agent_go.Strings.{is_blank, is_empty, trim_space}
use wazzap_agent_go.Policy.Principal.{
  Capability, command_execute, message_react, message_delete, message_sticker, unknown_capability,
}
use wazzap_agent_go.Agent.Effects.{
  EffectKind, react, run_command, sticker, unknown_kind, EffectIntent, ModelEffect, capability_eq,
  has, sticker_char, all_sticker_chars, valid_sticker_name, intent_fits, effect_validate, granted,
  intent_capability, succeeds, valid_call_id, starts_with_slash,
}

abbrev pub Granted : List Capability → Capability → Type 0
Granted [] wanted = ⊥
Granted (c ∷ cs) wanted = (c ≡ wanted) ⊎ Granted cs wanted

-- A text of at least one and at most so many bytes that is valid UTF-8.
abbrev pub IsShort : ℕ → Text → Type 0
IsShort most s = (1 ≤ length s) × (length s ≤ most) × (valid_string s ≡ true)

-- A lower-case letter, a digit, an underscore or a dash.
abbrev pub IsStickerChar : ℕ → Type 0
IsStickerChar c = (b'a' ≤ c) × (c ≤ b'z') ⊎ (b'0' ≤ c) × (c ≤ b'9') ⊎ (c ≡ b'_') ⊎ (c ≡ b'-')

abbrev pub Begins : ℕ → Text → Type 0
Begins c [] = ⊥
Begins c (d ∷ _) = d ≡ c

-- What an effect of each kind carries, and nothing else: a reaction an emoji and a target, for which
-- the model needs the capability to react; a command its line, trimmed and after a slash; a sticker
-- its name, for which the model needs the capability to send one.
abbrev pub IsIntent : EffectKind → List Capability → EffectIntent → Type 0
IsIntent react capabilities i =
    (1 ≤ i.target_message_id)
    × (is_blank i.emoji ≡ false)
    × (length i.emoji ≤ 64)
    × (valid_string i.emoji ≡ true)
    × (i.command ≡ [])
    × (i.sticker_name ≡ [])
    × Granted capabilities message_react
IsIntent run_command capabilities i =
    (trim_space i.command ≡ i.command)
    × Begins b'/' i.command
    × IsShort 32768 i.command
    × (i.emoji ≡ [])
    × (i.sticker_name ≡ [])
IsIntent sticker capabilities i =
    (1 ≤ length i.sticker_name)
    × (length i.sticker_name ≤ 64)
    × All IsStickerChar i.sticker_name
    × (i.emoji ≡ [])
    × (i.command ≡ [])
    × Granted capabilities message_sticker
IsIntent (unknown_kind _) capabilities i = ⊥

abbrev pub IsEffect : List Capability → ModelEffect → Type 0
IsEffect capabilities e =
    (trim_space e.call_id ≡ e.call_id)
    × IsShort 128 e.call_id
    × IsIntent e.intent.kind capabilities e.intent

capability_eq_iff : (a b : Capability) → (capability_eq a b ≡ true) ↔ (b ≡ a)
capability_eq_iff command_execute b = ground arith
capability_eq_iff message_react b = ground arith
capability_eq_iff message_delete b = ground arith
capability_eq_iff message_sticker b = ground arith
capability_eq_iff (unknown_capability n) b = ground arith

has_iff : (cs : List Capability) (c : Capability) → (has cs c ≡ true) ↔ Granted cs c
unfolding has
has_iff [] c = ground arith
has_iff (x ∷ cs) c = ground (arith, has_iff cs c, capability_eq_iff c x)

sticker_char_iff : (c : ℕ) → (sticker_char c ≡ true) ↔ IsStickerChar c
sticker_char_iff c = ground arith

all_sticker_chars_iff : (s : Text) → (all_sticker_chars s ≡ true) ↔ All IsStickerChar s
unfolding all_sticker_chars
all_sticker_chars_iff [] = ground arith
all_sticker_chars_iff (c ∷ s) = ground (arith, sticker_char_iff c, all_sticker_chars_iff s)

is_empty_iff : (s : Text) → (is_empty s ≡ true) ↔ (s ≡ [])
unfolding is_empty
is_empty_iff [] = ground arith
is_empty_iff (c ∷ s) = ground arith

is_empty-length : (s : Text) → (is_empty s ≡ false) ↔ (1 ≤ length s)
unfolding is_empty
is_empty-length [] = ground arith
is_empty-length (c ∷ s) = ground arith

starts_with_slash_iff : (s : Text) → (starts_with_slash s ≡ true) ↔ Begins b'/' s
starts_with_slash_iff [] = ground arith
starts_with_slash_iff (c ∷ s) = ground arith

valid_sticker_name_iff :
    (s : Text)
    → (valid_sticker_name s ≡ true) ↔ ((1 ≤ length s) × (length s ≤ 64) × All IsStickerChar s)
unfolding valid_sticker_name
valid_sticker_name_iff s = ground (arith, is_empty-length s, all_sticker_chars_iff s)

-- The form and the capability together, by the kind.
IsIntent-iff :
    (kind : EffectKind) (cs : List Capability) (i : EffectIntent)
    → ((intent_fits kind i ≡ true) × (granted cs (intent_capability kind) ≡ true))
      ↔ IsIntent kind cs i
unfolding intent_fits
IsIntent-iff react cs i =
    ground (arith, is_empty_iff i.command, is_empty_iff i.sticker_name, has_iff cs message_react)
IsIntent-iff run_command cs i = ground (
  arith,
  text_eq_iff (trim_space i.command) i.command,
  starts_with_slash_iff i.command,
  is_empty-length i.command,
  is_empty_iff i.emoji,
  is_empty_iff i.sticker_name,
)
IsIntent-iff sticker cs i = ground (
  arith,
  valid_sticker_name_iff i.sticker_name,
  is_empty_iff i.emoji,
  is_empty_iff i.command,
  has_iff cs message_sticker,
)
IsIntent-iff (unknown_kind n) cs i = ground arith

call_id_iff : (id : Text) → (valid_call_id id ≡ true) ↔ ((trim_space id ≡ id) × IsShort 128 id)
call_id_iff id = ground (arith, text_eq_iff (trim_space id) id, is_empty-length id)

pub effect_validate_iff :
    (cs : List Capability) (e : ModelEffect)
    → (succeeds (effect_validate cs e) ≡ true) ↔ IsEffect cs e
unfolding effect_validate
effect_validate_iff cs e =
    ground (arith, call_id_iff e.call_id, IsIntent-iff e.intent.kind cs e.intent)
