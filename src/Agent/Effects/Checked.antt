-- ===== src/Agent/Effects/Checked.antt =====
-- A checked model result described without the loop that checks it.
use wazzap_agent_go.Prelude.{
  ℕ, ◌≤◌, ◌≡◌, refl, ◌⊎◌, ◌↔◌, true, false, arith, List, [], ◌∷◌, All, length, ok, Text, text_eq,
  elem,
}
use wazzap_agent_go.Utf8.{valid_string}
use wazzap_agent_go.Strings.{is_blank}
use wazzap_agent_go.Policy.Principal.{Capability}
use wazzap_agent_go.Agent.Effects.Described.{IsEffect, effect_validate_iff}
use wazzap_agent_go.Agent.Effects.{
  ModelEffect, ModelResult, max_response_bytes, max_model_effects, allowed, validate_effects,
  validate_model_result,
}

abbrev pub OneOf : ℕ → List ℕ → Type 0
OneOf id [] = ⊥
OneOf id (target ∷ targets) = (id ≡ target) ⊎ OneOf id targets

-- No target, or a message that the model was shown.
abbrev pub IsTarget : List ℕ → ℕ → Type 0
IsTarget targets id = (id ≡ 0) ⊎ OneOf id targets

allowed_iff : (targets : List ℕ) (id : ℕ) → (allowed targets id ≡ true) ↔ OneOf id targets
unfolding allowed
allowed_iff [] id = ground arith
allowed_iff (target ∷ targets) id = ground (arith, allowed_iff targets id)

-- An effect of the right form, whose capability was granted and whose target was shown.
abbrev pub IsSafe : List Capability → List ℕ → ModelEffect → Type 0
IsSafe capabilities targets e =
    IsEffect capabilities e × IsTarget targets e.intent.target_message_id

abbrev pub HasOtherId : Text → ModelEffect → Type 0
HasOtherId id e = text_eq e.call_id id ≡ false

abbrev pub Distinct : List ModelEffect → Type 0
Distinct [] = Unit
Distinct (e ∷ es) = All (HasOtherId e.call_id) es × Distinct es

-- None of the effects has a call ID that was seen before.
abbrev IsUnseen : List Text → ModelEffect → Type 0
IsUnseen seen e = elem e.call_id seen ≡ false

IsUnseen-iff :
    (id : Text) (seen : List Text) (es : List ModelEffect)
    → All (IsUnseen (id ∷ seen)) es ↔ (All (HasOtherId id) es × All (IsUnseen seen) es)
unfolding elem
IsUnseen-iff id seen [] = ground arith
IsUnseen-iff id seen (e ∷ es) = ground (arith, IsUnseen-iff id seen es)

pub validate_effects_iff :
    (capabilities : List Capability) (targets : List ℕ) (seen : List Text) (es : List ModelEffect)
    → (validate_effects capabilities targets seen es ≡ ok tt)
      ↔ (All (IsSafe capabilities targets) es × All (IsUnseen seen) es × Distinct es)
unfolding validate_effects
validate_effects_iff capabilities targets seen [] = ground arith
validate_effects_iff capabilities targets seen (e ∷ es) = ground (
  arith,
  effect_validate_iff capabilities e,
  allowed_iff targets e.intent.target_message_id,
  IsUnseen-iff e.call_id seen es,
  validate_effects_iff capabilities targets (e.call_id ∷ seen) es,
)

All-IsUnseen : (es : List ModelEffect) → All (IsUnseen []) es
unfolding elem
All-IsUnseen [] = tt
All-IsUnseen (e ∷ es) = (refl, All-IsUnseen es)

-- A model's result passes the check exactly when its text is valid UTF-8 of at most 16,384 bytes,
-- it has a text, or no reply target and an effect, it has at most eight effects, the reply target
-- and every effect's target was shown to the model, every effect has the right form and a
-- granted capability, and no call ID comes twice.
pub validate_model_result-ok_iff :
    (result : ModelResult) (capabilities : List Capability) (targets : List ℕ)
    → (validate_model_result result capabilities targets ≡ ok tt) ↔ (
        (valid_string result.text ≡ true)
        × ((is_blank result.text ≡ false)
            ⊎ ((1 ≤ length result.effects) × (result.reply_to_message_id ≡ 0)))
        × (length result.text ≤ max_response_bytes)
        × (length result.effects ≤ max_model_effects)
        × IsTarget targets result.reply_to_message_id
        × All (IsSafe capabilities targets) result.effects
        × Distinct result.effects)
unfolding validate_model_result
validate_model_result-ok_iff result capabilities targets = ground (
  arith,
  allowed_iff targets result.reply_to_message_id,
  validate_effects_iff capabilities targets [] result.effects,
  All-IsUnseen result.effects,
)
