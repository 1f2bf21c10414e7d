-- ===== src/Tests/Command.antt =====
-- The registry at concrete commands.
use wazzap_agent_go.Prelude.{
  ◌≡◌, ◌↔◌, ◌⊎◌, refl, arith, Bool, true, ◌∷◌, [], none, some, Option, ok, Text, text, text_eq,
  to_lower,
}
use wazzap_agent_go.Errors.{ErrorCode}
use wazzap_agent_go.Policy.Permission.Parser.{
  no_facts, validate_permission, evaluate_permission, evaluate_tokens, parse_or,
  resolve_permission_atom, expect_end,
}
use wazzap_agent_go.Policy.Permission.Token.{
  tokenize_permission, tokenize_from, is_identifier_start, is_identifier_part, scan_identifier,
  word_token,
}
use wazzap_agent_go.Utf8.{decode_rune, is_space}
use wazzap_agent_go.Command.Registry.{
  Strings, Command, Registry, Request, Invocation, token_pattern, all_token_bytes, normalize,
  new_registry, parse, lookup, allows, dispatch,
}
use wazzap_agent_go.Command.Registry.Ready.{parse-allows}
use wazzap_agent_go.Command.Registry.Dispatch.{Permits, dispatch-permitted_iff}

-- Lowering without trimming.
abbrev strings : Strings
strings = record { trim_space = λ t. t; to_lower = to_lower }

abbrev help : Command
help = record {
  name = text "help";
  aliases = text "H" ∷ [];
  permission = text "public";
  has_run = true;
}

abbrev help_registered : Command
help_registered = record {
  name = text "help";
  aliases = text "h" ∷ [];
  permission = text "public";
  has_run = true;
}

abbrev registry : Registry
registry = record {
  commands = (text "help", help_registered) ∷ [];
  tokens = (text "h", text "help") ∷ (text "help", text "help") ∷ [];
}

abbrev request : Request
request = record { name = text "help"; arguments = text "me"; arguments_present = true }

abbrev invocation : Invocation strings
invocation = record { facts = no_facts; run = λ c r. none; mark_handled = none }

dispatch-permitted_iff_example :
    (((dispatch strings registry request invocation).ran ≡ true)
      ↔ ((cmd : Command) × Permits strings registry (text "help") no_facts cmd))
    × (((dispatch strings registry request invocation).marked ≡ true) ↔ (
        (cmd : Command) × Permits strings registry (text "help") no_facts cmd
        × (invocation.run cmd request ≡ none)
        × ((result : Option ErrorCode) × (invocation.mark_handled ≡ some result))))
    × (((dispatch strings registry request invocation).ran ≡ true)
        ⊎ ((code : ErrorCode) × ((dispatch strings registry request invocation).error ≡ some code)))
dispatch-permitted_iff_example = dispatch-permitted_iff strings registry request invocation

registry_built : new_registry strings (help ∷ []) ≡ ok registry
unfolding new_registry validate_permission text_eq to_lower evaluate_permission tokenize_permission
    tokenize_from decode_rune is_space is_identifier_start scan_identifier is_identifier_part
    evaluate_tokens parse_or word_token resolve_permission_atom expect_end
registry_built = refl

lower-all_token_bytes : (s : Text) → all_token_bytes s ≡ true → to_lower s ≡ s
unfolding all_token_bytes to_lower
lower-all_token_bytes [] h = refl
lower-all_token_bytes (c ∷ s) h = let rest = lower-all_token_bytes s (ground arith) in ground arith

lower-token_pattern : (t : Text) → token_pattern t ≡ true → normalize strings t ≡ t
unfolding token_pattern to_lower
lower-token_pattern [] h = cc
lower-token_pattern (c ∷ s) h = let rest = lower-all_token_bytes s (ground arith) in ground arith

request_parsed : parse strings registry (text "/Help me") ≡ some (request, help_registered)
unfolding parse to_lower text_eq
request_parsed = refl

parse-allows_example :
    (lookup strings registry (text "help") ≡ ok help_registered)
    × ((allowed : Bool) × (allows strings registry request no_facts ≡ ok allowed))
parse-allows_example =
    parse-allows strings lower-token_pattern (help ∷ []) registry (text "/Help me") request
      help_registered no_facts registry_built request_parsed
