-- ===== src/Tests/Config.antt =====
-- Dotenv values at concrete texts.
use wazzap_agent_go.Prelude.{◌≡◌, refl, ok, [], ◌∷◌, Text}
use wazzap_agent_go.Config.DotEnv.{quote_dot_env_value, parse_dot_env_value}
use wazzap_agent_go.Config.DotEnv.RoundTrip.{quote_dot_env_value-parse_dot_env_value}

-- A value with a quote, a backslash, a dollar sign and a line feed.
abbrev value : Text
value = b'a' ∷ b'"' ∷ b'\\' ∷ b'$' ∷ b'\n' ∷ []

abbrev written : Text
written = b'"' ∷ b'a' ∷ b'\\' ∷ b'"' ∷ b'\\' ∷ b'\\' ∷ b'\\' ∷ b'$' ∷ b'\\' ∷ b'n' ∷ b'"' ∷ []

value-written : quote_dot_env_value value ≡ ok written
unfolding quote_dot_env_value
value-written = refl

quote_dot_env_value-parse_dot_env_value_example : parse_dot_env_value written ≡ ok value
quote_dot_env_value-parse_dot_env_value_example =
    quote_dot_env_value-parse_dot_env_value value written value-written
