-- ===== src/Config/DotEnv.antt =====
-- internal/config/dotenv.go and dotenv_export.go: the values of a dotenv file, as they are read and
-- as they are written. Texts are bytes.
pub mod RoundTrip
pub mod Writable
use wazzap_agent_go.Utf8.{valid_string}
use wazzap_agent_go.Prelude.{
  ℕ, ◌≡◌, Bool, true, false, ◌||◌, ◌==◌, ltb, List, [], ◌∷◌, ◌++◌, Option, none, some,
  if◌then◌else◌, Result, ok, err, ◌>>=◌, Text,
}

pub data ValueError : Type 0 where
  unterminated_single_quoted unterminated_double_quoted unfinished_escape : ValueError
  not_utf8 null_byte control_character : ValueError

-- Bytes written in front of what the rest of a loop writes.
abbrev pub prepend : Text → Result ValueError Text → Result ValueError Text
prepend s (ok t) = ok (s ++ t)
prepend s (err e) = err e

-- What an escaped byte stands for; an unknown escape is kept with its backslash.
abbrev pub unescaped : ℕ → Text
unescaped c =
    if c == b'\\' || (c == b'"' || c == b'$')
    then c ∷ []
    else if c == b'n'
    then b'\n' ∷ []
    else if c == b'r'
    then b'\r' ∷ []
    else if c == b't'
    then b'\t' ∷ []
    else b'\\' ∷ c ∷ []

-- The loop of unescapeDoubleQuoted, with whether a backslash came just before.
unfoldable pub unescape_from : Bool → Text → Result ValueError Text
unescape_from true [] = err unfinished_escape
unescape_from false [] = ok []
unescape_from true (c ∷ cs) = prepend (unescaped c) (unescape_from false cs)
unescape_from false (c ∷ cs) =
    let rest = unescape_from (c == b'\\') cs in if c == b'\\' then rest else prepend (c ∷ []) rest

unfoldable pub unescape_double_quoted : Text → Result ValueError Text
unfolding unescape_from
unescape_double_quoted value = unescape_from false value

-- What precedes the last byte, and the last byte.
unfoldable pub unsnoc : Text → Option (Text × ℕ)
unsnoc [] = none
unsnoc (c ∷ cs) = elim (unsnoc cs) [
  | none ↦ some ([], c)
  | some (before, last) ↦ some (c ∷ before, last)
]

-- The text before a closing quote.
unfoldable pub closed_by : ℕ → ValueError → Text → Result ValueError Text
unfolding unsnoc
closed_by quote e rest = elim (unsnoc rest) [
  | none ↦ err e
  | some (value, last) ↦ if last == quote then ok value else err e
]

unfoldable pub parse_dot_env_value : Text → Result ValueError Text
unfolding closed_by unescape_double_quoted
parse_dot_env_value [] = ok []
parse_dot_env_value (c ∷ rest) =
    if c == b'\''
    then closed_by b'\'' unterminated_single_quoted rest
    else if c == b'"'
    then (closed_by b'"' unterminated_double_quoted rest >>= λ value. unescape_double_quoted value)
    else ok (c ∷ rest)

-- What one byte of a value is written as.
unfoldable pub quote_byte : ℕ → Result ValueError Text
quote_byte c =
    if c == b'\\' || (c == b'"' || c == b'$')
    then ok (b'\\' ∷ c ∷ [])
    else if c == b'\n'
    then ok (b'\\' ∷ b'n' ∷ [])
    else if c == b'\r'
    then ok (b'\\' ∷ b'r' ∷ [])
    else if c == b'\t'
    then ok (b'\\' ∷ b't' ∷ [])
    else if c == 0
    then err null_byte
    else if ltb c 0x20
    then err control_character
    else ok (c ∷ [])

-- The loop of quoteDotEnvValue, up to the closing quote.
unfoldable pub quote_from : Text → Result ValueError Text
unfolding quote_byte
quote_from [] = ok (b'"' ∷ [])
quote_from (c ∷ cs) = quote_byte c >>= λ s. prepend s (quote_from cs)

unfoldable pub quote_dot_env_value : Text → Result ValueError Text
unfolding valid_string quote_from
quote_dot_env_value value =
    if valid_string value then prepend (b'"' ∷ []) (quote_from value) else err not_utf8
