-- ===== src/Command/Registry.antt =====
-- internal/command/registry.go: the registry of commands. A map is an association list. The
-- strings.TrimSpace and strings.ToLower of Go, and what a command does when it runs, are arguments.
pub mod Find
pub mod Ready
pub mod Dispatch
use wazzap_agent_go.Prelude.{
  ℕ, Bool, true, false, not, ◌&&◌, ◌||◌, ◌==◌, leb, if◌then◌else◌, List, [], ◌∷◌, map, length,
  Option, none, some, Result, ok, err, guard, ◌>>=◌, ◌>>◌, Text, text_eq,
}
use wazzap_agent_go.Errors.{
  ErrorCode, invalid_argument, conflict, integrity_failure, permission_denied,
}
use wazzap_agent_go.Policy.Permission.Parser.{
  PermissionFacts, evaluate_permission, validate_permission,
}

abbrev is_lower : ℕ → Bool
is_lower c = leb b'a' c && leb c b'z'

abbrev is_token_byte : ℕ → Bool
is_token_byte c = is_lower c || (leb b'0' c && leb c b'9' || c == b'-')

unfoldable pub all_token_bytes : Text → Bool
all_token_bytes [] = true
all_token_bytes (c ∷ s) = is_token_byte c && all_token_bytes s

-- tokenPattern: ^[a-z][a-z0-9-]{0,62}$
unfoldable pub token_pattern : Text → Bool
unfolding all_token_bytes
token_pattern [] = false
token_pattern (c ∷ s) = is_lower c && (all_token_bytes s && leb (length s) 62)

pub record Strings : Type 0 where
  pub trim_space : Text → Text
  pub to_lower : Text → Text

-- `has_run` is whether Run is set.
pub record Command : Type 0 where
  pub name : Text
  pub aliases : List Text
  pub permission : Text
  pub has_run : Bool

-- What a map gives for a missing name.
abbrev pub zero_command : Command
zero_command = record { name = []; aliases = []; permission = []; has_run = false }

pub record Registry : Type 0 where
  pub commands : List (Text × Command)
  pub tokens : List (Text × Text)

pub record Request : Type 0 where
  pub name : Text
  pub arguments : Text
  pub arguments_present : Bool

unfoldable pub find : {A : Type 0} → Text → List (Text × A) → Option A
find key [] = none
find key ((k, a) ∷ entries) = if text_eq key k then some a else find key entries

abbrev pub command_at : Text → List (Text × Command) → Command
command_at name commands = elim (find name commands) [ none ↦ zero_command | some cmd ↦ cmd ]

abbrev is_absent : Option Text → Bool
is_absent none = true
is_absent (some _) = false

module _ (strings : Strings) where
  abbrev pub normalize : Text → Text
  normalize token = strings.to_lower (strings.trim_space token)

  -- The loop over a command's name and aliases.
  unfoldable pub register_tokens :
      Text → List Text → List (Text × Text) → Result ErrorCode (List (Text × Text))
  unfolding token_pattern find
  register_tokens name [] tokens = ok tokens
  register_tokens name (token ∷ more) tokens =
      guard (token_pattern (normalize token)) invalid_argument
      >> guard (is_absent (find (normalize token) tokens)) conflict
      >> register_tokens name more ((normalize token, name) ∷ tokens)

  abbrev pub registered : Command → Command
  registered cmd = record {
    name = cmd.name;
    aliases = map normalize cmd.aliases;
    permission = strings.trim_space cmd.permission;
    has_run = cmd.has_run;
  }

  -- ValidatePermission with its error as an invalid argument.
  abbrev pub check_permission : Text → Result ErrorCode (Unit {0})
  check_permission permission = elim (validate_permission permission) [
    | ok _ ↦ ok tt
    | err _ ↦ err invalid_argument
  ]

  -- The loop of NewRegistry.
  unfoldable pub register_all : List Command → Registry → Result ErrorCode Registry
  unfolding register_tokens token_pattern
  register_all [] registry = ok registry
  register_all (cmd ∷ cmds) registry =
      guard
        (token_pattern cmd.name
          && (cmd.has_run && not (text_eq (strings.trim_space cmd.permission) [])))
        invalid_argument
      >> check_permission (strings.trim_space cmd.permission)
      >> (register_tokens cmd.name (cmd.name ∷ cmd.aliases) registry.tokens >>= λ tokens.
          register_all cmds
            (record { commands = (cmd.name, registered cmd) ∷ registry.commands; tokens = tokens }))

  abbrev pub empty_registry : Registry
  empty_registry = record { commands = []; tokens = [] }

  unfoldable pub new_registry : List Command → Result ErrorCode Registry
  unfolding register_all
  new_registry [] = err invalid_argument
  new_registry (cmd ∷ cmds) = register_all (cmd ∷ cmds) empty_registry

  -- strings.Cut at the first space: what stands before, what after, and whether there was one.
  unfoldable pub cut : Text → Text × Text × Bool
  cut [] = ([], [], false)
  cut (c ∷ s) =
      let (before, after, found) = cut s in
      if c == b' ' then ([], s, true) else (c ∷ before, after, found)

  -- Parse on the text after the slash.
  unfoldable pub parse_token : Registry → Text → Option (Request × Command)
  unfolding cut find
  parse_token registry text =
      let (token, arguments, present) = cut text in
      elim (find (normalize token) registry.tokens) [
        | none ↦ none
        | some name ↦ some (
          record { name = name; arguments = arguments; arguments_present = present },
          command_at name registry.commands,
        )
      ]

  unfoldable pub parse : Registry → Text → Option (Request × Command)
  unfolding parse_token
  parse registry [] = none
  parse registry (c ∷ text) = if c == b'/' then parse_token registry text else none

  unfoldable pub lookup : Registry → Text → Result ErrorCode Command
  unfolding find
  lookup registry name = elim (find (normalize name) registry.tokens) [
    | none ↦ err integrity_failure
    | some canonical ↦ ok (command_at canonical registry.commands)
  ]

  -- EvaluatePermission with its error as an integrity failure.
  abbrev pub evaluate : Text → PermissionFacts → Result ErrorCode Bool
  evaluate permission facts = elim (evaluate_permission permission facts) [
    | ok allowed ↦ ok allowed
    | err _ ↦ err integrity_failure
  ]

  unfoldable pub allows : Registry → Request → PermissionFacts → Result ErrorCode Bool
  unfolding lookup
  allows registry request facts =
      lookup registry request.name >>= λ cmd. evaluate cmd.permission facts

  -- What Run answers, and what marking the message as handled answers, if there is a store.
  pub record Invocation : Type 0 where
    pub facts : PermissionFacts
    pub run : Command → Request → Option ErrorCode
    pub mark_handled : Option (Option ErrorCode)

  -- Whether the command ran, whether the message was marked, and the error.
  pub record Outcome : Type 0 where
    pub ran : Bool
    pub marked : Bool
    pub error : Option ErrorCode

  abbrev pub stopped : ErrorCode → Outcome
  stopped code = record { ran = false; marked = false; error = some code }

  unfoldable pub run_command : Command → Request → Invocation → Outcome
  run_command cmd request invocation = elim (invocation.run cmd request) [
    | some code ↦ record { ran = true; marked = false; error = some code }
    | none ↦ elim invocation.mark_handled [
      | none ↦ record { ran = true; marked = false; error = none }
      | some result ↦ record { ran = true; marked = true; error = result }
    ]
  ]

  unfoldable pub dispatch : Registry → Request → Invocation → Outcome
  unfolding lookup allows run_command
  dispatch registry request invocation = elim (lookup registry request.name) [
    | err code ↦ stopped code
    | ok cmd ↦ elim (allows registry request invocation.facts) [
      | err code ↦ stopped code
      | ok allowed ↦
          if allowed then run_command cmd request invocation else stopped permission_denied
    ]
  ]
