-- ===== src/Command/Registry/Ready.antt =====
-- A registry that was built answers every request that it recognizes.
use wazzap_agent_go.Prelude.{
  ◌≡◌, inl, inr, sym, ◌∙◌, ap, arith, Bool, true, ◌&&◌, ◌==◌, Bool-cases, Option-cases,
  Result-cases, List, [], ◌∷◌, some, ok, guard, then-ok, bind-ok, guard-ok, ok_injective, subst,
  Text, text_eq, text_eq_iff,
}
use wazzap_agent_go.Errors.{invalid_argument}
use wazzap_agent_go.Policy.Permission.Parser.{
  PermissionFacts, evaluate_permission, validate_permission,
}
use wazzap_agent_go.Policy.Permission.Correct.{validate_permission-eq-ok_iff}
use wazzap_agent_go.Command.Registry.{
  Strings, Command, Registry, Request, command_at, empty_registry, find, normalize, token_pattern,
  registered, check_permission, register_tokens, register_all, new_registry, cut, parse_token,
  parse, lookup, allows,
}
use wazzap_agent_go.Command.Registry.Find.{
  find-here, find-there, register_tokens-Extends, register_tokens-first,
}

and-left : (a b : Bool) → a && b ≡ true → a ≡ true
and-left a b h = ground arith

module _ (strings : Strings)
    (normal : (t : Text) → token_pattern t ≡ true → normalize strings t ≡ t) where
  -- A name that the tokens give is a token of itself, and its command has a permission that passed
  -- the validation.
  record Ready (registry : Registry) (n : Text) : Type 0 where
    itself : find n registry.tokens ≡ some n
    shaped : token_pattern n ≡ true
    command : Command
    there : find n registry.commands ≡ some command
    valid : validate_permission command.permission ≡ ok tt

  AllReady : Registry → Type 0
  AllReady registry = (t n : Text) → find t registry.tokens ≡ some n → Ready registry n

  empty-AllReady : AllReady (empty_registry strings)
  unfolding AllReady find
  empty-AllReady t n h = cc

  check_permission-ok :
      (permission : Text)
      → check_permission strings permission ≡ ok tt
      → validate_permission permission ≡ ok tt
  check_permission-ok permission h = elim (Result-cases (validate_permission permission)) [
    | inl (u, e) ↦ e
    | inr (f, e) ↦ absurd (ground arith)
  ]

  module _ (registry : Registry) (cmd : Command) (tokens : List (Text × Text))
      (shaped : token_pattern cmd.name ≡ true)
      (valid : validate_permission (strings.trim_space cmd.permission) ≡ ok tt)
      (taken : register_tokens strings cmd.name (cmd.name ∷ cmd.aliases) registry.tokens
        ≡ ok tokens) where
    abbrev after : Registry
    after = record {
      commands = (cmd.name, registered strings cmd) ∷ registry.commands;
      tokens = tokens;
    }

    new-Ready : Ready after cmd.name
    new-Ready =
        let first =
          register_tokens-first strings cmd.name cmd.name cmd.aliases registry.tokens tokens
            taken in
        record {
          itself = subst (λ t. find t tokens ≡ some cmd.name) (normal cmd.name shaped) first;
          shaped = shaped;
          command = registered strings cmd;
          there = find-here cmd.name (registered strings cmd) registry.commands;
          valid = valid;
        }

    old-Ready : (n : Text) → Ready registry n → Ready after n
    old-Ready n r =
        let more =
          register_tokens-Extends strings cmd.name (cmd.name ∷ cmd.aliases) registry.tokens tokens
            taken in
        elim (Bool-cases (text_eq n cmd.name)) [
          | inl same ↦ subst (Ready after) (sym ((text_eq_iff n cmd.name).0 same)) new-Ready
          | inr different ↦ record {
            itself = more.kept n n r.itself;
            shaped = r.shaped;
            command = r.command;
            there =
                find-there n cmd.name (registered strings cmd) registry.commands different
                ∙ r.there;
            valid = r.valid;
          }
        ]

    after-AllReady : AllReady registry → AllReady after
    unfolding AllReady
    after-AllReady all t n h =
        let more =
          register_tokens-Extends strings cmd.name (cmd.name ∷ cmd.aliases) registry.tokens tokens
            taken in
        elim (more.named t n h) [
          | inl same ↦ subst (Ready after) (sym same) new-Ready
          | inr before ↦ old-Ready n (all t n before)
        ]

  register_all-AllReady :
      (cmds : List Command) (registry built : Registry)
      → AllReady registry
      → register_all strings cmds registry ≡ ok built
      → AllReady built
  unfolding register_all
  register_all-AllReady [] registry built all h = subst AllReady (ok_injective h) all
  register_all-AllReady (cmd ∷ cmds) registry built all h =
      let (usable, rest) = then-ok (guard _ invalid_argument) _ h in
      let (checked, rest') =
        then-ok (check_permission strings (strings.trim_space cmd.permission)) _ rest in
      let (tokens, taken, last) =
        bind-ok (register_tokens strings cmd.name (cmd.name ∷ cmd.aliases) registry.tokens) _
          rest' in
      let shaped = and-left _ _ (guard-ok _ invalid_argument usable) in
      register_all-AllReady cmds _ built
        (after-AllReady registry cmd tokens shaped (check_permission-ok _ checked) taken all) last

  new_registry-AllReady :
      (cmds : List Command) (built : Registry)
      → new_registry strings cmds ≡ ok built
      → AllReady built
  unfolding new_registry
  new_registry-AllReady [] built h = cc
  new_registry-AllReady (cmd ∷ cmds) built h =
      register_all-AllReady (cmd ∷ cmds) (empty_registry strings) built empty-AllReady h

  parse_token-named :
      (registry : Registry) (text : Text) (request : Request) (cmd : Command)
      → parse_token strings registry text ≡ some (request, cmd)
      → (find (normalize strings (cut strings text).0) registry.tokens ≡ some request.name)
        × (cmd ≡ command_at request.name registry.commands)
  unfolding parse_token
  parse_token-named registry text request cmd h =
      elim (Option-cases (find (normalize strings (cut strings text).0) registry.tokens)) [
        | inl missing ↦ absurd (ground arith)
        | inr (name, e) ↦ (ground arith, ground arith)
      ]

  parse-named :
      (registry : Registry) (text : Text) (request : Request) (cmd : Command)
      → parse strings registry text ≡ some (request, cmd)
      → (t : Text) × (find t registry.tokens ≡ some request.name)
        × (cmd ≡ command_at request.name registry.commands)
  unfolding parse
  parse-named registry [] request cmd h = cc
  parse-named registry (c ∷ text) request cmd h = elim (Bool-cases (c == b'/')) [
    | inl slash ↦
        let (named, same) = parse_token-named registry text request cmd (ground arith) in
        (normalize strings (cut strings text).0, named, same)
    | inr plain ↦ absurd (ground arith)
  ]

  lookup-Ready :
      (registry : Registry) (n : Text)
      → Ready registry n
      → lookup strings registry n ≡ ok (command_at n registry.commands)
  unfolding lookup
  lookup-Ready registry n r =
      let named = subst (λ t. find t registry.tokens ≡ some n) (sym (normal n r.shaped)) r.itself in
      ground arith

  command_at-Ready :
      (registry : Registry) (n : Text) (r : Ready registry n)
      → command_at n registry.commands ≡ r.command
  command_at-Ready registry n r = let there = r.there in ground arith

  evaluate_found :
      (registry : Registry) (request : Request) (facts : PermissionFacts) (cmd : Command)
      (permission : Text) (allowed : Bool)
      → lookup strings registry request.name ≡ ok cmd
      → cmd.permission ≡ permission
      → evaluate_permission permission facts ≡ ok allowed
      → allows strings registry request facts ≡ ok allowed
  unfolding allows
  evaluate_found registry request facts cmd permission allowed found same e =
      let e' = subst (λ p. evaluate_permission p facts ≡ ok allowed) (sym same) e in ground arith

  allows-Ready :
      (registry : Registry) (request : Request) (facts : PermissionFacts)
      → Ready registry request.name
      → (allowed : Bool) × (allows strings registry request facts ≡ ok allowed)
  allows-Ready registry request facts r =
      let (allowed, e) = (validate_permission-eq-ok_iff r.command.permission facts).0 r.valid in
      let found = lookup-Ready registry request.name r in
      let same = ap (λ (c : Command). c.permission) (command_at-Ready registry request.name r) in
      (allowed, evaluate_found registry request facts _ _ allowed found same e)

  -- In a registry that was built, where trimming and lowering leave a well-formed token as it is, a
  -- request that Parse recognized is found again under its name, with the command that Parse gave,
  -- and its permission evaluates to a verdict, whatever the facts.
  pub parse-allows :
      (cmds : List Command) (registry : Registry) (text : Text) (request : Request) (cmd : Command)
      (facts : PermissionFacts)
      → new_registry strings cmds ≡ ok registry
      → parse strings registry text ≡ some (request, cmd)
      → (lookup strings registry request.name ≡ ok cmd)
        × ((allowed : Bool) × (allows strings registry request facts ≡ ok allowed))
  unfolding AllReady
  parse-allows cmds registry text request cmd facts built parsed =
      let (t, named, same) = parse-named registry text request cmd parsed in
      let ready = new_registry-AllReady cmds registry built t request.name named in
      (
        lookup-Ready registry request.name ready ∙ ap (λ c. ok c) (sym same),
        allows-Ready registry request facts ready,
      )
