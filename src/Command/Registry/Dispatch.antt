-- ===== src/Command/Registry/Dispatch.antt =====
-- When a command runs.
use wazzap_agent_go.Prelude.{
  ◌≡◌, ◌↔◌, ◌⊎◌, inl, inr, refl, sym, subst, arith, Bool, true, false, Bool-cases, [], ◌∷◌, ◌++◌,
  Option, none, some, Option-cases, Result-cases, ok, Text,
}
use wazzap_agent_go.Errors.{ErrorCode, integrity_failure, permission_denied}
use wazzap_agent_go.Policy.Permission.Token.{tokenize_permission, eof}
use wazzap_agent_go.Policy.Permission.Parser.{PermissionFacts, evaluate_permission}
use wazzap_agent_go.Policy.Permission.Grammar.{Or, emit_or, denote_or}
use wazzap_agent_go.Policy.Permission.Correct.{evaluate_permission-eq-ok_iff}
use wazzap_agent_go.Command.Registry.{
  Strings, Command, Registry, Request, Invocation, Outcome, stopped, find, normalize, command_at,
  lookup, allows, run_command, dispatch,
}

-- The tokens of an expression print a tree of the documented grammar that means so under the facts.
abbrev pub Means : Text → PermissionFacts → Bool → Type 0
Means permission facts value =
    (e : Or) × (tokenize_permission permission ≡ ok (emit_or e ++ eof ∷ []))
    × (denote_or e facts ≡ value)

-- The name leads to the command, whose permission holds of the facts.
abbrev pub Permits : Strings → Registry → Text → PermissionFacts → Command → Type 0
Permits strings registry name facts cmd =
    ((canonical : Text) × (find (normalize strings name) registry.tokens ≡ some canonical)
      × (cmd ≡ command_at canonical registry.commands))
    × Means cmd.permission facts true

module _ (strings : Strings) (registry : Registry) (request : Request)
    (invocation : Invocation strings) where
  -- What a call that stops before the command gives.
  IsStopped : Outcome strings → Type 0
  IsStopped o = (o.ran ≡ false) × (o.marked ≡ false) × ((code : ErrorCode) × (o.error ≡ some code))

  permitted-dispatch :
      (cmd : Command)
      → Permits strings registry request.name invocation.facts cmd
      → dispatch strings registry request invocation ≡ run_command strings cmd request invocation
  unfolding dispatch lookup allows
  permitted-dispatch cmd ((canonical, found, same), means) =
      let holds = (evaluate_permission-eq-ok_iff cmd.permission invocation.facts true).1 means in
      let holds' =
        subst (λ (c : Command). evaluate_permission c.permission invocation.facts ≡ ok true) same
          holds in
      let cmd_same : cmd ≡ command_at canonical registry.commands = same in ground arith

  stop :
      (code : ErrorCode)
      → dispatch strings registry request invocation ≡ stopped strings code
      → IsStopped (dispatch strings registry request invocation)
  unfolding IsStopped
  stop code h = subst IsStopped (sym h) (refl, refl, (code, refl))

  dispatch-cases :
      ((cmd : Command) × Permits strings registry request.name invocation.facts cmd)
      ⊎ IsStopped (dispatch strings registry request invocation)
  unfolding dispatch lookup allows IsStopped
  dispatch-cases = elim (Option-cases (find (normalize strings request.name) registry.tokens)) [
    | inl missing ↦ inr (stop integrity_failure (ground arith))
    | inr (canonical, found) ↦
        let cmd = command_at canonical registry.commands in
        elim (Result-cases (evaluate_permission cmd.permission invocation.facts)) [
          | inr (code, broken) ↦ inr (stop integrity_failure (ground arith))
          | inl (value, known) ↦ elim (Bool-cases value) [
            | inr denied ↦ inr (stop permission_denied (ground arith))
            | inl allowed ↦
                let holds =
                  subst (λ v. evaluate_permission cmd.permission invocation.facts ≡ ok v) allowed
                    known in
                inl (
                  cmd,
                  (
                    (canonical, found, refl),
                    (evaluate_permission-eq-ok_iff cmd.permission invocation.facts true).0 holds,
                  ),
                )
          ]
        ]
  ]

  run_command-ran : (cmd : Command) → (run_command strings cmd request invocation).ran ≡ true
  unfolding run_command
  run_command-ran cmd = ground arith

  run_command-marked_iff :
      (cmd : Command)
      → ((run_command strings cmd request invocation).marked ≡ true) ↔ (
          (invocation.run cmd request ≡ none)
          × ((result : Option ErrorCode) × (invocation.mark_handled ≡ some result)))
  unfolding run_command
  run_command-marked_iff cmd = elim (Option-cases (invocation.run cmd request)) [
    | inl fine ↦ elim (Option-cases invocation.mark_handled) [
      | inl no_store ↦ ground arith
      | inr (result, marks) ↦ (λ h. (fine, (result, marks)), λ h. ground arith)
    ]
    | inr (code, failed) ↦ ground arith
  ]

  -- A command runs exactly when the request's name, trimmed and lowered, is registered for it and the
  -- tokens of its permission print a tree of the documented grammar that is true of the invocation's
  -- facts. The message is marked as handled exactly when such a command ran without an error and there
  -- is a store to mark it in. A call in which nothing ran reports an error.
  pub dispatch-permitted_iff :
      (((dispatch strings registry request invocation).ran ≡ true)
        ↔ ((cmd : Command) × Permits strings registry request.name invocation.facts cmd))
      × (((dispatch strings registry request invocation).marked ≡ true) ↔ (
          (cmd : Command) × Permits strings registry request.name invocation.facts cmd
          × (invocation.run cmd request ≡ none)
          × ((result : Option ErrorCode) × (invocation.mark_handled ≡ some result))))
      × (((dispatch strings registry request invocation).ran ≡ true)
          ⊎ ((code : ErrorCode) × ((dispatch strings registry request invocation).error
                ≡ some code)))
  unfolding IsStopped
  dispatch-permitted_iff =
      let o = dispatch strings registry request invocation in
      let ran : (cmd : Command)
          → Permits strings registry request.name invocation.facts cmd
          → o.ran ≡ true =
        λ cmd permits. rw (permitted-dispatch cmd permits) (run_command-ran cmd) in
      (
        (
          λ h. elim dispatch-cases [
            | inl permitted ↦ permitted
            | inr (none_ran, _, _) ↦ absurd (ground arith)
          ],
          λ (cmd, permits). ran cmd permits,
        ),
        (
          λ h. elim dispatch-cases [
            | inl (cmd, permits) ↦
                let same = permitted-dispatch cmd permits in
                let marked : (run_command strings cmd request invocation).marked ≡ true =
                  rw (← same) h in
                let (fine, store) = (run_command-marked_iff cmd).0 marked in
                (cmd, permits, fine, store)
            | inr (_, unmarked, _) ↦ absurd (ground arith)
          ],
          λ (cmd, permits, fine, store).
              rw (permitted-dispatch cmd permits) ((run_command-marked_iff cmd).1 (fine, store)),
        ),
        elim dispatch-cases [
          | inl (cmd, permits) ↦ inl (ran cmd permits)
          | inr (_, _, failed) ↦ inr failed
        ],
      )
