-- ===== src/Policy/Permission/Parser.antt =====
-- The recursive-descent evaluator of internal/policy/permission.go. A parser's state is the tokens
-- from `index` on; beyond the last one `peek` and `take` give an EOF token.
use wazzap_agent_go.Prelude.{
  ℕ, zero, suc, ◌+◌, ◌*◌, Bool, true, false, not, ◌&&◌, ◌||◌, List, [], ◌∷◌, if◌then◌else◌, length,
  String, ok, err, ◌>>=◌, Text, text, text_eq, to_lower,
}
use wazzap_agent_go.Policy.Permission.Token.{
  Token, eof, bang, open_paren, close_paren, atom, conj, disj, reported, out_of_fuel, Outcome,
  missing_close, incomplete, unexpected_close, unexpected_token, expected_close,
  unexpected_operator, unknown_atom, tokenize_permission,
}

pub record PermissionFacts : Type 0 where
  pub is_owner : Bool
  pub is_admin : Bool
  pub bot_is_admin : Bool
  pub is_group : Bool
  pub is_private : Bool
  pub from_me : Bool

abbrev pub no_facts : PermissionFacts
no_facts = record {
  is_owner = false;
  is_admin = false;
  bot_is_admin = false;
  is_group = false;
  is_private = false;
  from_me = false;
}

unfoldable pub one_of : Text → List String → Bool
one_of name [] = false
one_of name (s ∷ ss) = text_eq name (text s) || one_of name ss

unfoldable pub resolve_permission_atom : Text → PermissionFacts → Outcome Bool
resolve_permission_atom name facts =
    let key = to_lower name in
    if text_eq key (text "public")
    then ok true
    else if one_of key ("owner" ∷ "isowner" ∷ [])
    then ok facts.is_owner
    else if one_of key
        ("admin" ∷ "isadmin" ∷ "senderisadmin" ∷ "sender_is_admin" ∷ "sender-is-admin" ∷ [])
    then ok facts.is_admin
    else if one_of key ("group" ∷ "isgroup" ∷ [])
    then ok facts.is_group
    else if one_of key ("private" ∷ "isprivate" ∷ [])
    then ok facts.is_private
    else if one_of key ("from_me" ∷ "fromme" ∷ "from-me" ∷ [])
    then ok facts.from_me
    else err (reported (unknown_atom name))

abbrev pub Tokens : Type 0
Tokens = List Token

abbrev pub peek : Tokens → Token
peek [] = eof
peek (t ∷ _) = t

abbrev pub advance : Tokens → Tokens
advance [] = []
advance (_ ∷ ts) = ts

abbrev pub is_disj : Token → Bool
is_disj (disj _) = true
is_disj _ = false

abbrev pub is_conj : Token → Bool
is_conj (conj _) = true
is_conj _ = false

abbrev pub is_bang : Token → Bool
is_bang bang = true
is_bang _ = false

-- The check of the token that should close a parenthesis.
unfoldable pub expect_closing : Bool → Tokens → Outcome (Bool × Tokens)
expect_closing value [] = err (reported missing_close)
expect_closing value (close_paren ∷ ts) = ok (value, ts)
expect_closing value (eof ∷ ts) = err (reported missing_close)
expect_closing value (t ∷ ts) = err (reported (expected_close t))

unfoldable mutual
  pub parse_or : ℕ → PermissionFacts → Tokens → Outcome (Bool × Tokens)
  parse_or zero facts ts = err out_of_fuel
  parse_or (suc f) facts ts = parse_and f facts ts >>= λ r. or_loop f facts r.0 r.1

  pub or_loop : ℕ → PermissionFacts → Bool → Tokens → Outcome (Bool × Tokens)
  or_loop zero facts value ts = err out_of_fuel
  or_loop (suc f) facts value ts =
      let more = parse_and f facts (advance ts) >>= λ r. or_loop f facts (value || r.0) r.1 in
      if is_disj (peek ts) then more else ok (value, ts)

  pub parse_and : ℕ → PermissionFacts → Tokens → Outcome (Bool × Tokens)
  parse_and zero facts ts = err out_of_fuel
  parse_and (suc f) facts ts = parse_unary f facts ts >>= λ r. and_loop f facts r.0 r.1

  pub and_loop : ℕ → PermissionFacts → Bool → Tokens → Outcome (Bool × Tokens)
  and_loop zero facts value ts = err out_of_fuel
  and_loop (suc f) facts value ts =
      let more = parse_unary f facts (advance ts) >>= λ r. and_loop f facts (value && r.0) r.1 in
      if is_conj (peek ts) then more else ok (value, ts)

  pub parse_unary : ℕ → PermissionFacts → Tokens → Outcome (Bool × Tokens)
  parse_unary zero facts ts = err out_of_fuel
  parse_unary (suc f) facts ts =
      let negated = parse_unary f facts (advance ts) >>= λ r. ok (not r.0, r.1) in
      let primary = parse_primary f facts (peek ts) (advance ts) in
      if is_bang (peek ts) then negated else primary

  -- The token that `take` returned, and the tokens after it.
  pub parse_primary : ℕ → PermissionFacts → Token → Tokens → Outcome (Bool × Tokens)
  parse_primary zero facts t ts = err out_of_fuel
  parse_primary (suc f) facts (atom name) ts =
      resolve_permission_atom name facts >>= λ value. ok (value, ts)
  parse_primary (suc f) facts open_paren ts = parse_or f facts ts >>= λ r. expect_closing r.0 r.1
  parse_primary (suc f) facts eof ts = err (reported incomplete)
  parse_primary (suc f) facts close_paren ts = err (reported unexpected_close)
  parse_primary (suc f) facts (conj name) ts = err (reported (unexpected_operator name))
  parse_primary (suc f) facts (disj name) ts = err (reported (unexpected_operator name))
  parse_primary (suc f) facts bang ts = err (reported (unexpected_token bang))

unfoldable pub expect_end : Bool → Tokens → Outcome Bool
expect_end value [] = ok value
expect_end value (eof ∷ _) = ok value
expect_end value (t ∷ _) = err (reported (unexpected_token t))

-- The parsing half of EvaluatePermission.
unfoldable pub evaluate_tokens : Tokens → PermissionFacts → Outcome Bool
evaluate_tokens ts facts = parse_or (4 * length ts + 5) facts ts >>= λ r. expect_end r.0 r.1

unfoldable pub evaluate_permission : Text → PermissionFacts → Outcome Bool
evaluate_permission expression facts =
    tokenize_permission expression >>= λ ts. evaluate_tokens ts facts

unfoldable pub validate_permission : Text → Outcome (Unit {0})
validate_permission expression = evaluate_permission expression no_facts >>= λ _. ok tt
