-- ===== src/Policy/Permission/Complete.antt =====
-- Every tree of the grammar is read back from its tokens, with its meaning.
use wazzap_agent_go.Prelude.{
  ℕ, zero, suc, ◌+◌, ◌*◌, ◌≤◌, ◌≡◌, refl, Bool, true, false, ◌&&◌, ◌||◌, ◌∷◌, ◌++◌, append_assoc,
  arith, length, ok,
}
use wazzap_agent_go.Policy.Permission.Token.{close_paren}
use wazzap_agent_go.Policy.Permission.Parser.{
  PermissionFacts, Tokens, peek, is_disj, is_conj, expect_closing, parse_or, or_loop, parse_and,
  and_loop, parse_unary,
}
use wazzap_agent_go.Policy.Permission.Grammar.{
  Or, OrTail, And, AndTail, Unary, or, or_end, or_more, and, and_end, and_more, negate, name,
  grouped, emit_or, emit_or_tail, emit_and, emit_and_tail, emit_unary, denote_or, denote_or_tail,
  denote_and, denote_and_tail, denote_unary, resolve_permission_atom-fact_of,
}
use wazzap_agent_go.Policy.Permission.Reads.{lengths, or_assoc, and_assoc}

-- What follows an `and` chain, and an `or` chain.
abbrev pub EndsAnd : Tokens → Type 0
EndsAnd ts = is_conj (peek ts) ≡ false

abbrev pub EndsOr : Tokens → Type 0
EndsOr ts = is_disj (peek ts) ≡ false

-- An `or` chain's tail does not begin with `and`.
emit_or_tail-EndsAnd :
    (t : OrTail) (rest : Tokens) → EndsAnd rest → EndsAnd (emit_or_tail t ++ rest)
unfolding emit_or
emit_or_tail-EndsAnd or_end rest h = h
emit_or_tail-EndsAnd (or_more word a t) rest h = refl

or_loop_stop :
    (f : ℕ) (facts : PermissionFacts) (value : Bool) (rest : Tokens)
    → EndsOr rest
    → or_loop (suc f) facts value rest ≡ ok (value, rest)
unfolding parse_or
or_loop_stop f facts value rest h = rw h

and_loop_stop :
    (f : ℕ) (facts : PermissionFacts) (value : Bool) (rest : Tokens)
    → EndsAnd rest
    → and_loop (suc f) facts value rest ≡ ok (value, rest)
unfolding parse_or
and_loop_stop f facts value rest h = rw h

or_false : (a : Bool) → (a || false) ≡ a
or_false a = ground arith

and_true : (a : Bool) → (a && true) ≡ a
and_true a = ground arith

mutual
  unfolding parse_or emit_or denote_or expect_closing

  pub parse_or-emit_or :
      (e : Or) (f : ℕ) (facts : PermissionFacts) (rest : Tokens)
      → EndsAnd rest
      → EndsOr rest
      → 4 * length (emit_or e) + 4 ≤ f
      → parse_or f facts (emit_or e ++ rest) ≡ ok (denote_or e facts, rest)
  parse_or-emit_or (or a t) zero facts rest ea eo h = absurd (omega arith)
  parse_or-emit_or (or a t) (suc f) facts rest ea eo h = simp (
    append_assoc,
    parse_and-emit_and a f facts (emit_or_tail t ++ rest) (emit_or_tail-EndsAnd t rest ea)
        (omega lengths),
    or_loop-emit_or_tail t f facts (denote_and a facts) rest ea eo (omega lengths),
  )

  or_loop-emit_or_tail :
      (t : OrTail) (f : ℕ) (facts : PermissionFacts) (value : Bool) (rest : Tokens)
      → EndsAnd rest
      → EndsOr rest
      → 4 * length (emit_or_tail t) + 1 ≤ f
      → or_loop f facts value (emit_or_tail t ++ rest)
        ≡ ok ((value || denote_or_tail t facts), rest)
  or_loop-emit_or_tail or_end zero facts value rest ea eo h = absurd (omega arith)
  or_loop-emit_or_tail or_end (suc f) facts value rest ea eo h =
      rw (or_loop_stop f facts value rest eo, or_false)
  or_loop-emit_or_tail (or_more word a t) zero facts value rest ea eo h = absurd (omega arith)
  or_loop-emit_or_tail (or_more word a t) (suc f) facts value rest ea eo h = simp (
    append_assoc,
    parse_and-emit_and a f facts (emit_or_tail t ++ rest) (emit_or_tail-EndsAnd t rest ea)
        (omega lengths),
    or_loop-emit_or_tail t f facts (value || denote_and a facts) rest ea eo (omega lengths),
    or_assoc,
  )

  parse_and-emit_and :
      (e : And) (f : ℕ) (facts : PermissionFacts) (rest : Tokens)
      → EndsAnd rest
      → 4 * length (emit_and e) + 3 ≤ f
      → parse_and f facts (emit_and e ++ rest) ≡ ok (denote_and e facts, rest)
  parse_and-emit_and (and u t) zero facts rest ea h = absurd (omega arith)
  parse_and-emit_and (and u t) (suc f) facts rest ea h = simp (
    append_assoc,
    parse_unary-emit_unary u f facts (emit_and_tail t ++ rest) (omega lengths),
    and_loop-emit_and_tail t f facts (denote_unary u facts) rest ea (omega lengths),
  )

  and_loop-emit_and_tail :
      (t : AndTail) (f : ℕ) (facts : PermissionFacts) (value : Bool) (rest : Tokens)
      → EndsAnd rest
      → 4 * length (emit_and_tail t) + 1 ≤ f
      → and_loop f facts value (emit_and_tail t ++ rest)
        ≡ ok ((value && denote_and_tail t facts), rest)
  and_loop-emit_and_tail and_end zero facts value rest ea h = absurd (omega arith)
  and_loop-emit_and_tail and_end (suc f) facts value rest ea h =
      rw (and_loop_stop f facts value rest ea, and_true)
  and_loop-emit_and_tail (and_more word u t) zero facts value rest ea h = absurd (omega arith)
  and_loop-emit_and_tail (and_more word u t) (suc f) facts value rest ea h = simp (
    append_assoc,
    parse_unary-emit_unary u f facts (emit_and_tail t ++ rest) (omega lengths),
    and_loop-emit_and_tail t f facts (value && denote_unary u facts) rest ea (omega lengths),
    and_assoc,
  )

  parse_unary-emit_unary :
      (u : Unary) (f : ℕ) (facts : PermissionFacts) (rest : Tokens)
      → 4 * length (emit_unary u) + 2 ≤ f
      → parse_unary f facts (emit_unary u ++ rest) ≡ ok (denote_unary u facts, rest)
  parse_unary-emit_unary (negate u) zero facts rest h = absurd (omega arith)
  parse_unary-emit_unary (negate u) (suc f) facts rest h =
      simp (parse_unary-emit_unary u f facts rest (omega arith))
  parse_unary-emit_unary (name word fact known) zero facts rest h = absurd (omega arith)
  parse_unary-emit_unary (name word fact known) (suc zero) facts rest h = absurd (omega arith)
  parse_unary-emit_unary (name word fact known) (suc (suc f)) facts rest h =
      rw (resolve_permission_atom-fact_of word facts known)
  parse_unary-emit_unary (grouped e) zero facts rest h = absurd (omega arith)
  parse_unary-emit_unary (grouped e) (suc zero) facts rest h = absurd (omega arith)
  parse_unary-emit_unary (grouped e) (suc (suc f)) facts rest h =
      simp (append_assoc, parse_or-emit_or e f facts (close_paren ∷ rest) refl refl (omega lengths))
