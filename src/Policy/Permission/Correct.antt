-- ===== src/Policy/Permission/Correct.antt =====
-- EvaluatePermission and ValidatePermission against the grammar and its meaning.
use wazzap_agent_go.Prelude.{
  ◌+◌, ◌*◌, ◌≡◌, ◌≢◌, ◌↔◌, refl, sym, ap, ◌∙◌, Bool, false, [], ◌∷◌, ◌++◌, arith, length,
  Result-cases, inl, inr, ok, err, Text,
}
use wazzap_agent_go.Policy.Permission.Token.{eof, out_of_fuel, tokenize_permission}
use wazzap_agent_go.Policy.Permission.Parser.{
  PermissionFacts, no_facts, Tokens, peek, expect_end, evaluate_tokens, evaluate_permission,
  validate_permission,
}
use wazzap_agent_go.Policy.Permission.Grammar.{
  Or, OrTail, And, AndTail, Unary, or, or_end, or_more, and, and_end, and_more, negate, name,
  grouped, emit_or, emit_or_tail, emit_and, emit_and_tail, emit_unary, denote_or,
}
use wazzap_agent_go.Policy.Permission.Ensures.{
  Ensures, Ensures-bind, Ensures-bind_eq, Ensures-weaken, Ensures-ok, Ensures-out_of_fuel,
}
use wazzap_agent_go.Policy.Permission.Reads.{lengths}
use wazzap_agent_go.Policy.Permission.Sound.{parse_or-Ensures}
use wazzap_agent_go.Policy.Permission.Complete.{parse_or-emit_or}
use wazzap_agent_go.Policy.Permission.Scan.{is_eof, Closed, tokenize_permission-Ensures}

abbrev NoEof : Tokens → Type 0
NoEof [] = Unit
NoEof (t ∷ ts) = (is_eof t ≡ false) × NoEof ts

NoEof-append : (ts us : Tokens) → NoEof ts → NoEof us → NoEof (ts ++ us)
NoEof-append [] us h k = k
NoEof-append (t ∷ ts) us h k = (h.0, NoEof-append ts us h.1 k)

mutual
  unfolding emit_or

  emit_or-NoEof : (e : Or) → NoEof (emit_or e)
  emit_or-NoEof (or a t) = NoEof-append _ _ (emit_and-NoEof a) (emit_or_tail-NoEof t)

  emit_or_tail-NoEof : (t : OrTail) → NoEof (emit_or_tail t)
  emit_or_tail-NoEof or_end = tt
  emit_or_tail-NoEof (or_more word a t) =
      (refl, NoEof-append _ _ (emit_and-NoEof a) (emit_or_tail-NoEof t))

  emit_and-NoEof : (e : And) → NoEof (emit_and e)
  emit_and-NoEof (and u t) = NoEof-append _ _ (emit_unary-NoEof u) (emit_and_tail-NoEof t)

  emit_and_tail-NoEof : (t : AndTail) → NoEof (emit_and_tail t)
  emit_and_tail-NoEof and_end = tt
  emit_and_tail-NoEof (and_more word u t) =
      (refl, NoEof-append _ _ (emit_unary-NoEof u) (emit_and_tail-NoEof t))

  emit_unary-NoEof : (u : Unary) → NoEof (emit_unary u)
  emit_unary-NoEof (negate u) = (refl, emit_unary-NoEof u)
  emit_unary-NoEof (name word fact known) = (refl, tt)
  emit_unary-NoEof (grouped e) = (refl, NoEof-append _ _ (emit_or-NoEof e) (refl, tt))

-- Where the tree's tokens end at an EOF token, nothing follows it.
Closed-rest :
    (ts rest : Tokens) → NoEof ts → Closed (ts ++ rest) → peek rest ≡ eof → rest ≡ eof ∷ []
Closed-rest [] [] n c h = absurd c
Closed-rest [] (eof ∷ []) n c h = refl
Closed-rest [] (eof ∷ t ∷ ts) n c h = cc
Closed-rest [] (t ∷ ts) n c h = cc
Closed-rest (t ∷ []) [] n c h = cc
Closed-rest (t ∷ []) (u ∷ us) n c h = Closed-rest [] (u ∷ us) tt c.1 h
Closed-rest (t ∷ u ∷ ts) rest n c h = Closed-rest (u ∷ ts) rest n.1 c.1 h

-- A tree of the grammar whose tokens are all of `ts` up to the EOF, with the value as its meaning.
abbrev pub Derives : Tokens → PermissionFacts → Bool → Type 0
Derives ts facts v = (e : Or) × (ts ≡ emit_or e ++ eof ∷ []) × (denote_or e facts ≡ v)

expect_end-Ensures :
    (value : Bool) (ts : Tokens)
    → Ensures (λ v. (peek ts ≡ eof) × (v ≡ value)) (expect_end value ts)
unfolding expect_end
expect_end-Ensures value [] = (refl, refl)
expect_end-Ensures value (eof ∷ ts) = (refl, refl)
expect_end-Ensures value (t ∷ ts) = tt

evaluate_tokens-Ensures :
    (ts : Tokens) (facts : PermissionFacts)
    → Closed ts
    → Ensures (Derives ts facts) (evaluate_tokens ts facts)
unfolding evaluate_tokens
evaluate_tokens-Ensures ts facts c =
    Ensures-bind (λ r. (e : Or) × (ts ≡ emit_or e ++ r.1) × (r.0 ≡ denote_or e facts))
      (Derives ts facts) _ _ (parse_or-Ensures _ facts ts (omega arith))
      λ r (e, printed, meant).
        Ensures-weaken (λ v. (peek r.1 ≡ eof) × (v ≡ r.0)) (Derives ts facts) _
          (expect_end-Ensures r.0 r.1)
          λ v (ended, same). (
            e,
            printed
                ∙ ap (λ rest. emit_or e ++ rest)
                    (Closed-rest (emit_or e) r.1 (emit_or-NoEof e) (rw printed at c) ended),
            sym meant ∙ sym same,
          )

evaluate_tokens-emit_or :
    (e : Or) (facts : PermissionFacts)
    → evaluate_tokens (emit_or e ++ eof ∷ []) facts ≡ ok (denote_or e facts)
unfolding evaluate_tokens expect_end
evaluate_tokens-emit_or e facts = rw (
    parse_or-emit_or e (4 * length (emit_or e ++ eof ∷ []) + 5) facts (eof ∷ []) refl refl
      (omega lengths))

-- The tokens of the text are those of a tree, and the value is its meaning.
abbrev pub Accepts : Text → PermissionFacts → Bool → Type 0
Accepts s facts v =
    (e : Or) × (tokenize_permission s ≡ ok (emit_or e ++ eof ∷ [])) × (denote_or e facts ≡ v)

evaluate_permission-Ensures :
    (s : Text) (facts : PermissionFacts) → Ensures (Accepts s facts) (evaluate_permission s facts)
unfolding evaluate_permission
evaluate_permission-Ensures s facts =
    Ensures-bind_eq Closed (Accepts s facts) _ _ (tokenize_permission-Ensures s) λ ts tokens closed.
      Ensures-weaken (Derives ts facts) (Accepts s facts) _
        (evaluate_tokens-Ensures ts facts closed)
        λ v (e, printed, meant). (e, tokens ∙ ap ok printed, meant)

evaluate_permission-Accepts :
    (s : Text) (facts : PermissionFacts) {v : Bool}
    → Accepts s facts v
    → evaluate_permission s facts ≡ ok v
unfolding evaluate_permission
evaluate_permission-Accepts s facts (e, tokens, meant) =
    rw (tokens, evaluate_tokens-emit_or e facts, meant)

-- EvaluatePermission returns a value without an error exactly when the tokens of the expression
-- are, up to the final EOF, the print of a tree of the documented grammar whose names are all
-- known; and the value is the tree's meaning under the facts: "!" negates one operand, "and"
-- joins what stands between two "or", and each name reads its own fact.
pub evaluate_permission-eq-ok_iff :
    (s : Text) (facts : PermissionFacts) (v : Bool)
    → (evaluate_permission s facts ≡ ok v)
      ↔ ((e : Or) × (tokenize_permission s ≡ ok (emit_or e ++ eof ∷ [])) × (denote_or e facts ≡ v))
evaluate_permission-eq-ok_iff s facts v = (
  Ensures-ok (Accepts s facts) _ (evaluate_permission-Ensures s facts),
  evaluate_permission-Accepts s facts,
)

-- The fuel handed to the tokenizer and the parser is enough for every expression.
pub evaluate_permission-ne-out_of_fuel :
    (s : Text) (facts : PermissionFacts) → evaluate_permission s facts ≢ err out_of_fuel
evaluate_permission-ne-out_of_fuel s facts =
    Ensures-out_of_fuel (Accepts s facts) _ (evaluate_permission-Ensures s facts)

evaluate_permission_any_facts :
    (s : Text) (facts others : PermissionFacts) {v : Bool}
    → evaluate_permission s facts ≡ ok v
    → (w : Bool) × (evaluate_permission s others ≡ ok w)
evaluate_permission_any_facts s facts others {v} h =
    let (e, tokens, _) = (evaluate_permission-eq-ok_iff s facts v).0 h in
    (denote_or e others, evaluate_permission-Accepts s others (e, tokens, refl))

validate-ok :
    (s : Text) {v : Bool} → evaluate_permission s no_facts ≡ ok v → validate_permission s ≡ ok tt
unfolding validate_permission
validate-ok s h = rw h

ok-validate :
    (s : Text)
    → validate_permission s ≡ ok tt
    → (v : Bool) × (evaluate_permission s no_facts ≡ ok v)
unfolding validate_permission
ok-validate s h = elim (Result-cases (evaluate_permission s no_facts)) [
  | inl (v, e) ↦ (v, e)
  | inr (f, e) ↦ cc
]

-- ValidatePermission, which a registry calls once at startup with no facts, accepts an expression
-- exactly when evaluating it gives a value, whatever the facts: an accepted expression never fails
-- at runtime, and a rejected one fails whoever the sender is.
pub validate_permission-eq-ok_iff :
    (s : Text) (facts : PermissionFacts)
    → (validate_permission s ≡ ok tt) ↔ ((v : Bool) × (evaluate_permission s facts ≡ ok v))
validate_permission-eq-ok_iff s facts = (
  λ h. evaluate_permission_any_facts s no_facts facts (ok-validate s h).1,
  λ h. validate-ok s (evaluate_permission_any_facts s facts no_facts h.1).1,
)
