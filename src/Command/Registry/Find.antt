-- ===== src/Command/Registry/Find.antt =====
-- What the tokens of a registry name after one more command.
use wazzap_agent_go.Prelude.{
  ◌≡◌, ◌⊎◌, inl, inr, refl, sym, ◌∙◌, arith, true, false, Bool-cases, List, [], ◌∷◌, some, ok,
  guard, then-ok, guard-ok, ok_injective, subst, Text, text_eq, text_eq_iff, text_eq_refl,
}
use wazzap_agent_go.Errors.{invalid_argument, conflict}
use wazzap_agent_go.Command.Registry.{
  Strings, find, normalize, is_absent, token_pattern, register_tokens,
}

pub find-here :
    {A : Type 0} (key : Text) (a : A) (entries : List (Text × A))
    → find key ((key, a) ∷ entries) ≡ some a
unfolding find
find-here key a entries = rw (text_eq_refl key) refl

pub find-there :
    {A : Type 0} (key k : Text) (a : A) (entries : List (Text × A))
    → text_eq key k ≡ false
    → find key ((k, a) ∷ entries) ≡ find key entries
unfolding find
find-there key k a entries h = rw h refl

-- The tokens after a command: what they name is the command, or what was named before; and nothing
-- that was named is lost.
pub record Extends (name : Text) (tokens tokens' : List (Text × Text)) : Type 0 where
  pub named : (t n : Text) → find t tokens' ≡ some n → (n ≡ name) ⊎ (find t tokens ≡ some n)
  pub kept : (t n : Text) → find t tokens ≡ some n → find t tokens' ≡ some n

Extends-refl : (name : Text) (tokens : List (Text × Text)) → Extends name tokens tokens
Extends-refl name tokens = record { named = λ t n h. inr h; kept = λ t n h. h }

Extends-trans :
    (name : Text) (a b c : List (Text × Text))
    → Extends name a b
    → Extends name b c
    → Extends name a c
Extends-trans name a b c x y = record {
  named = λ t n h. elim (y.named t n h) [ inl same ↦ inl same | inr before ↦ x.named t n before ];
  kept = λ t n h. y.kept t n (x.kept t n h);
}

some_injective : {a b : Text} → some a ≡ some b → a ≡ b
some_injective h = cc

present :
    (token n : Text) (tokens : List (Text × Text))
    → is_absent (find token tokens) ≡ true
    → find token tokens ≡ some n
    → ⊥
present token n tokens absent found = ground arith

Extends-cons :
    (name token : Text) (tokens : List (Text × Text))
    → is_absent (find token tokens) ≡ true
    → Extends name tokens ((token, name) ∷ tokens)
Extends-cons name token tokens absent = record {
  named = λ t n h. elim (Bool-cases (text_eq t token)) [
    | inl same ↦
        let e = (text_eq_iff t token).0 same in
        let here = subst (λ u. find u ((token, name) ∷ tokens) ≡ some n) e h in
        inl (some_injective (sym here ∙ find-here token name tokens))
    | inr different ↦ inr (sym (find-there t token name tokens different) ∙ h)
  ];
  kept = λ t n h. elim (Bool-cases (text_eq t token)) [
    | inl same ↦ absurd (
        present token n tokens absent
          (subst (λ u. find u tokens ≡ some n) ((text_eq_iff t token).0 same) h))
    | inr different ↦ find-there t token name tokens different ∙ h
  ];
}

module _ (strings : Strings) where
  pub register_tokens-Extends :
      (name : Text) (more : List Text) (tokens tokens' : List (Text × Text))
      → register_tokens strings name more tokens ≡ ok tokens'
      → Extends name tokens tokens'
  unfolding register_tokens
  register_tokens-Extends name [] tokens tokens' h =
      subst (Extends name tokens) (ok_injective h) (Extends-refl name tokens)
  register_tokens-Extends name (token ∷ more) tokens tokens' h =
      let (shaped, rest) =
        then-ok (guard (token_pattern (normalize strings token)) invalid_argument) _ h in
      let (fresh, last) =
        then-ok (guard (is_absent (find (normalize strings token) tokens)) conflict) _ rest in
      Extends-trans name tokens ((normalize strings token, name) ∷ tokens) tokens'
        (Extends-cons name (normalize strings token) tokens (guard-ok _ conflict fresh))
        (register_tokens-Extends name more ((normalize strings token, name) ∷ tokens) tokens' last)

  -- The first token names the command.
  pub register_tokens-first :
      (name token : Text) (more : List Text) (tokens tokens' : List (Text × Text))
      → register_tokens strings name (token ∷ more) tokens ≡ ok tokens'
      → find (normalize strings token) tokens' ≡ some name
  unfolding register_tokens
  register_tokens-first name token more tokens tokens' h =
      let (shaped, rest) =
        then-ok (guard (token_pattern (normalize strings token)) invalid_argument) _ h in
      let (fresh, last) =
        then-ok (guard (is_absent (find (normalize strings token) tokens)) conflict) _ rest in
      let later =
        register_tokens-Extends name more ((normalize strings token, name) ∷ tokens) tokens' last in
      later.kept (normalize strings token) name (find-here (normalize strings token) name tokens)
