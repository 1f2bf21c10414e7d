-- ===== src/Policy/Permission/Grammar.antt =====
-- The grammar in the comment of EvaluatePermission, as syntax trees with their tokens and their
-- meaning. A name in a tree comes with the fact that it stands for.
use wazzap_agent_go.Prelude.{
  ◌≡◌, Bool, true, false, not, ◌&&◌, ◌||◌, Option, none, some, List, [], ◌∷◌, ◌++◌, arith,
  if◌then◌else◌, String, ok, err, Text, text, text_eq, to_lower,
}
use wazzap_agent_go.Policy.Permission.Token.{
  bang, open_paren, close_paren, atom, conj, disj, reported, unknown_atom,
}
use wazzap_agent_go.Policy.Permission.Parser.{
  PermissionFacts, Tokens, one_of, resolve_permission_atom,
}

pub data Fact : Type 0 where
  public owner admin group private from_me : Fact

pub holds : Fact → PermissionFacts → Bool
holds public facts = true
holds owner facts = facts.is_owner
holds admin facts = facts.is_admin
holds group facts = facts.is_group
holds private facts = facts.is_private
holds from_me facts = facts.from_me

-- The spellings of each fact, in lower case.
abbrev aliases : List (String × Fact)
aliases =
    ("public", public)
    ∷ ("owner", owner)
    ∷ ("isowner", owner)
    ∷ ("admin", admin)
    ∷ ("isadmin", admin)
    ∷ ("senderisadmin", admin)
    ∷ ("sender_is_admin", admin)
    ∷ ("sender-is-admin", admin)
    ∷ ("group", group)
    ∷ ("isgroup", group)
    ∷ ("private", private)
    ∷ ("isprivate", private)
    ∷ ("from_me", from_me)
    ∷ ("fromme", from_me)
    ∷ ("from-me", from_me)
    ∷ []

pub find_alias : Text → List (String × Fact) → Option Fact
find_alias key [] = none
find_alias key ((s, fact) ∷ more) = if text_eq key (text s) then some fact else find_alias key more

unfoldable pub fact_of : Text → Option Fact
unfolding find_alias
fact_of name = find_alias (to_lower name) aliases

mutual
  pub data Or : Type 0 where
    or : And → OrTail → Or

  pub data OrTail : Type 0 where
    or_end : OrTail
    or_more : Text → And → OrTail → OrTail

  pub data And : Type 0 where
    and : Unary → AndTail → And

  pub data AndTail : Type 0 where
    and_end : AndTail
    and_more : Text → Unary → AndTail → AndTail

  pub data Unary : Type 0 where
    negate : Unary → Unary
    name : (word : Text) (fact : Fact) → fact_of word ≡ some fact → Unary
    grouped : Or → Unary

unfoldable mutual
  pub emit_or : Or → Tokens
  emit_or (or a tail) = emit_and a ++ emit_or_tail tail

  pub emit_or_tail : OrTail → Tokens
  emit_or_tail or_end = []
  emit_or_tail (or_more word a tail) = disj word ∷ (emit_and a ++ emit_or_tail tail)

  pub emit_and : And → Tokens
  emit_and (and u tail) = emit_unary u ++ emit_and_tail tail

  pub emit_and_tail : AndTail → Tokens
  emit_and_tail and_end = []
  emit_and_tail (and_more word u tail) = conj word ∷ (emit_unary u ++ emit_and_tail tail)

  pub emit_unary : Unary → Tokens
  emit_unary (negate u) = bang ∷ emit_unary u
  emit_unary (name word fact known) = atom word ∷ []
  emit_unary (grouped e) = open_paren ∷ (emit_or e ++ close_paren ∷ [])

unfoldable mutual
  pub denote_or : Or → PermissionFacts → Bool
  denote_or (or a tail) facts = denote_and a facts || denote_or_tail tail facts

  pub denote_or_tail : OrTail → PermissionFacts → Bool
  denote_or_tail or_end facts = false
  denote_or_tail (or_more word a tail) facts = denote_and a facts || denote_or_tail tail facts

  pub denote_and : And → PermissionFacts → Bool
  denote_and (and u tail) facts = denote_unary u facts && denote_and_tail tail facts

  pub denote_and_tail : AndTail → PermissionFacts → Bool
  denote_and_tail and_end facts = true
  denote_and_tail (and_more word u tail) facts = denote_unary u facts && denote_and_tail tail facts

  pub denote_unary : Unary → PermissionFacts → Bool
  denote_unary (negate u) facts = not (denote_unary u facts)
  denote_unary (name word fact known) facts = holds fact facts
  denote_unary (grouped e) facts = denote_or e facts

-- The table agrees with the switch of resolvePermissionAtom.
pub resolve_permission_atom-fact_of :
    (word : Text) (facts : PermissionFacts) {fact : Fact}
    → fact_of word ≡ some fact
    → resolve_permission_atom word facts ≡ ok (holds fact facts)
unfolding fact_of resolve_permission_atom one_of holds
resolve_permission_atom-fact_of word facts h = ground arith

pub resolve_permission_atom_unknown :
    (word : Text) (facts : PermissionFacts)
    → fact_of word ≡ none
    → resolve_permission_atom word facts ≡ err (reported (unknown_atom word))
unfolding fact_of resolve_permission_atom one_of
resolve_permission_atom_unknown word facts h = ground arith
