-- ===== src/Tests/Policy.antt =====
-- The policies at concrete configurations and expressions.
use wazzap_agent_go.Prelude.{
  ◌≡◌, ◌≢◌, ◌↔◌, ◌⊎◌, refl, Bool, true, false, List, some, [], ◌∷◌, ◌++◌, All, ok, err, Text, text,
  text_eq, to_lower,
}
use wazzap_agent_go.Policy.Chat.{group}
use wazzap_agent_go.Policy.Allowlist.{
  InboundGate, new_inbound_gate, chat_allowlisted, chat_allowlist_group,
}
use wazzap_agent_go.Policy.Allowlist.Admission.{Listed, Covered, chat_allowlisted_iff}
use wazzap_agent_go.Prelude.{Elem}
use wazzap_agent_go.Policy.Permission.Token.{
  eof, out_of_fuel, tokenize_permission, is_identifier_part, word_token,
}
use wazzap_agent_go.Policy.Permission.Parser.{
  PermissionFacts, evaluate_permission, validate_permission,
}
use wazzap_agent_go.Policy.Permission.Grammar.{
  Or, or, or_end, and, and_end, and_more, negate, name, Fact, emit_or, denote_or, fact_of,
}
use wazzap_agent_go.Policy.Permission.Correct.{
  evaluate_permission-eq-ok_iff, evaluate_permission-ne-out_of_fuel, validate_permission-eq-ok_iff,
}
use wazzap_agent_go.Policy.Permission.Render.{IsSpelled}

abbrev configured : List Text
configured = [] ∷ text "6@lid" ∷ chat_allowlist_group ∷ text "6@lid" ∷ []

abbrev gate : InboundGate
gate = record { owner = text "6@lid"; allowlist = chat_allowlist_group ∷ text "6@lid" ∷ [] }

gate_built : new_inbound_gate (text "6@lid") configured ≡ ok gate
unfolding new_inbound_gate text_eq
gate_built = refl

chat_allowlisted_iff_example :
    (chat_allowlisted gate group (text "1@g.us") (text "6@lid" ∷ []) ≡ true) ↔ (
      Listed configured (text "1@g.us")
      ⊎ (Covered configured group
          ⊎ ((group ≢ group) × ((a : Text) × Elem a (text "6@lid" ∷ []) × Listed configured a))))
chat_allowlisted_iff_example =
    chat_allowlisted_iff (text "6@lid") configured gate gate_built group (text "1@g.us")
      (text "6@lid" ∷ [])

abbrev owner_only : PermissionFacts
owner_only = record {
  is_owner = true;
  is_admin = false;
  bot_is_admin = false;
  is_group = false;
  is_private = true;
  from_me = false;
}

abbrev expression : Text
expression = text "owner and !group"

owner_known : fact_of (text "owner") ≡ some Fact.owner
unfolding fact_of text_eq to_lower
owner_known = refl

group_known : fact_of (text "group") ≡ some Fact.group
unfolding fact_of text_eq to_lower
group_known = refl

-- owner and !group
abbrev tree : Or
tree =
    or
      (and (name (text "owner") Fact.owner owner_known)
        (and_more (text "and") (negate (name (text "group") Fact.group group_known)) and_end))
      or_end

evaluate_permission-eq-ok_iff_example : (evaluate_permission expression owner_only ≡ ok true) ↔ (
    (e : Or) × (tokenize_permission expression ≡ ok (emit_or e ++ eof ∷ []))
    × (denote_or e owner_only ≡ true))
evaluate_permission-eq-ok_iff_example = evaluate_permission-eq-ok_iff expression owner_only true

validate_permission-eq-ok_iff_example :
    (validate_permission expression ≡ ok tt)
    ↔ ((v : Bool) × (evaluate_permission expression owner_only ≡ ok v))
validate_permission-eq-ok_iff_example = validate_permission-eq-ok_iff expression owner_only

evaluate_permission-ne-out_of_fuel_example :
    evaluate_permission expression owner_only ≢ err out_of_fuel
evaluate_permission-ne-out_of_fuel_example =
    evaluate_permission-ne-out_of_fuel expression owner_only

tree-IsSpelled : All IsSpelled (emit_or tree)
unfolding emit_or is_identifier_part word_token text_eq to_lower
tree-IsSpelled = (
  ((refl, (refl, (refl, (refl, (refl, tt))))), refl),
  (
    ((refl, (refl, (refl, tt))), refl),
    (tt, (((refl, (refl, (refl, (refl, (refl, tt))))), refl), tt)),
  ),
)
