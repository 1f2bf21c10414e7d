-- ===== src/Policy/Allowlist.antt =====
-- internal/policy/allowlist.go: which chats an inbound message may come from. The set of entries
-- is a list without repetitions.
pub mod Admission
use wazzap_agent_go.Prelude.{
  Bool, true, false, not, ◌&&◌, ◌||◌, List, [], ◌∷◌, if◌then◌else◌, any, Result, ok, err, Text,
  text, text_eq, elem,
}
use wazzap_agent_go.Policy.Chat.{ChatKind, direct, group, status, other}

abbrev pub chat_allowlist_all : Text
chat_allowlist_all = text "*"

abbrev pub chat_allowlist_direct : Text
chat_allowlist_direct = text "*@lid"

abbrev pub chat_allowlist_group : Text
chat_allowlist_group = text "*@g.us"

abbrev pub is_direct : ChatKind → Bool
is_direct direct = true
is_direct _ = false

abbrev pub is_group : ChatKind → Bool
is_group group = true
is_group _ = false

unfoldable pub chat_allowlist_wildcard_matches : Text → ChatKind → Bool
chat_allowlist_wildcard_matches value kind =
    if text_eq value chat_allowlist_all
    then is_direct kind || is_group kind
    else if text_eq value chat_allowlist_direct
    then is_direct kind
    else text_eq value chat_allowlist_group && is_group kind

pub record InboundGate : Type 0 where
  pub owner : Text
  pub allowlist : List Text

-- Writing a key into the set.
abbrev insert : Text → List Text → List Text
insert address entries = if elem address entries then entries else address ∷ entries

-- The loop of NewInboundGate.
unfoldable pub collect : List Text → List Text → List Text
unfolding elem
collect entries [] = entries
collect entries (address ∷ allowlist) =
    collect (if text_eq address [] then entries else insert address entries) allowlist

-- An allowlist with no entry is a configuration error.
pub data GateError : Type 0 where
  must_fail_closed : GateError

unfoldable pub new_inbound_gate : Text → List Text → Result GateError InboundGate
unfolding collect
new_inbound_gate owner allowlist = elim (collect [] allowlist) [
  | [] ↦ err must_fail_closed
  | a ∷ entries ↦ ok (record { owner = owner; allowlist = a ∷ entries })
]

unfoldable pub is_owner : InboundGate → List Text → Bool
is_owner gate addresses =
    not (text_eq gate.owner []) && any (λ address. text_eq address gate.owner) addresses

abbrev pub wildcards : List Text
wildcards = chat_allowlist_all ∷ chat_allowlist_direct ∷ chat_allowlist_group ∷ []

unfoldable pub chat_allowlisted : InboundGate → ChatKind → Text → List Text → Bool
unfolding chat_allowlist_wildcard_matches
chat_allowlisted gate kind address alternatives =
    elem address gate.allowlist
    || (any
          (λ wildcard.
            elem wildcard gate.allowlist && chat_allowlist_wildcard_matches wildcard kind)
          wildcards
        || (not (is_group kind)
            && any (λ alternative. not (text_eq alternative []) && elem alternative gate.allowlist)
                alternatives))
