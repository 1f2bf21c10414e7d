-- ===== src/Agent/Invocation.antt =====
-- internal/agent/types.go: what an agent is asked to answer. An identity is a number, 0 being the
-- zero value; a quote is the quoted message; a time is a number of milliseconds, 0 being the zero time.
use wazzap_agent_go.Prelude.{ℕ, Bool, true, false, List, [], ◌∷◌, ◌++◌, Option, Text}
use wazzap_agent_go.Policy.Principal.{Capability}

pub data InvocationCause : Type 0 where
  inbound_message scheduled_task direct_request subagent_result : InvocationCause
  unknown_cause : ℕ → InvocationCause

pub data CausationKind : Type 0 where
  message task request subagent : CausationKind
  unknown_causation : ℕ → CausationKind

pub record SenderContext : Type 0 where
  pub participant_id : ℕ
  pub ref : ℕ
  pub display_name : Text
  pub is_admin : Bool
  pub is_super_admin : Bool

pub record Invocation : Type 0 where
  pub id : ℕ
  pub causation_kind : CausationKind
  pub causation_id : ℕ
  pub cause : InvocationCause
  pub sender : Option SenderContext
  pub quote : Option ℕ
  pub input : List Text
  pub capabilities : List Capability
  pub policy_version : ℕ
  pub requested_at : ℕ

abbrev pub is_inbound : InvocationCause → Bool
is_inbound inbound_message = true
is_inbound _ = false

abbrev pub is_message : CausationKind → Bool
is_message message = true
is_message _ = false

-- flattenText: the text parts, one per line.
unfoldable pub flatten_text : List Text → Text
flatten_text [] = []
flatten_text (part ∷ []) = part
flatten_text (part ∷ parts) = part ++ b'\n' ∷ flatten_text parts
