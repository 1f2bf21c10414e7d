-- ===== src/Agent/Registry.antt =====
-- internal/agent/registry.go: the one agent of each chat, where any number of callers may build one
-- at the same time.
pub mod OneAgent
use wazzap_agent_go.Prelude.{
  ℕ, ◌≡◌, refl, sym, ap, subst, ◌∙◌, ◌⊎◌, inl, inr, Bool, true, false, Bool-cases, not, ◌&&◌, ◌==◌,
  if◌then◌else◌, List, [], ◌∷◌, ◌++◌, All, Option, none, some, Option-cases, Result, ok, err, arith,
}
use wazzap_agent_go.Errors.{ErrorCode, invalid_argument, integrity_failure}
use wazzap_agent_go.Policy.Principal.{Key, key_eq, key_validate}

-- An agent: which of those that were built, and its chat.
pub record Agent : Type 0 where
  pub identity : ℕ
  pub key : Key

-- The map of the registry.
abbrev pub Agents : Type 0
Agents = List (Key × Agent)

unfoldable pub find : Key → Agents → Option Agent
find key [] = none
find key ((k, agent) ∷ rest) =
    let later = find key rest in if key_eq k key then some agent else later

-- Where a call of AgentFor stands between two of its locked sections.
pub data Pc : Type 0 where
  entered : Pc
  building : Pc
  built : Agent → Pc
  returned : Result ErrorCode Agent → Pc

-- What the factory gives: an error, or an agent that may be missing.
abbrev pub Answer : Type 0
Answer = Result ErrorCode (Option Agent)

abbrev pub checked : Key → Answer → Pc
checked key (err code) = returned (err code)
checked key (ok none) = returned (err integrity_failure)
checked key (ok (some agent)) =
    if key_eq agent.key key then built agent else returned (err integrity_failure)

-- The first locked section: an agent that is there already is given back.
unfoldable pub look_up : Key → Agents → Pc
unfolding find
look_up key agents = elim (key_validate key) [
  | err code ↦ returned (err invalid_argument)
  | ok _ ↦ elim (find key agents) [ none ↦ building | some agent ↦ returned (ok agent) ]
]

-- The second one: the first agent that was stored wins.
unfoldable pub store : Key → Agent → Agents → Pc × Agents
unfolding find
store key agent agents = elim (find key agents) [
  | some existing ↦ (returned (ok existing), agents)
  | none ↦ (returned (ok agent), (key, agent) ∷ agents)
]

-- One action of AgentFor.
unfoldable pub step : Key → Answer → Pc → Agents → Pc × Agents
unfolding look_up store
step key answer entered agents = (look_up key agents, agents)
step key answer building agents = (checked key answer, agents)
step key answer (built agent) agents = store key agent agents
step key answer (returned r) agents = (returned r, agents)

pub record Registry : Type 0 where
  pub agents : Agents
  pub calls : List (Key × Pc)

-- A new call enters, or a call makes one action, whatever the factory answers.
pub data Move (s t : Registry) : Type 0 where
  enter : (key : Key) → t ≡ record s { calls = (key, entered) ∷ s.calls } → Move s t
  act :
      (before after : List (Key × Pc)) (key : Key) (pc : Pc) (answer : Answer)
      → s.calls ≡ before ++ (key, pc) ∷ after
      → t ≡ record {
        agents = (step key answer pc s.agents).1;
        calls = before ++ (key, (step key answer pc s.agents).0) ∷ after;
      }
      → Move s t

-- NewRegistry
abbrev pub new_registry : Registry
new_registry = record { agents = []; calls = [] }

pub data Reach : Registry → Type 0 where
  new : Reach new_registry
  next : {s t : Registry} → Reach s → Move s t → Reach t
