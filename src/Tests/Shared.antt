-- ===== src/Tests/Shared.antt =====
-- The gate and the registry of agents, with callers that interleave.
use wazzap_agent_go.Prelude.{ℕ, ◌≡◌, ◌⊎◌, refl, [], ◌∷◌, none, some, ok}
use wazzap_agent_go.Policy.Principal.{Key}
use wazzap_agent_go.Agent.Gate.{
  Gate, waiting, holding, over, acquire, release, Step, new, next, enter, act, holders,
  new_operation_gate, one_holder, waits_or_acquires, release_is_free,
}
use wazzap_agent_go.Agent.Gate
use wazzap_agent_go.Agent.Registry.{Agent, Registry, entered, building, built, returned}
use wazzap_agent_go.Agent.Registry
use wazzap_agent_go.Agent.Registry.OneAgent.{agents_agree}

-- One operation holds the token and another waits.
abbrev busy : Gate
busy = record { tokens = 0; operations = waiting ∷ holding ∷ [] }

abbrev reach_busy : Gate.Reach busy
reach_busy =
    next (next (next new (enter refl)) (act [] [] waiting holding 0 (acquire 0 refl) refl refl))
      (enter refl)

waits_or_acquires_example :
    ((left : ℕ) × Step busy (record { tokens = left; operations = holding ∷ holding ∷ [] }))
    ⊎ (holders busy.operations ≡ 1)
waits_or_acquires_example = waits_or_acquires busy [] (holding ∷ []) reach_busy refl

abbrev chat : Key
chat = record { tenant_id = 1; account_id = 2; chat_id = 3 }

abbrev one : Agent
one = record { identity = 1; key = chat }

abbrev two : Agent
two = record { identity = 2; key = chat }

-- Two callers that both built an agent.
abbrev raced : Registry
raced = record {
  agents = (chat, one) ∷ [];
  calls = (chat, returned (ok one)) ∷ (chat, returned (ok one)) ∷ [];
}

reach_raced : Registry.Reach raced
unfolding Registry.step
reach_raced =
    Registry.next
      (Registry.next
        (Registry.next
          (Registry.next
            (Registry.next
              (Registry.next
                (Registry.next (Registry.next Registry.new (Registry.enter chat refl))
                  (Registry.enter chat refl))
                (Registry.act [] ((chat, entered) ∷ []) chat entered (ok none) refl refl))
              (Registry.act ((chat, building) ∷ []) [] chat entered (ok none) refl refl))
            (Registry.act [] ((chat, building) ∷ []) chat building (ok (some one)) refl refl))
          (Registry.act ((chat, built one) ∷ []) [] chat building (ok (some two)) refl refl))
        (Registry.act [] ((chat, built two) ∷ []) chat (built one) (ok none) refl refl))
      (Registry.act ((chat, returned (ok one)) ∷ []) [] chat (built two) (ok none) refl refl)

agents_agree_example : (one ≡ one) × (one.key ≡ chat)
agents_agree_example =
    agents_agree raced chat one one reach_raced ([], (chat, returned (ok one)) ∷ [], refl)
      ((chat, returned (ok one)) ∷ [], [], refl)
