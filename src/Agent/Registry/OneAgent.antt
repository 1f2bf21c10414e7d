-- ===== src/Agent/Registry/OneAgent.antt =====
-- Callers of one chat get one agent.
use wazzap_agent_go.Prelude.{
  ◌≡◌, refl, sym, ap, subst, inl, inr, true, Bool-cases, List, [], ◌∷◌, ◌++◌, All, none, some, ok,
  err, arith, if_intro, option_intro, result_intro,
}
use wazzap_agent_go.Errors.{invalid_argument, integrity_failure}
use wazzap_agent_go.Policy.Principal.{Key, key_eq, key_validate}
use wazzap_agent_go.Agent.Registry.{
  Agent, Agents, find, Pc, entered, building, built, returned, Answer, checked, look_up, store,
  step, Registry, Move, enter, act, Reach, new, next,
}

key_eq_refl : (k : Key) → key_eq k k ≡ true
key_eq_refl k = ground arith

key_eq→≡ : (k l : Key) → key_eq k l ≡ true → k ≡ l
key_eq→≡ k l h = ground arith

-- Every agent of the map is of its chat.
IsKeyed : Agents → Type 0
IsKeyed agents = (k : Key) (a : Agent) → find k agents ≡ some a → a.key ≡ k

-- What a call holds is of its chat, and what it gave back is in the map.
IsSettled : Agents → Key × Pc → Type 0
IsSettled agents (key, returned (ok agent)) = (find key agents ≡ some agent) × (agent.key ≡ key)
IsSettled agents (key, built agent) = agent.key ≡ key
IsSettled agents _ = Unit

-- Nothing that was found is lost.
Grows : Agents → Agents → Type 0
Grows agents agents' = (k : Key) (a : Agent) → find k agents ≡ some a → find k agents' ≡ some a

stored-Grows :
    (key : Key) (agent : Agent) (agents : Agents)
    → find key agents ≡ none
    → Grows agents ((key, agent) ∷ agents)
unfolding Grows find
stored-Grows key agent agents absent k a h = elim (Bool-cases (key_eq key k)) [
  | inl same ↦
      let e : find key agents ≡ find k agents = ap (λ k. find k agents) (key_eq→≡ key k same) in
      absurd (ground arith)
  | inr different ↦ rw different h
]

stored-IsKeyed :
    (key : Key) (agent : Agent) (agents : Agents)
    → agent.key ≡ key
    → IsKeyed agents
    → IsKeyed ((key, agent) ∷ agents)
unfolding IsKeyed find
stored-IsKeyed key agent agents e keyed k a h = elim (Bool-cases (key_eq key k)) [
  | inl same ↦ let e' = key_eq→≡ key k same in ground arith
  | inr different ↦ keyed k a (ground arith)
]

-- What one action of a call guarantees.
record Keeps (key : Key) (agents : Agents) (out : Pc × Agents) : Type 0 where
  grows : Grows agents out.1
  keyed : IsKeyed out.1
  settled : IsSettled out.1 (key, out.0)

unchanged :
    (key : Key) (agents : Agents) (pc : Pc)
    → IsKeyed agents
    → IsSettled agents (key, pc)
    → Keeps key agents (pc, agents)
unfolding Grows
unchanged key agents pc keyed settled = record {
  grows = λ k a h. h;
  keyed = keyed;
  settled = settled;
}

look_up-IsSettled :
    (key : Key) (agents : Agents) → IsKeyed agents → IsSettled agents (key, look_up key agents)
unfolding look_up IsSettled IsKeyed
look_up-IsSettled key agents keyed =
    result_intro (λ (pc : Pc). IsSettled agents (key, pc)) (key_validate key)
      (λ _. returned (err invalid_argument)) _ (λ _ _. tt)
      (λ _ _.
        option_intro (λ (pc : Pc). IsSettled agents (key, pc)) (find key agents) building
          (λ agent. returned (ok agent)) (λ _. tt) (λ agent e. (e, keyed key agent e)))

checked-IsSettled :
    (key : Key) (answer : Answer) (agents : Agents) → IsSettled agents (key, checked key answer)
unfolding IsSettled
checked-IsSettled key (err code) agents = tt
checked-IsSettled key (ok none) agents = tt
checked-IsSettled key (ok (some agent)) agents =
    if_intro (λ (pc : Pc). IsSettled agents (key, pc)) (key_eq agent.key key) (built agent)
      (returned (err integrity_failure)) (key_eq→≡ agent.key key) (λ _. tt)

stored_is_found :
    (key : Key) (agent : Agent) (agents : Agents)
    → agent.key ≡ key
    → IsSettled ((key, agent) ∷ agents) (key, returned (ok agent))
unfolding IsSettled find
stored_is_found key agent agents e = (rw (key_eq_refl key) refl, e)

found-IsSettled :
    (key : Key) (agent : Agent) (agents : Agents)
    → find key agents ≡ some agent
    → IsKeyed agents
    → IsSettled agents (key, returned (ok agent))
unfolding IsSettled IsKeyed
found-IsSettled key agent agents e keyed = (e, keyed key agent e)

store-Keeps :
    (key : Key) (agent : Agent) (agents : Agents)
    → agent.key ≡ key
    → IsKeyed agents
    → Keeps key agents (store key agent agents)
unfolding store
store-Keeps key agent agents e keyed =
    option_intro (Keeps key agents) (find key agents) (returned (ok agent), (key, agent) ∷ agents)
      (λ existing. (returned (ok existing), agents))
      (λ absent. record {
        grows = stored-Grows key agent agents absent;
        keyed = stored-IsKeyed key agent agents e keyed;
        settled = stored_is_found key agent agents e;
      })
      (λ existing found.
        unchanged key agents (returned (ok existing)) keyed
          (found-IsSettled key existing agents found keyed))

step-Keeps :
    (key : Key) (answer : Answer) (pc : Pc) (agents : Agents)
    → IsKeyed agents
    → IsSettled agents (key, pc)
    → Keeps key agents (step key answer pc agents)
unfolding step IsSettled
step-Keeps key answer entered agents keyed s =
    unchanged key agents _ keyed (look_up-IsSettled key agents keyed)
step-Keeps key answer building agents keyed s =
    unchanged key agents _ keyed (checked-IsSettled key answer agents)
step-Keeps key answer (built agent) agents keyed s = store-Keeps key agent agents s keyed
step-Keeps key answer (returned r) agents keyed s = unchanged key agents (returned r) keyed s

-- What is settled stays so while the map grows.
Grows-IsSettled :
    (agents agents' : Agents) (call : Key × Pc)
    → Grows agents agents'
    → IsSettled agents call
    → IsSettled agents' call
unfolding IsSettled Grows
Grows-IsSettled agents agents' (key, returned (ok agent)) g (found, e) = (g key agent found, e)
Grows-IsSettled agents agents' (key, built agent) g e = e
Grows-IsSettled agents agents' (key, returned (err code)) g s = tt
Grows-IsSettled agents agents' (key, entered) g s = tt
Grows-IsSettled agents agents' (key, building) g s = tt

AllSettled : Agents → List (Key × Pc) → Type 0
AllSettled agents calls = All (IsSettled agents) calls

-- One call of many makes its action.
AllSettled-act :
    (agents agents' : Agents) (before after : List (Key × Pc)) (call call' : Key × Pc)
    → Grows agents agents'
    → IsSettled agents' call'
    → AllSettled agents (before ++ call ∷ after)
    → AllSettled agents' (before ++ call' ∷ after)
unfolding AllSettled
AllSettled-act agents agents' [] after call call' g s all = (s, others after all.1)
  where
    others : (calls : List (Key × Pc)) → AllSettled agents calls → AllSettled agents' calls
    others [] all = tt
    others (c ∷ calls) all = (Grows-IsSettled agents agents' c g all.0, others calls all.1)
AllSettled-act agents agents' (c ∷ before) after call call' g s all = (
  Grows-IsSettled agents agents' c g all.0,
  AllSettled-act agents agents' before after call call' g s all.1,
)

AllSettled-at :
    (agents : Agents) (before after : List (Key × Pc)) (call : Key × Pc)
    → AllSettled agents (before ++ call ∷ after)
    → IsSettled agents call
unfolding AllSettled
AllSettled-at agents [] after call all = all.0
AllSettled-at agents (_ ∷ before) after call all = AllSettled-at agents before after call all.1

record IsConsistent (s : Registry) : Type 0 where
  keyed : IsKeyed s.agents
  settled : AllSettled s.agents s.calls

Move-IsConsistent : (s t : Registry) → Move s t → IsConsistent s → IsConsistent t
unfolding AllSettled IsSettled
Move-IsConsistent s t (enter key e) c =
    subst IsConsistent (sym e) (record { keyed = c.keyed; settled = (tt, c.settled) })
Move-IsConsistent s t (act before after key pc answer e f) c =
    let all : AllSettled s.agents (before ++ (key, pc) ∷ after) = rw (← e) c.settled in
    let kept =
      step-Keeps key answer pc s.agents c.keyed
        (AllSettled-at s.agents before after (key, pc) all) in
    subst IsConsistent (sym f) (record {
      keyed = kept.keyed;
      settled = AllSettled-act s.agents _ before after (key, pc) _ kept.grows kept.settled all;
    })

Reach-IsConsistent : (s : Registry) → Reach s → IsConsistent s
unfolding IsKeyed AllSettled find
Reach-IsConsistent s new = record { keyed = λ k a h. absurd (ground arith); settled = tt }
Reach-IsConsistent s (next {s = before} r m) =
    Move-IsConsistent before s m (Reach-IsConsistent before r)

-- A call that gave back an agent stands among the calls.
abbrev GaveBack : Registry → Key → Agent → Type 0
GaveBack s key agent =
    (before : List (Key × Pc)) × (after : List (Key × Pc)) × (s.calls
      ≡ before ++ (key, returned (ok agent)) ∷ after)

GaveBack-found :
    (s : Registry) (key : Key) (agent : Agent)
    → Reach s
    → GaveBack s key agent
    → (find key s.agents ≡ some agent) × (agent.key ≡ key)
unfolding IsSettled
GaveBack-found s key agent r (before, after, e) =
    AllSettled-at s.agents before after (key, returned (ok agent))
      (rw (← e) (Reach-IsConsistent s r).settled)

-- However calls of AgentFor interleave and whatever the factory builds, two calls for one chat that
-- give back an agent give back the same one, and it is that chat's.
pub agents_agree :
    (s : Registry) (key : Key) (a b : Agent)
    → Reach s
    → GaveBack s key a
    → GaveBack s key b
    → (a ≡ b) × (a.key ≡ key)
agents_agree s key a b r ga gb =
    let (found_a, mine) = GaveBack-found s key a r ga in
    let (found_b, _) = GaveBack-found s key b r gb in (ground arith, mine)
