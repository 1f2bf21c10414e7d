-- ===== src/Policy/Trigger/Judged.antt =====
-- What the gate remembers of the judge.
use wazzap_agent_go.Prelude.{
  ℕ, suc, ◌≤◌, ◌≡◌, inl, inr, refl, arith, Bool, ◌==◌, if◌then◌else◌, length, some, Bool-cases,
  Option-cases,
}
use wazzap_agent_go.Policy.Trigger.{
  Message, Memory, max_judged, lookup, Gate, Snapshot, response, remember, ask, triggered,
  authorize_invocation, needs_judgment,
}

-- Authorizing a message keeps the memory of judgments within its bound.
pub authorize_invocation-max_judged :
    (gate : Gate) (message : Message) (snapshot : Snapshot) (memory : Memory)
    → length memory.judged ≤ max_judged
    → length (authorize_invocation gate message snapshot memory).1.judged ≤ max_judged
unfolding authorize_invocation
authorize_invocation-max_judged gate message snapshot memory h = ground arith

-- Authorizing a message asks the judge once if NeedsJudgment says so, and otherwise not at all.
pub authorize_invocation-needs_judgment :
    (gate : Gate) (message : Message) (snapshot : Snapshot) (memory : Memory)
    → (authorize_invocation gate message snapshot memory).1.asked
      ≡ (if needs_judgment gate message snapshot memory then suc memory.asked else memory.asked)
unfolding authorize_invocation needs_judgment
authorize_invocation-needs_judgment gate message snapshot memory = ground arith

lookup-remember :
    (id : ℕ) (respond : Bool) (memory : Memory)
    → lookup id (remember id respond memory).judged ≡ some respond
unfolding lookup remember
lookup-remember id respond memory = elim (Bool-cases (id == id)) [
  | inl same ↦ rw same refl
  | inr different ↦ absurd (ground arith)
]

ask_again :
    (gate : Gate) (message : Message) (memory : Memory)
    → ask gate message (ask gate message memory).1
      ≡ ((ask gate message memory).0, (ask gate message memory).1)
unfolding ask
ask_again gate message memory = elim (Option-cases gate.judge) [
  | inl e ↦ ground arith
  | inr (judge, e) ↦ elim (Option-cases (lookup message.invocation_id memory.judged)) [
    | inl new ↦
        let kept = lookup-remember message.invocation_id (response (judge message)) memory in
        ground arith
    | inr (respond, seen) ↦ ground arith
  ]
]

-- Authorizing the same message again gives the same verdict and does not ask the judge a second time.
pub authorize_invocation_again :
    (gate : Gate) (message : Message) (snapshot : Snapshot) (memory : Memory)
    → authorize_invocation gate message snapshot
        (authorize_invocation gate message snapshot memory).1
      ≡ authorize_invocation gate message snapshot memory
unfolding authorize_invocation triggered
authorize_invocation_again gate message snapshot memory =
    let again = ask_again gate message memory in ground arith
