-- ===== src/Agent/Gate.antt =====
-- internal/agent/gate.go: the operation gate of a chat, a channel of one token that an operation
-- takes before it starts and puts back when it returns.
use wazzap_agent_go.Prelude.{
  ℕ, zero, suc, ◌+◌, ◌≤◌, ◌<◌, ◌≡◌, refl, sym, subst, ◌⊎◌, inl, inr, Bool, true, false, List, [],
  ◌∷◌, ◌++◌, Option, some, arith,
}
use wazzap_agent_go.Errors.{ErrorCode, timeout, cancelled}

-- Where an operation stands: it waits for the token, holds it, or is over.
pub data Operation : Type 0 where
  waiting : Operation
  holding : Operation
  over : Option ErrorCode → Operation

-- The tokens in the channel, and the operations of the chat.
pub record Gate : Type 0 where
  pub tokens : ℕ
  pub operations : List Operation

abbrev pub capacity : ℕ
capacity = 1

-- newOperationGate
abbrev pub new_operation_gate : Gate
new_operation_gate = record { tokens = 1; operations = [] }

-- contextError
abbrev pub context_error : Bool → ErrorCode
context_error true = timeout
context_error false = cancelled

-- One operation moves. A select takes the token or, if the context is done, gives its error; the
-- deferred release sends the token back, which a full channel would block.
pub data Moves (tokens : ℕ) : Operation → ℕ → Operation → Type 0 where
  acquire : (left : ℕ) → tokens ≡ suc left → Moves tokens waiting left holding
  give_up : (deadline : Bool) → Moves tokens waiting tokens (over (some (context_error deadline)))
  release :
      (error : Option ErrorCode)
      → tokens < capacity
      → Moves tokens holding (suc tokens) (over error)

pub data Step (s t : Gate) : Type 0 where
  enter : t ≡ record s { operations = waiting ∷ s.operations } → Step s t
  act :
      (before after : List Operation) (from to : Operation) (tokens : ℕ)
      → Moves s.tokens from tokens to
      → s.operations ≡ before ++ from ∷ after
      → t ≡ record { tokens = tokens; operations = before ++ to ∷ after }
      → Step s t

pub data Reach : Gate → Type 0 where
  new : Reach new_operation_gate
  next : {s t : Gate} → Reach s → Step s t → Reach t

abbrev pub holds : Operation → ℕ
holds holding = 1
holds _ = 0

pub holders : List Operation → ℕ
holders [] = 0
holders (o ∷ os) = holds o + holders os

holders-append :
    (before after : List Operation) (o : Operation)
    → holders (before ++ o ∷ after) ≡ holds o + (holders before + holders after)
unfolding holders
holders-append [] after o = omega arith
holders-append (p ∷ before) after o = omega (arith, holders-append before after o)

-- The one token is in the channel or with an operation.
IsOneToken : Gate → Type 0
IsOneToken s = s.tokens + holders s.operations ≡ 1

Moves-tokens :
    (tokens tokens' : ℕ) (from to : Operation)
    → Moves tokens from tokens' to
    → tokens' + holds to ≡ tokens + holds from
Moves-tokens tokens tokens' from to (acquire left e) = omega (arith, e)
Moves-tokens tokens tokens' from to (give_up deadline) = refl
Moves-tokens tokens tokens' from to (release error room) = omega arith

Step-IsOneToken : (s t : Gate) → Step s t → IsOneToken s → IsOneToken t
unfolding IsOneToken holders
Step-IsOneToken s t (enter e) i = subst IsOneToken (sym e) (omega arith)
Step-IsOneToken s t (act before after from to tokens m e f) i =
    let moved = Moves-tokens s.tokens tokens from to m in
    let counted = holders-append before after from in
    let counted' = holders-append before after to in
    let i' : s.tokens + holders (before ++ from ∷ after) ≡ 1 = rw (← e) i in
    subst IsOneToken (sym f) (omega arith)

Reach-IsOneToken : (s : Gate) → Reach s → IsOneToken s
unfolding IsOneToken holders
Reach-IsOneToken s new = refl
Reach-IsOneToken s (next {s = before} r st) =
    Step-IsOneToken before s st (Reach-IsOneToken before r)

-- Two operations of a chat never hold its gate together.
pub one_holder : (s : Gate) → Reach s → holders s.operations ≤ 1
unfolding IsOneToken
one_holder s r = omega (arith, Reach-IsOneToken s r)

holders-of : (before after : List Operation) → 1 ≤ holders (before ++ holding ∷ after)
holders-of before after = omega (arith, holders-append before after holding)

tokens-cases : (n : ℕ) → (n ≡ 0) ⊎ ((left : ℕ) × (n ≡ suc left))
tokens-cases zero = inl refl
tokens-cases (suc n) = inr (n, refl)

-- An operation that waits can take the token at once, or another one holds it.
pub waits_or_acquires :
    (s : Gate) (before after : List Operation)
    → Reach s
    → s.operations ≡ before ++ waiting ∷ after
    → ((left : ℕ) × Step s (record { tokens = left; operations = before ++ holding ∷ after }))
      ⊎ (holders s.operations ≡ 1)
unfolding IsOneToken
waits_or_acquires s before after r e = elim (tokens-cases s.tokens) [
  | inl empty ↦ inr (omega (arith, Reach-IsOneToken s r))
  | inr (left, full) ↦ inl (left, act before after waiting holding left (acquire left full) e refl)
]

-- An operation that holds the gate can put its token back at once.
pub release_is_free :
    (s : Gate) (before after : List Operation) (error : Option ErrorCode)
    → Reach s
    → s.operations ≡ before ++ holding ∷ after
    → Step s (record { tokens = suc s.tokens; operations = before ++ over error ∷ after })
unfolding IsOneToken
release_is_free s before after error r e =
    let held : 1 ≤ holders s.operations = rw e (holders-of before after) in
    act before after holding (over error) (suc s.tokens)
      (release error (omega (arith, Reach-IsOneToken s r))) e refl
