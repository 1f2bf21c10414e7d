-- ===== src/Fallback.antt =====
-- internal/llm/fallback/fallback.go: a chain of at most four model candidates.
pub mod Generate
pub mod New
use wazzap_agent_go.Prelude.{
  ℕ, suc, Bool, true, false, ◌||◌, ◌==◌, ltb, List, [], ◌∷◌, Option, none, some, if◌then◌else◌,
  length, Result, ok, err, ◌>>=◌, Text, text_eq, elem,
}
use wazzap_agent_go.Errors.{
  ErrorCode, invalid_argument, unavailable, rate_limited, timeout, provider_failure, internal,
  cancelled,
}

abbrev pub max_candidates : ℕ
max_candidates = 4

-- A model that answers a request of type `Q` by a value of type `R`; `none` is a nil model.
pub record Candidate (Q R : Type 0) : Type 0 where
  pub name : Text
  pub model : Option (Q → Result ErrorCode R)

-- A candidate that the constructor admitted.
pub record Admitted (Q R : Type 0) : Type 0 where
  pub name : Text
  pub model : Q → Result ErrorCode R

pub data ContextError : Type 0 where
  deadline_exceeded canceled : ContextError

module _ {Q R : Type 0} where
  abbrev add : Admitted Q R → List (Admitted Q R) → Result ErrorCode (List (Admitted Q R))
  add a rest = ok (a ∷ rest)

  -- The loop of New over the candidates, with the names seen so far.
  unfoldable pub admit : List Text → List (Candidate Q R) → Result ErrorCode (List (Admitted Q R))
  unfolding elem
  admit seen [] = ok []
  admit seen (c ∷ cs) = elim c.model [
    | none ↦ err invalid_argument
    | some model ↦
        if text_eq c.name [] || elem c.name seen
        then err invalid_argument
        else (admit (c.name ∷ seen) cs >>= λ rest.
            add (record { name = c.name; model = model }) rest)
  ]

  unfoldable pub new : List (Candidate Q R) → Result ErrorCode (List (Admitted Q R))
  new candidates =
      if length candidates == 0 || ltb max_candidates (length candidates)
      then err invalid_argument
      else admit [] candidates

unfoldable pub retryable_model_error : ErrorCode → Bool
retryable_model_error rate_limited = true
retryable_model_error timeout = true
retryable_model_error unavailable = true
retryable_model_error provider_failure = true
retryable_model_error internal = true
retryable_model_error _ = false

unfoldable pub context_error : ContextError → ErrorCode
context_error deadline_exceeded = timeout
context_error canceled = cancelled

module _ {Q R : Type 0} (ctx : ℕ → Option ContextError) (request : Q) where
  -- The loop of Generate: `ctx i` is what ctx.Err() gives before the i-th candidate.
  unfoldable pub generate_from : ℕ → ErrorCode → List (Admitted Q R) → Result ErrorCode R
  unfolding retryable_model_error context_error
  generate_from i last [] = err last
  generate_from i last (c ∷ cs) = elim (ctx i) [
    | some e ↦ err (context_error e)
    | none ↦ elim (c.model request) [
      | ok result ↦ ok result
      | err code ↦ if retryable_model_error code then generate_from (suc i) code cs else err code
    ]
  ]

  -- Without a candidate there is no last error, and the invoker is unavailable.
  unfoldable pub generate : List (Admitted Q R) → Result ErrorCode R
  unfolding generate_from
  generate candidates = generate_from 0 unavailable candidates
