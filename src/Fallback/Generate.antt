-- ===== src/Fallback/Generate.antt =====
-- Which candidate answers, and which error is reported.
use wazzap_agent_go.Prelude.{
  ℕ, suc, ◌+◌, ◌≡◌, refl, ap, true, false, inl, inr, List, [], ◌∷◌, ◌++◌, Option, none, some, arith,
  length, Result, Result-cases, Option-cases, Bool-cases, ok, err,
}
use wazzap_agent_go.Errors.{ErrorCode, unavailable}
use wazzap_agent_go.Fallback.{
  Admitted, ContextError, retryable_model_error, context_error, generate_from, generate,
}

shift : (i n : ℕ) → i + suc n ≡ suc i + n
shift i n = omega arith

at_start : (i : ℕ) → i + 0 ≡ i
at_start i = omega arith

module _ {Q R : Type 0} (ctx : ℕ → Option ContextError) (request : Q) where
  -- From the i-th candidate on, the context is alive and each candidate fails in a way that allows
  -- the next to be asked; `last` is the error before them, `last'` the one after them.
  pub data Skips (last' : ErrorCode) : ℕ → ErrorCode → List (Admitted Q R) → Type 0 where
    none_left : {i : ℕ} {last : ErrorCode} → last ≡ last' → Skips last' i last []
    skip :
        {i : ℕ} {last : ErrorCode} {c : Admitted Q R} {cs : List (Admitted Q R)} (code : ErrorCode)
        → ctx i ≡ none
        → c.model request ≡ err code
        → retryable_model_error code ≡ true
        → Skips last' (suc i) code cs
        → Skips last' i last (c ∷ cs)

  -- How a chain ends: a candidate answers; one fails for good; the context is done before one; or
  -- none is left.
  pub data Ends (i : ℕ) (last : ErrorCode) (cs : List (Admitted Q R)) (r : Result ErrorCode R)
      : Type 0 where
    answered :
        (before after : List (Admitted Q R)) (c : Admitted Q R) (last' : ErrorCode) (result : R)
        → cs ≡ before ++ c ∷ after
        → Skips last' i last before
        → ctx (i + length before) ≡ none
        → c.model request ≡ ok result
        → r ≡ ok result
        → Ends i last cs r
    refused :
        (before after : List (Admitted Q R)) (c : Admitted Q R) (last' code : ErrorCode)
        → cs ≡ before ++ c ∷ after
        → Skips last' i last before
        → ctx (i + length before) ≡ none
        → c.model request ≡ err code
        → retryable_model_error code ≡ false
        → r ≡ err code
        → Ends i last cs r
    interrupted :
        (before after : List (Admitted Q R)) (c : Admitted Q R) (last' : ErrorCode)
        (e : ContextError)
        → cs ≡ before ++ c ∷ after
        → Skips last' i last before
        → ctx (i + length before) ≡ some e
        → r ≡ err (context_error e)
        → Ends i last cs r
    exhausted : (last' : ErrorCode) → Skips last' i last cs → r ≡ err last' → Ends i last cs r

  -- One more skipped candidate in front.
  Ends-skip :
      (i : ℕ) (last code : ErrorCode) (c : Admitted Q R) (cs : List (Admitted Q R))
      (r : Result ErrorCode R)
      → ctx i ≡ none
      → c.model request ≡ err code
      → retryable_model_error code ≡ true
      → Ends (suc i) code cs r
      → Ends i last (c ∷ cs) r
  Ends-skip i last code c cs r h1 h2 h3
        (answered before after d last' result e skips alive ok' same) =
      answered (c ∷ before) after d last' result (ap (λ t. c ∷ t) e) (skip code h1 h2 h3 skips)
        (rw (shift i (length before)) alive) ok' same
  Ends-skip i last code c cs r h1 h2 h3
        (refused before after d last' code' e skips alive f n same) =
      refused (c ∷ before) after d last' code' (ap (λ t. c ∷ t) e) (skip code h1 h2 h3 skips)
        (rw (shift i (length before)) alive) f n same
  Ends-skip i last code c cs r h1 h2 h3 (interrupted before after d last' e' e skips dead same) =
      interrupted (c ∷ before) after d last' e' (ap (λ t. c ∷ t) e) (skip code h1 h2 h3 skips)
        (rw (shift i (length before)) dead) same
  Ends-skip i last code c cs r h1 h2 h3 (exhausted last' skips same) =
      exhausted last' (skip code h1 h2 h3 skips) same

  step_exhausted :
      (i : ℕ) (last : ErrorCode) → generate_from {R = R} ctx request i last [] ≡ err last
  unfolding generate_from
  step_exhausted i last = refl

  module _ (i : ℕ) (last code : ErrorCode) (c : Admitted Q R) (cs : List (Admitted Q R)) where
    step_skipped :
        ctx i ≡ none
        → c.model request ≡ err code
        → retryable_model_error code ≡ true
        → generate_from ctx request i last (c ∷ cs) ≡ generate_from ctx request (suc i) code cs
    unfolding generate_from
    step_skipped alive f retry = ground arith

    step_refused :
        ctx i ≡ none
        → c.model request ≡ err code
        → retryable_model_error code ≡ false
        → generate_from ctx request i last (c ∷ cs) ≡ err code
    unfolding generate_from
    step_refused alive f final = ground arith

  step_answered :
      (i : ℕ) (last : ErrorCode) (c : Admitted Q R) (cs : List (Admitted Q R)) (result : R)
      → ctx i ≡ none
      → c.model request ≡ ok result
      → generate_from ctx request i last (c ∷ cs) ≡ ok result
  unfolding generate_from
  step_answered i last c cs result alive f = ground arith

  step_interrupted :
      (i : ℕ) (last : ErrorCode) (e : ContextError) (c : Admitted Q R) (cs : List (Admitted Q R))
      → ctx i ≡ some e
      → generate_from ctx request i last (c ∷ cs) ≡ err (context_error e)
  unfolding generate_from
  step_interrupted i last e c cs dead = ground arith

  generate_from-Ends :
      (i : ℕ) (last : ErrorCode) (cs : List (Admitted Q R))
      → Ends i last cs (generate_from ctx request i last cs)
  generate_from-Ends i last [] = exhausted last (none_left refl) (step_exhausted i last)
  generate_from-Ends i last (c ∷ cs) =
      let rest = λ (code : ErrorCode). generate_from-Ends (suc i) code cs in
      elim (Option-cases (ctx i)) [
        | inr (e, dead) ↦
            interrupted [] cs c last e refl (none_left refl) (rw (at_start i) dead)
              (step_interrupted i last e c cs dead)
        | inl alive ↦ elim (Result-cases (c.model request)) [
          | inl (result, f) ↦
              answered [] cs c last result refl (none_left refl) (rw (at_start i) alive) f
                (step_answered i last c cs result alive f)
          | inr (code, f) ↦ elim (Bool-cases (retryable_model_error code)) [
            | inl retry ↦
                rw (step_skipped i last code c cs alive f retry)
                  (Ends-skip i last code c cs _ alive f retry (rest code))
            | inr final ↦
                refused [] cs c last code refl (none_left refl) (rw (at_start i) alive) f final
                  (step_refused i last code c cs alive f final)
          ]
        ]
      ]

  -- Generate asks the candidates in order, each only while the context is alive and all before it
  -- failed in a way that allows the next. It returns the first answer; or the first error that does
  -- not allow another; or the context's error, as a timeout or a cancellation; or, when none is left,
  -- the last candidate's error.
  pub generate-Ends :
      (candidates : List (Admitted Q R))
      → Ends 0 unavailable candidates (generate ctx request candidates)
  unfolding generate
  generate-Ends candidates = generate_from-Ends 0 unavailable candidates
