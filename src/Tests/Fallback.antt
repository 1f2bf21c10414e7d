-- ===== src/Tests/Fallback.antt =====
-- The chain of candidates at concrete models.
use wazzap_agent_go.Prelude.{
  ℕ, ◌≡◌, refl, List, [], ◌∷◌, Option, none, some, ok, err, text, text_eq,
}
use wazzap_agent_go.Errors.{rate_limited, unavailable}
use wazzap_agent_go.Fallback.{Candidate, Admitted, ContextError, new, admit, generate}
use wazzap_agent_go.Fallback.Generate.{Ends, generate-Ends}

abbrev limited : Candidate ℕ ℕ
limited = record { name = text "main"; model = some (λ q. err rate_limited) }

abbrev echo : Candidate ℕ ℕ
echo = record { name = text "spare"; model = some (λ q. ok q) }

abbrev admitted : List (Admitted ℕ ℕ)
admitted =
    record { name = text "main"; model = λ q. err rate_limited }
    ∷ record { name = text "spare"; model = λ q. ok q }
    ∷ []

abbrev alive : ℕ → Option ContextError
alive i = none

generate-Ends_example : Ends alive 7 0 unavailable admitted (generate alive 7 admitted)
generate-Ends_example = generate-Ends alive 7 admitted

both_admitted : new (limited ∷ echo ∷ []) ≡ ok admitted
unfolding new admit text_eq
both_admitted = refl
