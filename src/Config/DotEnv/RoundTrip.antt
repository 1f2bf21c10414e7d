-- ===== src/Config/DotEnv/RoundTrip.antt =====
-- Writing a value and reading it back.
use wazzap_agent_go.Utf8.{valid_string}
use wazzap_agent_go.Prelude.{
  ℕ, ◌≡◌, ◌≢◌, ◌⊎◌, inl, inr, refl, sym, ap, ◌∙◌, subst, arith, false, ◌||◌, ◌==◌, ltb, Bool-cases,
  [], ◌∷◌, ◌++◌, append_assoc, some, if◌then◌else◌, Result-cases, ok, err, Text,
}
use wazzap_agent_go.Config.DotEnv.{
  ValueError, unterminated_double_quoted, null_byte, control_character, unescaped, unescape_from,
  unescape_double_quoted, unsnoc, closed_by, parse_dot_env_value, quote_byte, quote_from,
  quote_dot_env_value,
}

unsnoc-append : (s : Text) (c : ℕ) → unsnoc (s ++ c ∷ []) ≡ some (s, c)
unfolding unsnoc
unsnoc-append [] c = refl
unsnoc-append (d ∷ s) c = rw (unsnoc-append s c) refl

-- A byte and what it is written as.
abbrev Writes : ℕ → Text → Type 0
Writes c s =
    ((s ≡ c ∷ []) × (c ≢ b'\\')) ⊎ ((d : ℕ) × (s ≡ b'\\' ∷ d ∷ []) × (unescaped d ≡ c ∷ []))

-- The last tests of quote_byte.
controls :
    (c : ℕ) (s : Text)
    → (if c == 0 then err null_byte else if ltb c 0x20 then err control_character else ok (c ∷ []))
      ≡ ok s
    → s ≡ c ∷ []
controls c s h = elim (Bool-cases (c == 0)) [
  | inl z ↦ absurd (ground arith)
  | inr n ↦ elim (Bool-cases (ltb c 0x20)) [ inl l ↦ absurd (ground arith) | inr g ↦ ground arith ]
]

quote_byte-Writes : (c : ℕ) (s : Text) → quote_byte c ≡ ok s → Writes c s
unfolding quote_byte
quote_byte-Writes c s h = elim (Bool-cases (c == b'\\' || (c == b'"' || c == b'$'))) [
  | inl special ↦ inr (c, ground arith, ground arith)
  | inr plain ↦ elim (Bool-cases (c == b'\n')) [
    | inl here ↦ inr (b'n', ground arith, ground arith)
    | inr n1 ↦ elim (Bool-cases (c == b'\r')) [
      | inl here ↦ inr (b'r', ground arith, ground arith)
      | inr n2 ↦ elim (Bool-cases (c == b'\t')) [
        | inl here ↦ inr (b't', ground arith, ground arith)
        | inr n3 ↦
            inl (controls c s (subst (λ r. r ≡ ok s) (rw (plain, n1, n2, n3) refl) h), ground arith)
      ]
    ]
  ]
]

unescape_plain :
    (c : ℕ) (rest value : Text)
    → c ≢ b'\\'
    → unescape_from false rest ≡ ok value
    → unescape_from false (c ∷ rest) ≡ ok (c ∷ value)
unfolding unescape_from
unescape_plain c rest value n h = elim (Bool-cases (c == b'\\')) [
  | inl same ↦ absurd (n (ground arith))
  | inr other ↦ rw (other, h) refl
]

unescape_escape :
    (c d : ℕ) (rest value : Text)
    → unescaped d ≡ c ∷ []
    → unescape_from false rest ≡ ok value
    → unescape_from false (b'\\' ∷ d ∷ rest) ≡ ok (c ∷ value)
unfolding unescape_from
unescape_escape c d rest value u h = rw (h, u) refl

unescape_written :
    (c : ℕ) (s rest value : Text)
    → Writes c s
    → unescape_from false rest ≡ ok value
    → unescape_from false (s ++ rest) ≡ ok (c ∷ value)
unescape_written c s rest value (inl (e, n)) h = rw e (unescape_plain c rest value n h)
unescape_written c s rest value (inr (d, e, u)) h = rw e (unescape_escape c d rest value u h)

-- The written bytes, without the closing quote, read back as the value.
abbrev ReadsBack : Text → Text → Type 0
ReadsBack value q = (body : Text) × (q ≡ body ++ b'"' ∷ []) × (unescape_from false body ≡ ok value)

joined : (s t body q : Text) → t ≡ body ++ b'"' ∷ [] → q ≡ s ++ t → q ≡ (s ++ body) ++ b'"' ∷ []
joined s t body q e h = h ∙ (ap (λ u. s ++ u) e ∙ sym (append_assoc s body (b'"' ∷ [])))

quote_from-ReadsBack : (value q : Text) → quote_from value ≡ ok q → ReadsBack value q
unfolding quote_from unescape_from
quote_from-ReadsBack [] q h = ([], ground arith, refl)
quote_from-ReadsBack (c ∷ cs) q h = elim (Result-cases (quote_byte c)) [
  | inr (e, f) ↦ absurd (ground arith)
  | inl (s, f) ↦ elim (Result-cases (quote_from cs)) [
    | inr (e, g) ↦ absurd (ground arith)
    | inl (t, g) ↦
        let (body, split, back) = quote_from-ReadsBack cs t g in
        (
          s ++ body,
          joined s t body q split (ground arith),
          unescape_written c s body cs (quote_byte-Writes c s f) back,
        )
  ]
]

quoted :
    (value q t : Text) → quote_from value ≡ ok t → quote_dot_env_value value ≡ ok q → q ≡ b'"' ∷ t
unfolding quote_dot_env_value
quoted value q t f h = elim (Bool-cases (valid_string value)) [
  | inl valid ↦ ground arith
  | inr bad ↦ absurd (ground arith)
]

closed_by_quote :
    (quote : ℕ) (e : ValueError) (s : Text) → closed_by quote e (s ++ quote ∷ []) ≡ ok s
unfolding closed_by
closed_by_quote quote e s = let last = unsnoc-append s quote in ground arith

parse_quoted :
    (body value : Text)
    → unescape_from false body ≡ ok value
    → parse_dot_env_value (b'"' ∷ (body ++ b'"' ∷ [])) ≡ ok value
unfolding parse_dot_env_value unescape_double_quoted
parse_quoted body value back = rw (closed_by_quote b'"' unterminated_double_quoted body, back) refl

-- A value that can be written reads back as itself.
pub quote_dot_env_value-parse_dot_env_value :
    (value q : Text) → quote_dot_env_value value ≡ ok q → parse_dot_env_value q ≡ ok value
unfolding quote_dot_env_value
quote_dot_env_value-parse_dot_env_value value q h = elim (Result-cases (quote_from value)) [
  | inr (e, f) ↦ absurd (ground arith)
  | inl (t, f) ↦
      let (body, split, back) = quote_from-ReadsBack value t f in
      rw (quoted value q t f h, split) (parse_quoted body value back)
]
