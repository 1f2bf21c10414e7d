-- ===== src/Config/DotEnv/Writable.antt =====
-- Which values a dotenv file can hold.
use wazzap_agent_go.Utf8.{valid_string}
use wazzap_agent_go.Prelude.{
  ℕ, ◌≡◌, ◌≤◌, ◌↔◌, ◌⊎◌, inl, inr, refl, subst, arith, true, false, ◌||◌, ◌==◌, ltb, Bool-cases, [],
  ◌∷◌, ◌++◌, All, if◌then◌else◌, Result-cases, ok, err, Text,
}
use wazzap_agent_go.Config.DotEnv.{
  null_byte, control_character, quote_byte, quote_from, quote_dot_env_value,
}

-- A byte that a value may contain: not a control byte, or a line feed, a carriage return or a tab.
abbrev pub Writable : ℕ → Type 0
Writable c = (0x20 ≤ c) ⊎ ((c ≡ b'\n') ⊎ ((c ≡ b'\r') ⊎ (c ≡ b'\t')))

not_special : (c : ℕ) → ltb c 0x20 ≡ true → (c == b'\\' || (c == b'"' || c == b'$')) ≡ false
not_special c below = ground arith

control :
    (c : ℕ) (s : Text)
    → ltb c 0x20 ≡ true
    → (if c == 0 then err null_byte else if ltb c 0x20 then err control_character else ok (c ∷ []))
      ≡ ok s
    → ⊥
control c s below h = ground arith

written_from : (c : ℕ) (s : Text) → quote_byte c ≡ ok s → Writable c
unfolding quote_byte
written_from c s h = elim (Bool-cases (ltb c 0x20)) [
  | inr above ↦ inl (ground arith)
  | inl below ↦ elim (Bool-cases (c == b'\n')) [
    | inl here ↦ inr (inl (ground arith))
    | inr n1 ↦ elim (Bool-cases (c == b'\r')) [
      | inl here ↦ inr (inr (inl (ground arith)))
      | inr n2 ↦ elim (Bool-cases (c == b'\t')) [
        | inl here ↦ inr (inr (inr (ground arith)))
        | inr n3 ↦ absurd (
            control c s below (subst (λ r. r ≡ ok s) (rw (not_special c below, n1, n2, n3) refl) h))
      ]
    ]
  ]
]

written_to : (c : ℕ) → Writable c → (s : Text) × (quote_byte c ≡ ok s)
unfolding quote_byte
written_to c (inl above) = elim (Bool-cases (c == b'\\' || (c == b'"' || c == b'$'))) [
  | inl special ↦ (b'\\' ∷ c ∷ [], ground arith)
  | inr plain ↦ (c ∷ [], ground arith)
]
written_to c (inr (inl here)) = (b'\\' ∷ b'n' ∷ [], ground arith)
written_to c (inr (inr (inl here))) = (b'\\' ∷ b'r' ∷ [], ground arith)
written_to c (inr (inr (inr here))) = (b'\\' ∷ b't' ∷ [], ground arith)

quote_byte_iff : (c : ℕ) → ((s : Text) × (quote_byte c ≡ ok s)) ↔ Writable c
unfolding quote_byte
quote_byte_iff c = (λ (s, h). written_from c s h, λ w. written_to c w)

quote_from_iff : (value : Text) → ((q : Text) × (quote_from value ≡ ok q)) ↔ All Writable value
unfolding quote_from
quote_from_iff [] = (λ h. tt, λ h. (b'"' ∷ [], refl))
quote_from_iff (c ∷ cs) =
    let (byte, byte') = quote_byte_iff c in
    let (bytes, bytes') = quote_from_iff cs in
    (
      λ (q, h). elim (Result-cases (quote_byte c)) [
        | inr (e, f) ↦ absurd (ground arith)
        | inl (s, f) ↦ elim (Result-cases (quote_from cs)) [
          | inr (e, g) ↦ absurd (ground arith)
          | inl (t, g) ↦ (byte (s, f), bytes (t, g))
        ]
      ],
      λ (w, ws). let (s, f) = byte' w in let (t, g) = bytes' ws in (s ++ t, rw (f, g) refl),
    )

-- A value can be written exactly when it is valid UTF-8 without control bytes other than line feeds,
-- carriage returns and tabs.
pub quote_dot_env_value_iff :
    (value : Text)
    → ((q : Text) × (quote_dot_env_value value ≡ ok q))
      ↔ ((valid_string value ≡ true) × All Writable value)
unfolding quote_dot_env_value
quote_dot_env_value_iff value =
    let (from, to) = quote_from_iff value in
    (
      λ (q, h). elim (Bool-cases (valid_string value)) [
        | inr bad ↦ absurd (ground arith)
        | inl valid ↦ elim (Result-cases (quote_from value)) [
          | inr (e, f) ↦ absurd (ground arith)
          | inl (t, f) ↦ (valid, from (t, f))
        ]
      ],
      λ (valid, ws). let (t, f) = to ws in (b'"' ∷ t, rw (valid, f) refl),
    )
