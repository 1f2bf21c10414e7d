-- ===== src/Policy/Permission/Scan.antt =====
-- The tokenizer ends within its fuel, and its tokens end in one EOF token.
use wazzap_agent_go.Prelude.{
  ℕ, zero, suc, ◌≤◌, ◌<◌, ◌≡◌, refl, Bool, true, false, not, List, [], ◌∷◌, ◌++◌, arith, length,
  length-drop, drop, take, ok, ◌>>=◌, Text, ◌==◌,
}
use wazzap_agent_go.Utf8.{decode_rune, decode_rune_width, is_space}
use wazzap_agent_go.Policy.Permission.Token.{
  Token, eof, bang, open_paren, close_paren, Outcome, scan_identifier, word_token,
  is_identifier_start, is_invalid, tokenize_from, tokenize_permission, is_identifier_part,
}
use wazzap_agent_go.Policy.Permission.Parser.{Tokens}
use wazzap_agent_go.Policy.Permission.Ensures.{Ensures, Ensures-bind, Ensures-if}

abbrev pub is_eof : Token → Bool
is_eof eof = true
is_eof _ = false

-- The one EOF token stands last.
abbrev pub Closed : Tokens → Type 0
Closed [] = ⊥
Closed (t ∷ []) = is_eof t ≡ true
Closed (t ∷ u ∷ ts) = (is_eof t ≡ false) × Closed (u ∷ ts)

Closed-cons : (t : Token) (ts : Tokens) → is_eof t ≡ false → Closed ts → Closed (t ∷ ts)
Closed-cons t [] h c = absurd c
Closed-cons t (u ∷ ts) h c = (h, c)

word_token-ne-eof : (word : Text) → is_eof (word_token word) ≡ false
unfolding word_token
word_token-ne-eof word = ground arith

-- A rune of at least one byte leaves a shorter rest.
length-drop_rune : (c : ℕ) (s : Text) → length (drop (decode_rune (c ∷ s)).1 (c ∷ s)) ≤ length s
length-drop_rune c s =
    omega (arith, length-drop (decode_rune (c ∷ s)).1 (c ∷ s), decode_rune_width c s)

abbrev Shorter : Text → Text × Text → Type 0
Shorter s r = length r.1 ≤ length s

scan_identifier-Ensures :
    (f : ℕ) (s : Text) → length s < f → Ensures (Shorter s) (scan_identifier f s)
unfolding scan_identifier
scan_identifier-Ensures zero s h = absurd (omega arith)
scan_identifier-Ensures (suc f) [] h = omega arith
scan_identifier-Ensures (suc f) (c ∷ s) h =
    let next = decode_rune (c ∷ s) in
    let after = drop next.1 (c ∷ s) in
    Ensures-if (Shorter (c ∷ s)) (is_invalid next) _ _ (λ _. tt)
      λ _.
        Ensures-if (Shorter (c ∷ s)) (not (is_identifier_part next.0)) _ _ (λ _. omega arith)
          λ _.
            Ensures-bind (Shorter after) (Shorter (c ∷ s)) _ _
              (scan_identifier-Ensures f after (omega (arith, length-drop_rune c s)))
              λ r shorter. omega (arith, length-drop_rune c s)

push-Ensures :
    (t : Token) (r : Outcome (List Token))
    → is_eof t ≡ false
    → Ensures Closed r
    → Ensures Closed (r >>= λ ts. ok (t ∷ ts))
push-Ensures t r h c = Ensures-bind Closed Closed r _ c λ ts closed. Closed-cons t ts h closed

tokenize_from-Ensures : (f : ℕ) (s : Text) → length s < f → Ensures Closed (tokenize_from f s)
unfolding tokenize_from
tokenize_from-Ensures zero s h = absurd (omega arith)
tokenize_from-Ensures (suc f) [] h = refl
tokenize_from-Ensures (suc f) (c ∷ s) h =
    let first = decode_rune (c ∷ s) in
    let after = drop first.1 (c ∷ s) in
    let more : Ensures Closed (tokenize_from f after) =
      tokenize_from-Ensures f after (omega (arith, length-drop_rune c s)) in
    Ensures-if Closed (is_invalid first) _ _ (λ _. tt)
      λ _.
        Ensures-if Closed (is_space first.0) _ _ (λ _. more)
          λ _.
            Ensures-if Closed (first.0 == b'!') _ _ (λ _. push-Ensures bang _ refl more)
              λ _.
                Ensures-if Closed (first.0 == b'(') _ _ (λ _. push-Ensures open_paren _ refl more)
                  λ _.
                    Ensures-if Closed (first.0 == b')') _ _
                      (λ _. push-Ensures close_paren _ refl more)
                      λ _.
                        Ensures-if Closed (is_identifier_start first.0) _ _
                          (λ _.
                            Ensures-bind (Shorter after) Closed _ _
                              (scan_identifier-Ensures f after
                                (omega (arith, length-drop_rune c s)))
                              λ r shorter.
                                push-Ensures (word_token (take first.1 (c ∷ s) ++ r.0)) _
                                  (word_token-ne-eof _)
                                  (tokenize_from-Ensures f r.1
                                    (omega (arith, length-drop_rune c s))))
                          λ _. tt

pub tokenize_permission-Ensures : (s : Text) → Ensures Closed (tokenize_permission s)
unfolding tokenize_permission
tokenize_permission-Ensures s = tokenize_from-Ensures (suc (length s)) s (omega arith)
