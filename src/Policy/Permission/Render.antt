-- ===== src/Policy/Permission/Render.antt =====
-- Writing tokens out with a space after each, and reading them back.
use wazzap_agent_go.Prelude.{
  ℕ, zero, suc, ◌+◌, ◌<◌, ◌≡◌, ◌∙◌, refl, true, false, [], ◌∷◌, ◌++◌, arith, length, length-append,
  All, ok, ◌>>=◌, Text, ◌==◌,
}
use wazzap_agent_go.Utf8.{decode_rune_ascii, is_space, rune_self}
use wazzap_agent_go.Policy.Permission.Token.{
  Token, eof, atom, bang, open_paren, close_paren, conj, disj, scan_identifier, word_token,
  is_identifier_start, is_identifier_part, is_invalid, tokenize_from, tokenize_permission,
}
use wazzap_agent_go.Policy.Permission.Parser.{PermissionFacts, Tokens, evaluate_permission}
use wazzap_agent_go.Policy.Permission.Grammar.{Or, emit_or, denote_or}
use wazzap_agent_go.Policy.Permission.Correct.{evaluate_permission-eq-ok_iff}

abbrev pub spelling : Token → Text
spelling eof = []
spelling bang = b'!' ∷ []
spelling open_paren = b'(' ∷ []
spelling close_paren = b')' ∷ []
spelling (atom word) = word
spelling (conj word) = word
spelling (disj word) = word

unfoldable pub render : Tokens → Text
render [] = []
render (t ∷ ts) = spelling t ++ b' ' ∷ render ts

abbrev pub IsIdentifier : Text → Type 0
IsIdentifier [] = ⊥
IsIdentifier (c ∷ s) =
    (is_identifier_start c ≡ true) × All (λ (d : ℕ). is_identifier_part d ≡ true) s

-- A token other than EOF whose word, if it has one, is an identifier of its kind.
abbrev pub IsSpelled : Token → Type 0
IsSpelled eof = ⊥
IsSpelled bang = Unit
IsSpelled open_paren = Unit
IsSpelled close_paren = Unit
IsSpelled (atom word) = IsIdentifier word × (word_token word ≡ atom word)
IsSpelled (conj word) = IsIdentifier word × (word_token word ≡ conj word)
IsSpelled (disj word) = IsIdentifier word × (word_token word ≡ disj word)

part_ascii : (c : ℕ) → is_identifier_part c ≡ true → c < rune_self
unfolding is_identifier_part
part_ascii c h = ground arith

start-part : (c : ℕ) → is_identifier_start c ≡ true → is_identifier_part c ≡ true
unfolding is_identifier_part
start-part c h = ground arith

ascii_valid : (c : ℕ) → c < rune_self → is_invalid (c, 1) ≡ false
ascii_valid c h = ground arith

scan_identifier_part :
    (f c : ℕ) (s : Text)
    → is_identifier_part c ≡ true
    → scan_identifier (suc f) (c ∷ s) ≡ (scan_identifier f s >>= λ found. ok (c ∷ found.0, found.1))
unfolding scan_identifier
scan_identifier_part f c s h =
    rw (decode_rune_ascii c s (part_ascii c h), ascii_valid c (part_ascii c h), h)

scan_identifier_space : (f : ℕ) (s : Text) → scan_identifier (suc f) (b' ' ∷ s) ≡ ok ([], b' ' ∷ s)
unfolding scan_identifier is_identifier_part
scan_identifier_space f s = rw (decode_rune_ascii b' ' s (omega arith))

scan_identifier_word :
    (f : ℕ) (word rest : Text)
    → All (λ (d : ℕ). is_identifier_part d ≡ true) word
    → length word < f
    → scan_identifier f (word ++ b' ' ∷ rest) ≡ ok (word, b' ' ∷ rest)
scan_identifier_word zero word rest h k = absurd (omega arith)
scan_identifier_word (suc f) [] rest h k = scan_identifier_space f rest
scan_identifier_word (suc f) (c ∷ word) rest h k = rw (
  scan_identifier_part f c (word ++ b' ' ∷ rest) h.0,
  scan_identifier_word f word rest h.1 (omega arith),
)

tokenize_from_space : (f : ℕ) (s : Text) → tokenize_from (suc f) (b' ' ∷ s) ≡ tokenize_from f s
unfolding tokenize_from is_space
tokenize_from_space f s = rw (decode_rune_ascii b' ' s (omega arith))

start_tests :
    (c : ℕ)
    → is_identifier_start c ≡ true
    → (is_space c ≡ false) × ((c == b'!') ≡ false) × ((c == b'(') ≡ false) × ((c == b')') ≡ false)
unfolding is_identifier_start is_space
start_tests c h = ground arith

tokenize_from_word :
    (f c : ℕ) (word rest : Text)
    → IsIdentifier (c ∷ word)
    → length word < f
    → tokenize_from (suc f) ((c ∷ word) ++ b' ' ∷ rest)
      ≡ (tokenize_from f (b' ' ∷ rest) >>= λ ts. ok (word_token (c ∷ word) ∷ ts))
unfolding tokenize_from
tokenize_from_word f c word rest (start, parts) h =
    let ascii = part_ascii c (start-part c start) in
    let (space, bang', opens, closes) = start_tests c start in
    rw (
      decode_rune_ascii c (word ++ b' ' ∷ rest) ascii,
      ascii_valid c ascii,
      space,
      bang',
      opens,
      closes,
      start,
      scan_identifier_word f word rest parts (omega arith),
    )

tokenize_from_punctuation :
    (f : ℕ) (rest : Text)
    → (tokenize_from (suc f) (b'!' ∷ rest) ≡ (tokenize_from f rest >>= λ ts. ok (bang ∷ ts)))
      × (tokenize_from (suc f) (b'(' ∷ rest)
          ≡ (tokenize_from f rest >>= λ ts. ok (open_paren ∷ ts)))
      × (tokenize_from (suc f) (b')' ∷ rest)
          ≡ (tokenize_from f rest >>= λ ts. ok (close_paren ∷ ts)))
unfolding tokenize_from is_space
tokenize_from_punctuation f rest = (
  rw (decode_rune_ascii b'!' rest (omega arith)),
  rw (decode_rune_ascii b'(' rest (omega arith)),
  rw (decode_rune_ascii b')' rest (omega arith)),
)

Reads : ℕ → Tokens → Type 0
Reads f ts = tokenize_from f (render ts) ≡ ok (ts ++ eof ∷ [])

tokenize_from_spelled :
    (f c : ℕ) (word : Text) (ts : Tokens)
    → IsIdentifier (c ∷ word)
    → length word < suc f
    → Reads f ts
    → tokenize_from (suc (suc f)) ((c ∷ word) ++ b' ' ∷ render ts)
      ≡ ok (word_token (c ∷ word) ∷ (ts ++ eof ∷ []))
unfolding Reads
tokenize_from_spelled f c word ts spelled h read = rw (
  tokenize_from_word (suc f) c word (render ts) spelled h,
  tokenize_from_space f (render ts),
  read,
)

length-spelling : (s rest : Text) → length (s ++ b' ' ∷ rest) ≡ length s + 1 + length rest
length-spelling s rest = omega (arith, length-append s (b' ' ∷ rest))

tokenize_from_nil : (f : ℕ) → tokenize_from (suc f) [] ≡ ok (eof ∷ [])
unfolding tokenize_from
tokenize_from_nil f = refl

tokenize_from-render :
    (f : ℕ) (ts : Tokens) → All IsSpelled ts → length (render ts) < f → Reads f ts
unfolding render Reads
tokenize_from-render zero ts h k = absurd (omega arith)
tokenize_from-render (suc f) [] h k = tokenize_from_nil f
tokenize_from-render (suc f) (eof ∷ ts) h k = absurd h.0
tokenize_from-render (suc zero) (t ∷ ts) h k =
    absurd (omega (arith, length-spelling (spelling t) (render ts)))
tokenize_from-render (suc (suc f)) (bang ∷ ts) h k = rw (
  (tokenize_from_punctuation (suc f) (b' ' ∷ render ts)).0,
  tokenize_from_space f (render ts),
  tokenize_from-render f ts h.1 (omega arith),
)
tokenize_from-render (suc (suc f)) (open_paren ∷ ts) h k = rw (
  (tokenize_from_punctuation (suc f) (b' ' ∷ render ts)).1,
  tokenize_from_space f (render ts),
  tokenize_from-render f ts h.1 (omega arith),
)
tokenize_from-render (suc (suc f)) (close_paren ∷ ts) h k = rw (
  (tokenize_from_punctuation (suc f) (b' ' ∷ render ts)).2,
  tokenize_from_space f (render ts),
  tokenize_from-render f ts h.1 (omega arith),
)
tokenize_from-render (suc (suc f)) (atom [] ∷ ts) h k = absurd h.0.0
tokenize_from-render (suc (suc f)) (conj [] ∷ ts) h k = absurd h.0.0
tokenize_from-render (suc (suc f)) (disj [] ∷ ts) h k = absurd h.0.0
tokenize_from-render (suc (suc f)) (atom (c ∷ word) ∷ ts) h k =
    let size = length-spelling (c ∷ word) (render ts) in
    tokenize_from_spelled f c word ts h.0.0 (omega arith)
      (tokenize_from-render f ts h.1 (omega arith))
    ∙ rw (h.0.1)
tokenize_from-render (suc (suc f)) (conj (c ∷ word) ∷ ts) h k =
    let size = length-spelling (c ∷ word) (render ts) in
    tokenize_from_spelled f c word ts h.0.0 (omega arith)
      (tokenize_from-render f ts h.1 (omega arith))
    ∙ rw (h.0.1)
tokenize_from-render (suc (suc f)) (disj (c ∷ word) ∷ ts) h k =
    let size = length-spelling (c ∷ word) (render ts) in
    tokenize_from_spelled f c word ts h.0.0 (omega arith)
      (tokenize_from-render f ts h.1 (omega arith))
    ∙ rw (h.0.1)

-- Tokens that are written out, each followed by a space, are read back one for one.
pub tokenize_permission-render :
    (ts : Tokens) → All IsSpelled ts → tokenize_permission (render ts) ≡ ok (ts ++ eof ∷ [])
unfolding tokenize_permission Reads
tokenize_permission-render ts h = tokenize_from-render (suc (length (render ts))) ts h (omega arith)

-- An expression tree whose words are identifiers, written out with a space after each token,
-- evaluates to its meaning.
pub evaluate_permission-render :
    (e : Or) (facts : PermissionFacts)
    → All IsSpelled (emit_or e)
    → evaluate_permission (render (emit_or e)) facts ≡ ok (denote_or e facts)
evaluate_permission-render e facts h =
    (evaluate_permission-eq-ok_iff (render (emit_or e)) facts (denote_or e facts)).1
      (e, tokenize_permission-render (emit_or e) h, refl)
