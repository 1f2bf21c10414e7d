-- ===== src/Policy/Permission/Token.antt =====
-- The tokenizer of internal/policy/permission.go, over the bytes of the expression.
use wazzap_agent_go.Prelude.{
  ℕ, zero, suc, Bool, not, ◌&&◌, ◌||◌, List, [], ◌∷◌, ◌++◌, leb, ltb, ◌==◌, if◌then◌else◌, take,
  drop, length, Result, ok, err, ◌>>=◌, Text, text, text_eq, to_lower,
}
use wazzap_agent_go.Utf8.{decode_rune, is_space, rune_error, rune_self}

-- A permissionToken: the kind, with its text where the kind does not fix it.
pub data Token : Type 0 where
  eof bang open_paren close_paren : Token
  atom conj disj : Text → Token

-- One constructor for each error message.
pub data PermissionError : Type 0 where
  invalid_utf8 missing_close incomplete unexpected_close : PermissionError
  invalid_character : ℕ → PermissionError
  unexpected_token expected_close : Token → PermissionError
  unexpected_operator unknown_atom : Text → PermissionError

-- `out_of_fuel` has no counterpart in the program.
pub data Failure : Type 0 where
  reported : PermissionError → Failure
  out_of_fuel : Failure

abbrev pub Outcome : Type 0 → Type 0
Outcome A = Result Failure A

unfoldable pub is_identifier_start : ℕ → Bool
is_identifier_start r =
    r == b'_' || ltb r rune_self && (leb b'a' r && leb r b'z' || leb b'A' r && leb r b'Z')

unfoldable pub is_identifier_part : ℕ → Bool
unfolding is_identifier_start
is_identifier_part r = is_identifier_start r || (leb b'0' r && leb r b'9' || r == b'-')

abbrev pub is_invalid : ℕ × ℕ → Bool
is_invalid d = d.0 == rune_error && d.1 == 1

abbrev prepend : Text → Text × Text → Outcome (Text × Text)
prepend s (word, rest) = ok (s ++ word, rest)

-- The inner loop: the identifier's remaining bytes, and what follows them.
unfoldable pub scan_identifier : ℕ → Text → Outcome (Text × Text)
scan_identifier zero s = err out_of_fuel
scan_identifier (suc f) [] = ok ([], [])
scan_identifier (suc f) (c ∷ s) =
    let next = decode_rune (c ∷ s) in
    let more = scan_identifier f (drop next.1 (c ∷ s)) >>= prepend (take next.1 (c ∷ s)) in
    if is_invalid next
    then err (reported invalid_utf8)
    else if not (is_identifier_part next.0)
    then ok ([], c ∷ s)
    else more

unfoldable pub word_token : Text → Token
word_token word =
    if text_eq (to_lower word) (text "and")
    then conj word
    else if text_eq (to_lower word) (text "or")
    then disj word
    else atom word

abbrev push : Token → Outcome (List Token) → Outcome (List Token)
push t rest = rest >>= λ ts. ok (t ∷ ts)

unfoldable pub tokenize_from : ℕ → Text → Outcome (List Token)
tokenize_from zero s = err out_of_fuel
tokenize_from (suc f) [] = ok (eof ∷ [])
tokenize_from (suc f) (c ∷ s) =
    let first = decode_rune (c ∷ s) in
    let after = drop first.1 (c ∷ s) in
    let more = tokenize_from f after in
    let identifier = scan_identifier f after >>= λ found.
    push (word_token (take first.1 (c ∷ s) ++ found.0)) (tokenize_from f found.1) in
    if is_invalid first
    then err (reported invalid_utf8)
    else if is_space first.0
    then more
    else if first.0 == b'!'
    then push bang more
    else if first.0 == b'('
    then push open_paren more
    else if first.0 == b')'
    then push close_paren more
    else if is_identifier_start first.0
    then identifier
    else err (reported (invalid_character first.0))

-- Each round consumes a byte, so the length bounds the rounds.
unfoldable pub tokenize_permission : Text → Outcome (List Token)
tokenize_permission s = tokenize_from (suc (length s)) s
