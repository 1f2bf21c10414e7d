-- ===== src/Utf8.antt =====
-- The parts of Go's unicode/utf8 and unicode packages that the program calls on the bytes of a
-- string.
use wazzap_agent_go.Prelude.{
  ℕ, zero, suc, ◌+◌, ◌-◌, ◌*◌, ◌≤◌, ◌<◌, ◌≡◌, Bool, true, not, ◌&&◌, ◌||◌, [], ◌∷◌, arith, leb, ltb,
  ◌==◌, if◌then◌else◌, Text,
}

abbrev pub rune_error : ℕ
rune_error = 0xfffd

abbrev pub rune_self : ℕ
rune_self = 0x80

abbrev in_range : ℕ → ℕ → ℕ → Bool
in_range lo hi b = leb lo b && leb b hi

-- The second byte of a sequence may not make it overlong, a surrogate or too large.
abbrev second_ok : ℕ → ℕ → Bool
second_ok b0 b1 =
    if b0 == 0xe0
    then in_range 0xa0 0xbf b1
    else if b0 == 0xed
    then in_range 0x80 0x9f b1
    else if b0 == 0xf0
    then in_range 0x90 0xbf b1
    else if b0 == 0xf4
    then in_range 0x80 0x8f b1
    else in_range 0x80 0xbf b1

decode_two : ℕ → Text → ℕ × ℕ
decode_two b0 (b1 ∷ _) =
    if in_range 0x80 0xbf b1 then ((b0 - 0xc0) * 64 + (b1 - 0x80), 2) else (rune_error, 1)
decode_two b0 [] = (rune_error, 1)

decode_three : ℕ → Text → ℕ × ℕ
decode_three b0 (b1 ∷ b2 ∷ _) =
    if second_ok b0 b1 && in_range 0x80 0xbf b2
    then ((b0 - 0xe0) * 4096 + (b1 - 0x80) * 64 + (b2 - 0x80), 3)
    else (rune_error, 1)
decode_three b0 _ = (rune_error, 1)

decode_four : ℕ → Text → ℕ × ℕ
decode_four b0 (b1 ∷ b2 ∷ b3 ∷ _) =
    if second_ok b0 b1 && (in_range 0x80 0xbf b2 && in_range 0x80 0xbf b3)
    then ((b0 - 0xf0) * 262144 + (b1 - 0x80) * 4096 + (b2 - 0x80) * 64 + (b3 - 0x80), 4)
    else (rune_error, 1)
decode_four b0 _ = (rune_error, 1)

-- utf8.DecodeRuneInString: the first rune and its width in bytes.
unfoldable pub decode_rune : Text → ℕ × ℕ
unfolding decode_two decode_three decode_four
decode_rune [] = (rune_error, 0)
decode_rune (b0 ∷ rest) =
    if ltb b0 rune_self
    then (b0, 1)
    else if in_range 0xc2 0xdf b0
    then decode_two b0 rest
    else if in_range 0xe0 0xef b0
    then decode_three b0 rest
    else if in_range 0xf0 0xf4 b0
    then decode_four b0 rest
    else (rune_error, 1)

-- unicode.IsSpace
unfoldable pub is_space : ℕ → Bool
is_space r =
    in_range 9 13 r
    || r == 0x20
    || r == 0x85
    || r == 0xa0
    || r == 0x1680
    || in_range 0x2000 0x200a r
    || r == 0x2028
    || r == 0x2029
    || r == 0x202f
    || r == 0x205f
    || r == 0x3000

-- An ASCII byte is a rune of its own.
pub decode_rune_ascii : (c : ℕ) (s : Text) → c < rune_self → decode_rune (c ∷ s) ≡ (c, 1)
unfolding decode_rune
decode_rune_ascii c s h = ground arith

decode_two_width : (b0 : ℕ) (s : Text) → (1 ≤ (decode_two b0 s).1) × ((decode_two b0 s).1 ≤ 2)
unfolding decode_two
decode_two_width b0 [] = ground arith
decode_two_width b0 (b1 ∷ _) = ground arith

decode_three_width : (b0 : ℕ) (s : Text) → 1 ≤ (decode_three b0 s).1
unfolding decode_three
decode_three_width b0 [] = ground arith
decode_three_width b0 (b1 ∷ []) = ground arith
decode_three_width b0 (b1 ∷ b2 ∷ _) = ground arith

decode_four_width : (b0 : ℕ) (s : Text) → 1 ≤ (decode_four b0 s).1
unfolding decode_four
decode_four_width b0 [] = ground arith
decode_four_width b0 (b1 ∷ []) = ground arith
decode_four_width b0 (b1 ∷ b2 ∷ []) = ground arith
decode_four_width b0 (b1 ∷ b2 ∷ b3 ∷ _) = ground arith

-- A rune of a non-empty string takes at least one byte.
pub decode_rune_width : (c : ℕ) (s : Text) → 1 ≤ (decode_rune (c ∷ s)).1
unfolding decode_rune
decode_rune_width c s =
    ground (arith, decode_two_width c s, decode_three_width c s, decode_four_width c s)

-- utf8.ValidString, with how many bytes of the sequence that stands before are left.
unfoldable pub valid_from : ℕ → Text → Bool
unfolding decode_rune
valid_from n [] = true
valid_from (suc n) (c ∷ s) = valid_from n s
valid_from zero (c ∷ s) =
    let (r, width) = decode_rune (c ∷ s) in
    let rest = valid_from (width - 1) s in not (r == rune_error && width == 1) && rest

unfoldable pub valid_string : Text → Bool
unfolding valid_from
valid_string s = valid_from 0 s
