-- ===== src/Strings.antt =====
-- The parts of Go's strings package that the agent calls: the white space around a string.
use wazzap_agent_go.Prelude.{
  ℕ, zero, suc, ◌-◌, Bool, true, false, ◌||◌, [], ◌∷◌, leb, ltb, ◌==◌, if◌then◌else◌, length, Text,
}
use wazzap_agent_go.Utf8.{decode_rune, is_space, rune_error}

-- strings.TrimLeftFunc(s, unicode.IsSpace), with how many bytes of the rune before are left.
unfoldable pub trim_left_from : ℕ → Text → Text
unfolding decode_rune is_space
trim_left_from n [] = []
trim_left_from (suc n) (c ∷ s) = trim_left_from n s
trim_left_from zero (c ∷ s) =
    let (r, width) = decode_rune (c ∷ s) in
    let rest = trim_left_from (width - 1) s in if is_space r then rest else c ∷ s

unfoldable pub reverse_onto : Text → Text → Text
reverse_onto [] t = t
reverse_onto (c ∷ s) t = reverse_onto s (c ∷ t)

-- utf8.RuneStart
abbrev rune_start : ℕ → Bool
rune_start c = ltb c 0x80 || leb 0xc0 c

-- The bytes of the last rune: back to one that starts a rune, at most `n` of them. The string is
-- given backwards.
last_bytes : ℕ → Text → Text → Text
last_bytes zero s chunk = chunk
last_bytes (suc n) [] chunk = chunk
last_bytes (suc n) (c ∷ s) chunk =
    let longer = last_bytes n s (c ∷ chunk) in if rune_start c then c ∷ chunk else longer

-- utf8.DecodeLastRuneInString, of a string given backwards.
unfoldable pub decode_last_rune : Text → ℕ × ℕ
unfolding decode_rune last_bytes
decode_last_rune [] = (rune_error, 0)
decode_last_rune (c ∷ s) =
    let chunk = last_bytes 4 (c ∷ s) [] in
    let (r, width) = decode_rune chunk in
    if width == length chunk then (r, width) else (rune_error, 1)

-- strings.TrimRightFunc(s, unicode.IsSpace), of a string given backwards.
unfoldable pub trim_right_from : ℕ → Text → Text
unfolding decode_last_rune is_space
trim_right_from n [] = []
trim_right_from (suc n) (c ∷ s) = trim_right_from n s
trim_right_from zero (c ∷ s) =
    let (r, width) = decode_last_rune (c ∷ s) in
    let rest = trim_right_from (width - 1) s in if is_space r then rest else c ∷ s

unfoldable pub trim_space : Text → Text
unfolding trim_left_from trim_right_from reverse_onto
trim_space s = reverse_onto (trim_right_from 0 (reverse_onto (trim_left_from 0 s) [])) []

unfoldable pub is_empty : Text → Bool
is_empty [] = true
is_empty (_ ∷ _) = false

-- strings.TrimSpace(s) == ""
unfoldable pub is_blank : Text → Bool
unfolding trim_space is_empty
is_blank s = is_empty (trim_space s)
