-- ===== src/Prelude/Bytes.antt =====
-- Go strings as lists of bytes, with the comparisons and ASCII helpers the program uses.
use Prim.Native.Char.{code}
use Prim.Native.Nat.{ℕ, ◌+◌}
use Prim.Native.String.{String}
use mathlib.Core.Path.{◌≡◌, refl}
use mathlib.Core.Logic.{◌↔◌, ◌⊎◌, inl, inr}
use mathlib.Core.Bool.{Bool, true, false, ◌&&◌, ◌||◌}
use mathlib.Core.List.{List, [], ◌∷◌, map}
use native.Mathlib.Omega.{arith}
use wazzap_agent_go.Prelude.Tests.{◌==◌, leb, if◌then◌else◌, Bool-cases}

abbrev pub Text : Type 0
Text = List ℕ

-- The bytes of an ASCII literal.
abbrev pub text : String → Text
text String.[] = []
text (String.◌∷◌ c s) = code c ∷ text s

unfoldable pub text_eq : Text → Text → Bool
text_eq [] [] = true
text_eq (a ∷ s) (b ∷ t) = (a == b) && text_eq s t
text_eq _ _ = false

pub text_eq_iff : (s t : Text) → (text_eq s t ≡ true) ↔ (s ≡ t)
unfolding text_eq
text_eq_iff [] [] = ground arith
text_eq_iff [] (b ∷ t) = ground arith
text_eq_iff (a ∷ s) [] = ground arith
text_eq_iff (a ∷ s) (b ∷ t) = ground (arith, text_eq_iff s t)

pub text_eq_refl : (s : Text) → text_eq s s ≡ true
text_eq_refl s = (text_eq_iff s s).1 refl

-- strings.ToLower on a string of ASCII bytes.
abbrev pub lower_byte : ℕ → ℕ
lower_byte c = if leb b'A' c && leb c b'Z' then c + 32 else c

unfoldable pub to_lower : Text → Text
to_lower = map lower_byte

-- Membership of a key in a set of texts, kept as a list.
unfoldable pub elem : Text → List Text → Bool
elem a [] = false
elem a (x ∷ xs) = text_eq a x || elem a xs

abbrev pub Elem : Text → List Text → Type 0
Elem a [] = ⊥
Elem a (x ∷ xs) = (a ≡ x) ⊎ Elem a xs

pub elem→Elem : (a : Text) (xs : List Text) → elem a xs ≡ true → Elem a xs
unfolding elem
elem→Elem a [] h = cc
elem→Elem a (x ∷ xs) h = elim (Bool-cases (text_eq a x)) [
  | inl same ↦ inl ((text_eq_iff a x).0 same)
  | inr other ↦ inr (elem→Elem a xs (ground arith))
]

pub Elem→elem : (a : Text) (xs : List Text) → Elem a xs → elem a xs ≡ true
unfolding elem
Elem→elem a [] h = absurd h
Elem→elem a (x ∷ xs) (inl e) = ground (arith, text_eq_iff a x)
Elem→elem a (x ∷ xs) (inr h) = ground (arith, Elem→elem a xs h)

pub elem_iff : (a : Text) (xs : List Text) → (elem a xs ≡ true) ↔ Elem a xs
elem_iff a xs = (elem→Elem a xs, Elem→elem a xs)
