-- ===== src/Policy/Permission/Reads.antt =====
-- Runs of the parser of internal/policy/permission.go that read a tree, put together from their parts.
use wazzap_agent_go.Prelude.{
  ℕ, zero, suc, ◌+◌, ◌*◌, ◌≤◌, ◌<◌, ◌≡◌, refl, ap, sym, Bool, true, false, not, ◌&&◌, ◌||◌, List,
  [], ◌∷◌, ◌++◌, append_assoc, arith, some, Option-cases, inl, inr, length, length-append, Text, ok,
  err, ◌>>=◌,
}
use wazzap_agent_go.Policy.Permission.Token.{eof, bang, open_paren, close_paren, atom, conj, disj}
use wazzap_agent_go.Policy.Permission.Parser.{
  PermissionFacts, Tokens, resolve_permission_atom, expect_closing,
}
use wazzap_agent_go.Policy.Permission.Grammar.{
  Fact, holds, fact_of, or, or_end, or_more, and, and_end, and_more, negate, name, grouped, emit_or,
  emit_or_tail, emit_and, emit_and_tail, emit_unary, denote_or, denote_or_tail, denote_and,
  denote_and_tail, denote_unary, resolve_permission_atom-fact_of, resolve_permission_atom_unknown,
}
use wazzap_agent_go.Policy.Permission.Ensures.{Ensures}

-- A run that read a tree: the tokens are its print, and the value is its meaning.
abbrev pub Reads : {T : Type 0} → (T → Tokens) → (T → Bool) → Tokens → Bool × Tokens → Type 0
Reads {T} emit denote ts r = (e : T) × (ts ≡ emit e ++ r.1) × (r.0 ≡ denote e)

pub resolve-Ensures :
    (facts : PermissionFacts) (word : Text)
    → Ensures
        (λ v. (fact : Fact) × (fact_of word ≡ some fact) × (v ≡ holds fact facts))
        (resolve_permission_atom word facts)
resolve-Ensures facts word = elim (Option-cases (fact_of word)) [
  | inl unknown ↦ rw (resolve_permission_atom_unknown word facts unknown) tt
  | inr (fact, known) ↦ rw (resolve_permission_atom-fact_of word facts known) (fact, known, refl)
]

pub expect_closing-Ensures :
    (value : Bool) (ts : Tokens)
    → Ensures (λ r. (ts ≡ close_paren ∷ r.1) × (r.0 ≡ value)) (expect_closing value ts)
unfolding expect_closing
expect_closing-Ensures value [] = tt
expect_closing-Ensures value (close_paren ∷ ts) = (refl, refl)
expect_closing-Ensures value (eof ∷ ts) = tt
expect_closing-Ensures value (_ ∷ ts) = tt

pub length-append_tokens : (xs ys : Tokens) → length (xs ++ ys) ≡ length xs + length ys
length-append_tokens = length-append

pub ruleset lengths = (arith, length-append_tokens)

abbrev pub OrReads : PermissionFacts → Tokens → Bool × Tokens → Type 0
OrReads facts = Reads emit_or (λ e. denote_or e facts)

abbrev pub AndReads : PermissionFacts → Tokens → Bool × Tokens → Type 0
AndReads facts = Reads emit_and (λ e. denote_and e facts)

abbrev pub UnaryReads : PermissionFacts → Tokens → Bool × Tokens → Type 0
UnaryReads facts = Reads emit_unary (λ e. denote_unary e facts)

abbrev pub OrTailReads : PermissionFacts → Bool → Tokens → Bool × Tokens → Type 0
OrTailReads facts value = Reads emit_or_tail (λ t. value || denote_or_tail t facts)

abbrev pub AndTailReads : PermissionFacts → Bool → Tokens → Bool × Tokens → Type 0
AndTailReads facts value = Reads emit_and_tail (λ t. value && denote_and_tail t facts)

-- The rest of a run that read a tree is no longer than its input.
pub Reads-length :
    {T : Type 0} (emit : T → Tokens) (denote : T → Bool) (ts : Tokens) (r : Bool × Tokens)
    → Reads emit denote ts r
    → length r.1 ≤ length ts
Reads-length emit denote ts r (e, printed, _) = omega (lengths, ap length printed)

pub or_assoc : (a b c : Bool) → ((a || b) || c) ≡ (a || (b || c))
or_assoc a b c = ground arith

pub and_assoc : (a b c : Bool) → ((a && b) && c) ≡ (a && (b && c))
and_assoc a b c = ground arith

module _ (facts : PermissionFacts) (ts rest : Tokens) (value : Bool) (r : Bool × Tokens) where
  pub Reads-or :
      AndReads facts ts (value, rest) → OrTailReads facts value rest r → OrReads facts ts r
  unfolding emit_or denote_or
  Reads-or (a, p, m) (t, q, n) = (or a t, rw (p, q, append_assoc), rw (n, m))

  pub Reads-and :
      UnaryReads facts ts (value, rest) → AndTailReads facts value rest r → AndReads facts ts r
  unfolding emit_or denote_or
  Reads-and (u, p, m) (t, q, n) = (and u t, rw (p, q, append_assoc), rw (n, m))

  pub Reads-or_more :
      (before : Bool) (word : Text)
      → AndReads facts ts (value, rest)
      → OrTailReads facts (before || value) rest r
      → OrTailReads facts before (disj word ∷ ts) r
  unfolding emit_or denote_or
  Reads-or_more before word (a, p, m) (t, q, n) =
      (or_more word a t, rw (p, q, append_assoc), rw (n, m, or_assoc))

  pub Reads-and_more :
      (before : Bool) (word : Text)
      → UnaryReads facts ts (value, rest)
      → AndTailReads facts (before && value) rest r
      → AndTailReads facts before (conj word ∷ ts) r
  unfolding emit_or denote_or
  Reads-and_more before word (u, p, m) (t, q, n) =
      (and_more word u t, rw (p, q, append_assoc), rw (n, m, and_assoc))

  pub Reads-grouped :
      OrReads facts ts (value, rest)
      → (rest ≡ close_paren ∷ r.1) × (r.0 ≡ value)
      → UnaryReads facts (open_paren ∷ ts) r
  unfolding emit_or denote_or
  Reads-grouped (e, p, m) (q, n) = (grouped e, simp (p, q, append_assoc), rw (n, m))

pub Reads-or_end :
    (facts : PermissionFacts) (value : Bool) (ts : Tokens) → OrTailReads facts value ts (value, ts)
unfolding emit_or denote_or
Reads-or_end facts value ts = (or_end, refl, ground arith)

pub Reads-and_end :
    (facts : PermissionFacts) (value : Bool) (ts : Tokens) → AndTailReads facts value ts (value, ts)
unfolding emit_or denote_or
Reads-and_end facts value ts = (and_end, refl, ground arith)

pub Reads-negate :
    (facts : PermissionFacts) (ts : Tokens) (r : Bool × Tokens)
    → UnaryReads facts ts r
    → UnaryReads facts (bang ∷ ts) (not r.0, r.1)
unfolding emit_or denote_or
Reads-negate facts ts r (u, p, m) = (negate u, rw p, rw m)

pub Reads-name :
    (facts : PermissionFacts) (word : Text) (ts : Tokens) (v : Bool)
    → (fact : Fact) × (fact_of word ≡ some fact) × (v ≡ holds fact facts)
    → UnaryReads facts (atom word ∷ ts) (v, ts)
unfolding emit_or denote_or
Reads-name facts word ts v (fact, known, meant) = (name word fact known, refl, meant)
