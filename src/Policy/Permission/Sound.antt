-- ===== src/Policy/Permission/Sound.antt =====
-- What the parser of internal/policy/permission.go accepts is a tree of the grammar, with its
-- meaning; and the fuel suffices.
use wazzap_agent_go.Prelude.{
  ℕ, zero, suc, ◌+◌, ◌*◌, ◌≤◌, ◌≡◌, Bool, ◌&&◌, ◌||◌, [], ◌∷◌, ◌++◌, arith, some, length,
}
use wazzap_agent_go.Policy.Permission.Token.{eof, bang, open_paren, close_paren, atom, conj, disj}
use wazzap_agent_go.Policy.Permission.Parser.{
  PermissionFacts, Tokens, parse_or, or_loop, parse_and, and_loop, parse_unary,
}
use wazzap_agent_go.Policy.Permission.Grammar.{Fact, holds, fact_of, Or, emit_or, denote_or}
use wazzap_agent_go.Policy.Permission.Ensures.{Ensures, Ensures-bind, Ensures-weaken}
use wazzap_agent_go.Policy.Permission.Reads.{
  OrReads, AndReads, UnaryReads, OrTailReads, AndTailReads, resolve-Ensures, expect_closing-Ensures,
  Reads-length, Reads-or, Reads-and, Reads-or_more, Reads-and_more, Reads-grouped, Reads-or_end,
  Reads-and_end, Reads-negate, Reads-name,
}

-- One induction on the fuel: four units for each token, and up to four for the way down to the
-- next one.
mutual
  unfolding parse_or

  or-Ensures :
      (f : ℕ) (facts : PermissionFacts) (ts : Tokens)
      → 4 * length ts + 4 ≤ f
      → Ensures (OrReads facts ts) (parse_or f facts ts)
  or-Ensures zero facts ts h = absurd (omega arith)
  or-Ensures (suc f) facts ts h =
      Ensures-bind (AndReads facts ts) (OrReads facts ts) _ _ (and-Ensures f facts ts (omega arith))
        λ r read.
          Ensures-weaken (OrTailReads facts r.0 r.1) (OrReads facts ts) _
            (or_loop-Ensures f facts r.0 r.1 (omega (arith, Reads-length _ _ ts r read)))
            λ s tail. Reads-or facts ts r.1 r.0 s read tail

  or_loop-Ensures :
      (f : ℕ) (facts : PermissionFacts) (value : Bool) (ts : Tokens)
      → 4 * length ts + 1 ≤ f
      → Ensures (OrTailReads facts value ts) (or_loop f facts value ts)
  or_loop-Ensures zero facts value ts h = absurd (omega arith)
  or_loop-Ensures (suc f) facts value (disj word ∷ ts) h =
      Ensures-bind (AndReads facts ts) (OrTailReads facts value (disj word ∷ ts)) _ _
        (and-Ensures f facts ts (omega arith))
        λ r read.
          Ensures-weaken (OrTailReads facts (value || r.0) r.1)
            (OrTailReads facts value (disj word ∷ ts)) _
            (or_loop-Ensures f facts (value || r.0) r.1 (omega (arith, Reads-length _ _ ts r read)))
            λ s tail. Reads-or_more facts ts r.1 r.0 s value word read tail
  or_loop-Ensures (suc f) facts value [] h = Reads-or_end facts value []
  or_loop-Ensures (suc f) facts value (t ∷ ts) h = Reads-or_end facts value (t ∷ ts)

  and-Ensures :
      (f : ℕ) (facts : PermissionFacts) (ts : Tokens)
      → 4 * length ts + 3 ≤ f
      → Ensures (AndReads facts ts) (parse_and f facts ts)
  and-Ensures zero facts ts h = absurd (omega arith)
  and-Ensures (suc f) facts ts h =
      Ensures-bind (UnaryReads facts ts) (AndReads facts ts) _ _
        (unary-Ensures f facts ts (omega arith))
        λ r read.
          Ensures-weaken (AndTailReads facts r.0 r.1) (AndReads facts ts) _
            (and_loop-Ensures f facts r.0 r.1 (omega (arith, Reads-length _ _ ts r read)))
            λ s tail. Reads-and facts ts r.1 r.0 s read tail

  and_loop-Ensures :
      (f : ℕ) (facts : PermissionFacts) (value : Bool) (ts : Tokens)
      → 4 * length ts + 1 ≤ f
      → Ensures (AndTailReads facts value ts) (and_loop f facts value ts)
  and_loop-Ensures zero facts value ts h = absurd (omega arith)
  and_loop-Ensures (suc f) facts value (conj word ∷ ts) h =
      Ensures-bind (UnaryReads facts ts) (AndTailReads facts value (conj word ∷ ts)) _ _
        (unary-Ensures f facts ts (omega arith))
        λ r read.
          Ensures-weaken (AndTailReads facts (value && r.0) r.1)
            (AndTailReads facts value (conj word ∷ ts)) _
            (and_loop-Ensures f facts (value && r.0) r.1
              (omega (arith, Reads-length _ _ ts r read)))
            λ s tail. Reads-and_more facts ts r.1 r.0 s value word read tail
  and_loop-Ensures (suc f) facts value [] h = Reads-and_end facts value []
  and_loop-Ensures (suc f) facts value (t ∷ ts) h = Reads-and_end facts value (t ∷ ts)

  unary-Ensures :
      (f : ℕ) (facts : PermissionFacts) (ts : Tokens)
      → 4 * length ts + 2 ≤ f
      → Ensures (UnaryReads facts ts) (parse_unary f facts ts)
  unary-Ensures zero facts ts h = absurd (omega arith)
  unary-Ensures (suc zero) facts ts h = absurd (omega arith)
  unary-Ensures (suc (suc f)) facts [] h = tt
  unary-Ensures (suc (suc f)) facts (bang ∷ ts) h =
      Ensures-bind (UnaryReads facts ts) (UnaryReads facts (bang ∷ ts)) _ _
        (unary-Ensures (suc f) facts ts (omega arith)) λ r read. Reads-negate facts ts r read
  unary-Ensures (suc (suc f)) facts (atom word ∷ ts) h =
      Ensures-bind (λ v. (fact : Fact) × (fact_of word ≡ some fact) × (v ≡ holds fact facts))
        (UnaryReads facts (atom word ∷ ts)) _ _ (resolve-Ensures facts word)
        λ v read. Reads-name facts word ts v read
  unary-Ensures (suc (suc f)) facts (open_paren ∷ ts) h =
      Ensures-bind (OrReads facts ts) (UnaryReads facts (open_paren ∷ ts)) _ _
        (or-Ensures f facts ts (omega arith))
        λ r read.
          Ensures-weaken (λ s. (r.1 ≡ close_paren ∷ s.1) × (s.0 ≡ r.0))
            (UnaryReads facts (open_paren ∷ ts)) _ (expect_closing-Ensures r.0 r.1)
            λ s closed. Reads-grouped facts ts r.1 r.0 s read closed
  unary-Ensures (suc (suc f)) facts (eof ∷ ts) h = tt
  unary-Ensures (suc (suc f)) facts (close_paren ∷ ts) h = tt
  unary-Ensures (suc (suc f)) facts (conj word ∷ ts) h = tt
  unary-Ensures (suc (suc f)) facts (disj word ∷ ts) h = tt

-- With four units of fuel for each token and four more, the parser reports an error or reads a
-- tree off the front of its input and returns its meaning.
pub parse_or-Ensures :
    (f : ℕ) (facts : PermissionFacts) (ts : Tokens)
    → 4 * length ts + 4 ≤ f
    → Ensures
        (λ r. (e : Or) × (ts ≡ emit_or e ++ r.1) × (r.0 ≡ denote_or e facts))
        (parse_or f facts ts)
parse_or-Ensures = or-Ensures
