-- ===== src/Fallback/New.antt =====
-- What New admits.
use wazzap_agent_go.Prelude.{
  ◌≤◌, ◌≡◌, ◌≢◌, refl, sym, false, inl, inr, List, [], ◌∷◌, some, arith, length, All, map, Result,
  Result-cases, Option-cases, ok, Text, text_eq_iff, elem,
}
use wazzap_agent_go.Errors.{ErrorCode}
use wazzap_agent_go.Fallback.{Candidate, Admitted, new, admit, max_candidates}

abbrev pub Distinct : List Text → Type 0
Distinct [] = Unit
Distinct (n ∷ ns) = All (λ (m : Text). m ≢ n) ns × Distinct ns

abbrev Unseen : List Text → Text → Type 0
Unseen seen n = elem n seen ≡ false

elem-cons : (n m : Text) (seen : List Text) → Unseen (m ∷ seen) n → (n ≢ m) × Unseen seen n
unfolding elem
elem-cons n m seen h = ground (arith, text_eq_iff n m)

All-Unseen :
    (m : Text) (seen ns : List Text)
    → All (Unseen (m ∷ seen)) ns
    → All (λ (n : Text). n ≢ m) ns × All (Unseen seen) ns
All-Unseen m seen [] h = (tt, tt)
All-Unseen m seen (n ∷ ns) h =
    let (other, unseen) = elem-cons n m seen h.0 in
    let (others, rest) = All-Unseen m seen ns h.1 in ((other, others), (unseen, rest))

module _ {Q R : Type 0} where
  abbrev pub as_candidate : Admitted Q R → Candidate Q R
  as_candidate a = record { name = a.name; model = some a.model }

  abbrev pub names : List (Admitted Q R) → List Text
  names [] = []
  names (a ∷ rest) = a.name ∷ names rest

  record Added (seen : List Text) (c : Candidate Q R) (cs : List (Candidate Q R))
      (rest : List (Admitted Q R)) : Type 0 where
    model : Q → Result ErrorCode R
    rest' : List (Admitted Q R)
    has_model : c.model ≡ some model
    is_named : c.name ≢ []
    is_new : Unseen seen c.name
    more : admit (c.name ∷ seen) cs ≡ ok rest'
    same : rest ≡ record { name = c.name; model = model } ∷ rest'

  admit-cons :
      (seen : List Text) (c : Candidate Q R) (cs : List (Candidate Q R))
      (rest : List (Admitted Q R))
      → admit seen (c ∷ cs) ≡ ok rest
      → Added seen c cs rest
  unfolding admit
  admit-cons seen c cs rest h = elim (Option-cases c.model) [
    | inl missing ↦ ground arith
    | inr (model, present) ↦ elim (Result-cases (admit (c.name ∷ seen) cs)) [
      | inr (code, e) ↦ ground arith
      | inl (rest', e) ↦ record {
        model = model;
        rest' = rest';
        has_model = present;
        is_named = ground (arith, text_eq_iff c.name []);
        is_new = ground arith;
        more = e;
        same = ground arith;
      }
    ]
  ]

  -- The admitted candidates are those given, with distinct names that are not empty.
  abbrev Admits : List Text → List (Candidate Q R) → List (Admitted Q R) → Type 0
  Admits seen cs rest =
      (map as_candidate rest ≡ cs)
      × Distinct (names rest)
      × All (λ (n : Text). n ≢ []) (names rest)
      × All (Unseen seen) (names rest)

  Admits-cons :
      (seen : List Text) (c : Candidate Q R) (cs : List (Candidate Q R))
      (rest : List (Admitted Q R)) (a : Added seen c cs rest)
      → Admits (c.name ∷ seen) cs a.rest'
      → Admits seen (c ∷ cs) rest
  Admits-cons seen c cs rest a (given, distinct, named, unseen) =
      let (others, still) = All-Unseen c.name seen (names a.rest') unseen in
      rw a.same (
        (λ i. record { name = c.name; model = sym a.has_model i } ∷ given i),
        (others, distinct),
        (a.is_named, named),
        (a.is_new, still),
      )

  admit-Admits :
      (seen : List Text) (cs : List (Candidate Q R)) (rest : List (Admitted Q R))
      → admit seen cs ≡ ok rest
      → Admits seen cs rest
  unfolding admit
  admit-Admits seen [] [] h = (refl, tt, tt, tt)
  admit-Admits seen [] (a ∷ rest) h = cc
  admit-Admits seen (c ∷ cs) rest h =
      let a = admit-cons seen c cs rest h in
      Admits-cons seen c cs rest a (admit-Admits (c.name ∷ seen) cs a.rest' a.more)

  -- New admits only between one and four candidates, all with a model, with distinct names that are
  -- not empty, and keeps them in order.
  pub new-ok :
      (cs : List (Candidate Q R)) (rest : List (Admitted Q R))
      → new cs ≡ ok rest
      → (map as_candidate rest ≡ cs)
        × Distinct (names rest)
        × All (λ (n : Text). n ≢ []) (names rest)
        × (1 ≤ length cs)
        × (length cs ≤ max_candidates)
  unfolding new
  new-ok cs rest h =
      let admitted : admit [] cs ≡ ok rest = ground arith in
      let (given, distinct, named, _) = admit-Admits [] cs rest admitted in
      (given, distinct, named, ground arith, ground arith)
