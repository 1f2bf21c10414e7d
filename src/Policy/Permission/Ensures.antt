-- ===== src/Policy/Permission/Ensures.antt =====
-- Postconditions of a run that keeps within its fuel.
use wazzap_agent_go.Prelude.{◌≡◌, ok, err, ◌>>=◌, Bool, true, false, if◌then◌else◌, refl, subst}
use wazzap_agent_go.Policy.Permission.Token.{reported, out_of_fuel, Outcome}

-- The run reports an error, or returns a value with the property; it does not run out of fuel.
abbrev pub Ensures : {A : Type 0} → (A → Type 0) → Outcome A → Type 0
Ensures P (ok a) = P a
Ensures P (err (reported e)) = Unit
Ensures P (err out_of_fuel) = ⊥

module _ {A : Type 0} {B : Type 0} (P : A → Type 0) (Q : B → Type 0) where
  pub Ensures-bind :
      (r : Outcome A) (k : A → Outcome B)
      → Ensures P r
      → ((a : A) → P a → Ensures Q (k a))
      → Ensures Q (r >>= k)
  Ensures-bind (ok a) k h next = next a h
  Ensures-bind (err (reported e)) k h next = tt
  Ensures-bind (err out_of_fuel) k h next = h

  -- The continuation may use that the first part returned its argument.
  pub Ensures-bind_eq :
      (r : Outcome A) (k : A → Outcome B)
      → Ensures P r
      → ((a : A) → r ≡ ok a → P a → Ensures Q (k a))
      → Ensures Q (r >>= k)
  Ensures-bind_eq (ok a) k h next = next a refl h
  Ensures-bind_eq (err (reported e)) k h next = tt
  Ensures-bind_eq (err out_of_fuel) k h next = h

module _ {A : Type 0} (P : A → Type 0) where
  pub Ensures-if :
      (b : Bool) (x y : Outcome A)
      → (b ≡ true → Ensures P x)
      → (b ≡ false → Ensures P y)
      → Ensures P (if b then x else y)
  Ensures-if true x y hx hy = hx refl
  Ensures-if false x y hx hy = hy refl

  -- The value of a run that succeeded.
  pub Ensures-ok : (r : Outcome A) {a : A} → Ensures P r → r ≡ ok a → P a
  Ensures-ok (ok b) h e = subst P (cc) h
  Ensures-ok (err f) h e = cc

  pub Ensures-out_of_fuel : (r : Outcome A) → Ensures P r → ¬ (r ≡ err out_of_fuel)
  Ensures-out_of_fuel (ok b) h e = cc
  Ensures-out_of_fuel (err (reported f)) h e = cc
  Ensures-out_of_fuel (err out_of_fuel) h e = h

module _ {A : Type 0} (P Q : A → Type 0) where
  pub Ensures-weaken : (r : Outcome A) → Ensures P r → ((a : A) → P a → Q a) → Ensures Q r
  Ensures-weaken (ok a) h weaker = weaker a h
  Ensures-weaken (err (reported e)) h weaker = tt
  Ensures-weaken (err out_of_fuel) h weaker = h
