-- ===== src/Prelude/Results.antt =====
-- A value or an error, as Go's `(value, error)` pair is used.
use mathlib.Core.Path.{◌≡◌, refl, ap}
use mathlib.Core.Logic.{◌⊎◌, inl, inr}
use mathlib.Core.Bool.{Bool, true, false}

pub data Result {ℓ κ} (E : Type κ) (A : Type ℓ) : Type (ℓ ⊔ κ) where
  ok : A → Result E A
  err : E → Result E A

module _ {ℓ κ ι} {E : Type ι} {A : Type ℓ} {B : Type κ} where
  infixl 5 ◌>>=◌
  abbrev pub ◌>>=◌ : Result E A → (A → Result E B) → Result E B
  ok a >>= f = f a
  err e >>= f = err e

module _ {κ ι} {E : Type ι} {B : Type κ} where
  infixr 5 ◌>>◌
  abbrev pub ◌>>◌ : Result E (Unit {0}) → Result E B → Result E B
  m >> k = m >>= λ _. k

-- An early `return err` unless the condition holds.
abbrev pub guard {ι} : {E : Type ι} → Bool → E → Result E (Unit {0})
guard true e = ok tt
guard false e = err e

pub Result-cases {ℓ κ} :
    {E : Type κ} {A : Type ℓ} (r : Result E A) → ((a : A) × (r ≡ ok a)) ⊎ ((e : E) × (r ≡ err e))
Result-cases (ok a) = inl (a, refl)
Result-cases (err e) = inr (e, refl)

-- A chain that succeeds: each of its parts did.
pub bind-ok {ℓ κ ι} :
    {E : Type ι} {A : Type ℓ} {B : Type κ} (m : Result E A) (f : A → Result E B) {b : B}
    → (m >>= f) ≡ ok b
    → (a : A) × (m ≡ ok a) × (f a ≡ ok b)
bind-ok (ok a) f h = (a, refl, h)
bind-ok (err e) f h = cc

pub then-ok {κ ι} :
    {E : Type ι} {B : Type κ} (m : Result E (Unit {0})) (k : Result E B) {b : B}
    → (m >> k) ≡ ok b
    → (m ≡ ok tt) × (k ≡ ok b)
then-ok (ok _) k h = (refl, h)
then-ok (err e) k h = cc

pub guard-ok {ι} : {E : Type ι} (b : Bool) (e : E) → guard b e ≡ ok tt → b ≡ true
guard-ok true e h = refl
guard-ok false e h = cc

pub ok-then {κ ι} :
    {E : Type ι} {B : Type κ} {m : Result E (Unit {0})} {k : Result E B} {b : B}
    → m ≡ ok tt
    → k ≡ ok b
    → (m >> k) ≡ ok b
ok-then h k = rw h k

pub ok-guard {ι} : {E : Type ι} {b : Bool} (e : E) → b ≡ true → guard b e ≡ ok tt
ok-guard e h = rw h refl

module _ {ℓ κ} {E : Type κ} {A : Type ℓ} where
  abbrev value_or : A → Result E A → A
  value_or a (ok x) = x
  value_or a (err _) = a

  abbrev okay : A → Result E A
  okay a = ok a

  pub ok_injective : {a b : A} → okay a ≡ okay b → a ≡ b
  ok_injective {a} h = ap (value_or a) h

pub result_intro {ℓ κ ι μ} :
    {E : Type μ} {A : Type ℓ} {B : Type ι} (P : B → Type κ) (r : Result E A) (f : E → B) (g : A → B)
    → ((e : E) → r ≡ err e → P (f e))
    → ((a : A) → r ≡ ok a → P (g a))
    → P (elim r [ err e ↦ f e | ok a ↦ g a ])
result_intro P (err e) f g pf pg = pf e refl
result_intro P (ok a) f g pf pg = pg a refl
