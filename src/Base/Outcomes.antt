-- ===== src/Base/Outcomes.antt =====
-- How a call of the program ends: with a value, or with one of the ways in which it does not return.
use mathlib.Core.Bool.{Bool, true, false}
use mathlib.Core.Path.{◌≡◌, refl, sym, ap, ◌∙◌}
use mathlib.Core.Logic.{◌⊎◌, inl, inr}
use native.Mathlib.Omega.{arith}

pub data Fault : Type 0 where
  -- `exit(-1)` ends the process.
  exits : Fault
  -- A std::out_of_range that nobody catches.
  out_of_range : Fault
  -- A std::function that was never set is called.
  bad_function_call : Fault
  -- C++ gives the call no meaning.
  undefined : Fault
  -- SIGPIPE, which is neither handled nor ignored, ends the process.
  killed : Fault
  -- The fuel of the model's loop ran out.
  out_of_fuel : Fault

pub data Outcome {ℓ} (A : Type ℓ) : Type ℓ where
  ok : A → Outcome A
  fault : Fault → Outcome A

infixl 5 ◌>>=◌ ◌>>◌
abbrev pub ◌>>=◌ {ℓ κ} : {A : Type ℓ} {B : Type κ} → Outcome A → (A → Outcome B) → Outcome B
ok a >>= f = f a
fault e >>= f = fault e

abbrev pub ◌>>◌ {ℓ} : {B : Type ℓ} → Outcome (Unit {0}) → Outcome B → Outcome B
m >> k = m >>= λ _. k

-- Go on only if the test holds.
abbrev pub guard : Bool → Fault → Outcome (Unit {0})
guard true e = ok tt
guard false e = fault e

module _ {ℓ} {A : Type ℓ} where
  -- To split on a computed value and keep the equation.
  pub Outcome-cases : (o : Outcome A) → ((e : Fault) × (o ≡ fault e)) ⊎ ((a : A) × (o ≡ ok a))
  Outcome-cases (ok a) = inr (a, refl)
  Outcome-cases (fault e) = inl (e, refl)

  -- A call has one result.
  pub same_ok : {a b : A} {o : Outcome A} → o ≡ ok a → o ≡ ok b → a ≡ b
  same_ok {a = a} e e' = ap (λ o. elim o [ ok c ↦ c | fault f ↦ a ]) (sym e ∙ e')

  pub not_ok : {a : A} {f : Fault} {o : Outcome A} → o ≡ fault f → o ≡ ok a → ⊥
  not_ok {a = a} {f} {o} e e' = ground (arith, e, e')
