-- ===== src/ShellParser/Outcome.antt =====
-- The outcome of a parser: `err` is an `Err` of the source, `panic` an index out of range.
-- `out_of_fuel` stands for a run that goes on beyond the fuel, or for ever.
use rustos.Prelude.{◌≡◌, ◌≢◌, subst, Bool, true, false, if◌then◌else◌, refl}

-- The messages of the source.
pub data ParseError : Type 0 where
  expected_command if_expected_then elif_expected_then if_expected_branch : ParseError
  while_expected_do while_expected_done : ParseError
  for_expected_name for_expected_in for_expected_do for_expected_done : ParseError

pub data Outcome {ℓ} (A : Type ℓ) : Type ℓ where
  ok : A → Outcome A
  err : ParseError → Outcome A
  panic out_of_fuel : Outcome A

abbrev pub bind {ℓ κ} : {A : Type ℓ} {B : Type κ} → Outcome A → (A → Outcome B) → Outcome B
bind (ok a) f = f a
bind (err e) f = err e
bind panic f = panic
bind out_of_fuel f = out_of_fuel

-- The run ends, within its fuel and with no panic, and `P` holds of its value if it has one.
pub data Ensures {ℓ κ} {A : Type ℓ} (P : A → Type κ) : Outcome A → Type (ℓ ⊔ κ) where
  holds : {a : A} → P a → Ensures P (ok a)
  refused : {e : ParseError} → Ensures P (err e)

module _ {ℓ κ} {A : Type ℓ} {P : A → Type κ} where
  pub Ensures-ok : {r : Outcome A} {a : A} → Ensures P r → r ≡ ok a → P a
  Ensures-ok (holds h) e = subst P (cc) h
  Ensures-ok refused e = cc

  pub Ensures-panic : {r : Outcome A} → Ensures P r → r ≢ panic
  Ensures-panic (holds h) e = cc
  Ensures-panic refused e = cc

  pub Ensures-out_of_fuel : {r : Outcome A} → Ensures P r → r ≢ out_of_fuel
  Ensures-out_of_fuel (holds h) e = cc
  Ensures-out_of_fuel refused e = cc

  pub Ensures-bind {ℓ' κ'} :
      {B : Type ℓ'} {Q : B → Type κ'} {r : Outcome A} {f : A → Outcome B}
      → Ensures P r
      → ((a : A) → P a → Ensures Q (f a))
      → Ensures Q (bind r f)
  Ensures-bind (holds {a} h) k = k a h
  Ensures-bind refused k = refused

  pub Ensures-weaken {κ'} :
      {Q : A → Type κ'} {r : Outcome A} → Ensures P r → ((a : A) → P a → Q a) → Ensures Q r
  Ensures-weaken (holds {a} h) k = holds (k a h)
  Ensures-weaken refused k = refused

  pub Ensures-if :
      (b : Bool) {x y : Outcome A}
      → (b ≡ true → Ensures P x)
      → (b ≡ false → Ensures P y)
      → Ensures P (if b then x else y)
  Ensures-if true hx hy = hx refl
  Ensures-if false hx hy = hy refl
