-- ===== src/Prelude/Panics.antt =====
-- Code that may panic: an index out of range, an arithmetic overflow that the debug profile
-- traps, `unwrap` of `None`. A panic of the kernel halts the machine, so nothing follows it.
use Prim.Native.Nat.{ℕ, ◌-◌, ◌≤◌, ◌<◌}
use mathlib.Core.Path.{◌≡◌}
use mathlib.Core.Option.{Option, none, some}
use mathlib.Core.List.{List}
use native.Mathlib.Omega.{arith}
use rustos.Prelude.Tests.{leb, ltb, if◌then◌else◌}
use rustos.Prelude.Lists.{length, get_elem?, get_or, set, get_elem?-eq-get_or}

pub data Run {ℓ} (A : Type ℓ) : Type ℓ where
  done : A → Run A
  panic : Run A

infixl 5 ◌>>=◌
abbrev pub ◌>>=◌ {ℓ κ} : {A : Type ℓ} {B : Type κ} → Run A → (A → Run B) → Run B
done a >>= f = f a
panic >>= f = panic

-- `a - b` on an unsigned integer, which traps below zero.
abbrev pub sub_checked : ℕ → ℕ → Run ℕ
sub_checked a b = if leb b a then done (a - b) else panic

abbrev pub unwrap {ℓ} : {A : Type ℓ} → Option A → Run A
unwrap none = panic
unwrap (some a) = done a

-- `v[i]`
abbrev pub index {ℓ} : {A : Type ℓ} → List A → ℕ → Run A
index xs i = unwrap (get_elem? xs i)

-- `v[i] = a`
abbrev pub store {ℓ} : {A : Type ℓ} → List A → ℕ → A → Run (List A)
store xs i a = if ltb i (length xs) then done (set xs i a) else panic

module _ {ℓ} {A : Type ℓ} where
  pub index_in_range :
      (xs : List A) (i : ℕ) (d : A) → i < length xs → index xs i ≡ done (get_or xs i d)
  index_in_range xs i d h = ground (arith, get_elem?-eq-get_or xs i d h)

  pub store_in_range :
      (xs : List A) (i : ℕ) (a : A) → i < length xs → store xs i a ≡ done (set xs i a)
  store_in_range xs i a h = ground arith

pub sub_checked_lem : (a b : ℕ) → b ≤ a → sub_checked a b ≡ done (a - b)
sub_checked_lem a b h = ground arith
