-- ===== src/Prelude/Maps.antt =====
-- Keys that can be compared, and maps from keys: `BTreeMap` without the order of its iteration.
use Prim.Native.Nat.{ℕ}
use Prim.Native.String.{String}
use mathlib.Core.Path.{◌≡◌, refl}
use mathlib.Core.Logic.{◌↔◌}
use mathlib.Core.Bool.{Bool, true}
use mathlib.Core.Option.{Option, none, some}
use mathlib.Core.List.{List, [], ◌∷◌}
use native.Mathlib.Omega.{arith}
use text.Mathlib.Text.{◌==◌ as str_eq}
use text.Mathlib.TextEquality.{eq_iff}
use rustos.Prelude.Tests.{◌==◌, ==_iff, if◌then◌else◌}

pub record Eq {ℓ} (A : Type ℓ) : Type ℓ where
  pub beq : A → A → Bool
  pub beq_iff : (a b : A) → (beq a b ≡ true) ↔ (a ≡ b)

instance abbrev pub nat_eq : Eq ℕ
nat_eq = record { beq = λ a b. a == b; beq_iff = ==_iff }

instance abbrev pub string_eq : Eq String
string_eq = record { beq = str_eq; beq_iff = eq_iff }

beq_refl {ℓ} : {K : Type ℓ} ⦃e : Eq K⦄ (k : K) → e.beq k k ≡ true
beq_refl ⦃e⦄ k = (e.beq_iff k k).1 refl

-- One entry for a key; a later insertion replaces it.
pub record Map {ℓ κ} (K : Type ℓ) (V : Type κ) : Type (ℓ ⊔ κ) where
  entries : List (K × V)

module _ {ℓ κ} {K : Type ℓ} {V : Type κ} where
  unfoldable pub empty : Map K V
  empty = record { entries = [] }

module _ {ℓ κ} {K : Type ℓ} {V : Type κ} ⦃e : Eq K⦄ where
  lookup : K → List (K × V) → Option V
  lookup k [] = none
  lookup k ((j, v) ∷ m) = if e.beq j k then some v else lookup k m

  without : K → List (K × V) → List (K × V)
  without k [] = []
  without k ((j, v) ∷ m) = if e.beq j k then without k m else (j, v) ∷ without k m

  unfoldable pub find : Map K V → K → Option V
  unfolding lookup
  find m k = lookup k m.entries

  unfoldable pub insert : Map K V → K → V → Map K V
  unfolding without
  insert m k v = record { entries = (k, v) ∷ without k m.entries }

  pub remove : Map K V → K → Map K V
  unfolding without
  remove m k = record { entries = without k m.entries }

  lookup-without :
      (k j : K) (m : List (K × V))
      → lookup j (without k m) ≡ (if e.beq k j then none else lookup j m)
  unfolding lookup without
  lookup-without k j [] = ground arith
  lookup-without k j ((i, v) ∷ m) =
      ground (arith, e.beq_iff k j, e.beq_iff i k, e.beq_iff i j, lookup-without k j m)

  pub find-insert :
      (m : Map K V) (k j : K) (v : V)
      → find (insert m k v) j ≡ (if e.beq k j then some v else find m j)
  unfolding find insert lookup
  find-insert m k j v = ground (arith, lookup-without k j m.entries)

  pub find-remove :
      (m : Map K V) (k j : K) → find (remove m k) j ≡ (if e.beq k j then none else find m j)
  unfolding find remove
  find-remove m k j = lookup-without k j m.entries

  pub find-empty : (k : K) → find empty k ≡ none
  unfolding find empty lookup
  find-empty k = refl
