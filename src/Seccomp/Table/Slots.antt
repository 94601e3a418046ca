-- ===== src/Seccomp/Table/Slots.antt =====
-- The filter table of src/seccomp.rs as a map from processes to programs.
use mathlib.Core.Option
use rustos.Prelude.{
  ℕ, suc, ◌≡◌, refl, ap, List, [], ◌∷◌, Option, none, some, Bool, true, false, length, ◌==◌,
  if◌then◌else◌, Bool-cases, inl, inr, arith,
}
use rustos.Seccomp.Insn.{BpfInsn}
use rustos.Seccomp.Table.{
  Filter, FilterTable, install, replace, place, placed, replaced, for_pid, remove, count,
}

-- No process has two filters.
abbrev pub IsValid : FilterTable → Type 0
IsValid [] = Unit
IsValid (none ∷ slots) = IsValid slots
IsValid (some f ∷ slots) = (for_pid slots f.pid ≡ none) × IsValid slots

abbrev pub filter : ℕ → List BpfInsn → Filter
filter pid program = record { program = program; pid = pid }

-- What `install` does: the process has the program, the others have what they had, or the table
-- is full of the filters of others and nothing changes.
abbrev pub Installs : FilterTable → ℕ → List BpfInsn → FilterTable × Bool → Type 0
Installs slots pid program (slots', true) =
    ((q : ℕ) → for_pid slots' q ≡ (if pid == q then some (filter pid program) else for_pid slots q))
    × IsValid slots'
    × (length slots' ≡ length slots)
Installs slots pid program (slots', false) =
    (slots' ≡ slots) × (for_pid slots pid ≡ none) × (count slots ≡ length slots)

-- One slot in front of a table that a loop has changed.
abbrev Replaces : FilterTable → ℕ → List BpfInsn → Option FilterTable → Type 0
Replaces slots pid program none = for_pid slots pid ≡ none
Replaces slots pid program (some slots') =
    ((q : ℕ) → for_pid slots' q ≡ (if pid == q then some (filter pid program) else for_pid slots q))
    × (IsValid slots → IsValid slots')
    × (length slots' ≡ length slots)

module _ (pid : ℕ) (program : List BpfInsn) where
  if-Replaces :
      (slots : FilterTable) (b : Bool) (x y : Option FilterTable)
      → (b ≡ true → Replaces slots pid program x)
      → (b ≡ false → Replaces slots pid program y)
      → Replaces slots pid program (if b then x else y)
  if-Replaces slots true x y hx hy = hx refl
  if-Replaces slots false x y hx hy = hy refl

  none_cons-Replaces :
      (slots : FilterTable) (o : Option FilterTable)
      → Replaces slots pid program o
      → Replaces (none ∷ slots) pid program (Option.map (λ rest. none ∷ rest) o)
  unfolding for_pid
  none_cons-Replaces slots none h = h
  none_cons-Replaces slots (some rest) (h, v, l) = (h, v, ap suc l)

  some_cons-Replaces :
      (f : Filter) (slots : FilterTable) (o : Option FilterTable)
      → (f.pid == pid) ≡ false
      → Replaces slots pid program o
      → Replaces (some f ∷ slots) pid program (Option.map (λ rest. some f ∷ rest) o)
  unfolding for_pid
  some_cons-Replaces f slots none e h = rw e h
  some_cons-Replaces f slots (some rest) e (h, v, l) =
      (λ q. ground (arith, h q), λ (alone, others). (ground (arith, h f.pid), v others), ap suc l)

  replace-Replaces : (slots : FilterTable) → Replaces slots pid program (replace pid program slots)
  unfolding replace for_pid
  replace-Replaces [] = refl
  replace-Replaces (none ∷ slots) = none_cons-Replaces slots _ (replace-Replaces slots)
  replace-Replaces (some f ∷ slots) =
      if-Replaces (some f ∷ slots) (f.pid == pid) _ _
        (λ e. (λ q. ground arith, λ (alone, others). (alone, others), refl))
        (λ e. some_cons-Replaces f slots _ e (replace-Replaces slots))

  Places : FilterTable → Option FilterTable → Type 0
  Places slots none = count slots ≡ length slots
  Places slots (some slots') = Replaces slots pid program (some slots')

  placed_none-Places :
      (f : Filter) (slots : FilterTable) (o : Option FilterTable)
      → for_pid (some f ∷ slots) pid ≡ none
      → (for_pid slots pid ≡ none → Places slots o)
      → Places (some f ∷ slots) (Option.map (λ rest. some f ∷ rest) o)
  unfolding Places count for_pid
  placed_none-Places f slots none alone h = ground (arith, h)
  placed_none-Places f slots (some rest) alone h = elim (Bool-cases (f.pid == pid)) [
    | inl e ↦ absurd (ground arith)
    | inr e ↦ some_cons-Replaces f slots (some rest) e (h (ground arith))
  ]

  place-Places :
      (slots : FilterTable)
      → for_pid slots pid ≡ none
      → Places slots (place (filter pid program) slots)
  unfolding place Places for_pid count
  place-Places [] absent = refl
  place-Places (none ∷ slots) absent = (λ q. ground arith, λ v. (absent, v), refl)
  place-Places (some f ∷ slots) absent = placed_none-Places f slots _ absent (place-Places slots)

  placed-Installs :
      (slots : FilterTable) (o : Option FilterTable)
      → IsValid slots
      → for_pid slots pid ≡ none
      → Places slots o
      → Installs slots pid program (placed slots o)
  unfolding Places
  placed-Installs slots none valid absent full = (refl, absent, full)
  placed-Installs slots (some rest) valid absent (h, v, l) = (h, v valid, l)

  replaced-Installs :
      (slots : FilterTable) (o : Option FilterTable)
      → IsValid slots
      → Replaces slots pid program o
      → Installs slots pid program (replaced pid program slots o)
  replaced-Installs slots none valid absent =
      placed-Installs slots _ valid absent (place-Places slots absent)
  replaced-Installs slots (some rest) valid (h, v, l) = (h, v valid, l)

-- On a table where no process has two filters, `install` gives the process the program and leaves
-- every other process the filter it had, and no process has two; or it reports failure and changes
-- nothing, which happens only when the process had none and every slot is taken.
pub install-Installs :
    (slots : FilterTable) (pid : ℕ) (program : List BpfInsn)
    → IsValid slots
    → Installs slots pid program (install slots pid program)
unfolding install
install-Installs slots pid program valid =
    replaced-Installs pid program slots _ valid (replace-Replaces pid program slots)

for_pid-remove :
    (slots : FilterTable) (pid q : ℕ)
    → IsValid slots
    → for_pid (remove slots pid) q ≡ (if pid == q then none else for_pid slots q)
unfolding for_pid remove
for_pid-remove [] pid q valid = ground arith
for_pid-remove (none ∷ slots) pid q valid = for_pid-remove slots pid q valid
for_pid-remove (some f ∷ slots) pid q (alone, valid) =
    ground (arith, for_pid-remove slots pid q valid)

remove-IsValid : (slots : FilterTable) (pid : ℕ) → IsValid slots → IsValid (remove slots pid)
unfolding for_pid remove
remove-IsValid [] pid valid = tt
remove-IsValid (none ∷ slots) pid valid = remove-IsValid slots pid valid
remove-IsValid (some f ∷ slots) pid (alone, valid) = elim (Bool-cases (f.pid == pid)) [
  | inl e ↦ rw e valid
  | inr e ↦
      rw e (ground (arith, for_pid-remove slots pid f.pid valid), remove-IsValid slots pid valid)
]

-- On such a table, `remove` takes the process's filter away and no other, and the process then has
-- none: the loop that stops at the first match has missed no second one.
pub remove-Removes :
    (slots : FilterTable) (pid : ℕ)
    → IsValid slots
    → IsValid (remove slots pid)
      × ((q : ℕ) → for_pid (remove slots pid) q ≡ (if pid == q then none else for_pid slots q))
remove-Removes slots pid valid =
    (remove-IsValid slots pid valid, λ q. for_pid-remove slots pid q valid)
