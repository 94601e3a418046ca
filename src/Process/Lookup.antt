-- ===== src/Process/Lookup.antt =====
-- `get_process` after each change of the list of processes, and what `find_zombie` and
-- `has_children` find, in a list where no two processes have one pid.
use rustos.Prelude.{
  ℕ, ◌≡◌, refl, Bool, true, false, not, ◌&&◌, none, some, List, [], ◌∷◌, ◌++◌, arith, ◌==◌, ==-refl,
  if◌then◌else◌, Bool-cases, inl, inr,
}
use mathlib.Core.Option
use rustos.Process.{
  Process, get_process, update_process, without_pid, find_zombie, has_children, is_some_pid,
  is_zombie, is_terminated,
}

-- A change of a process other than of its pid.
abbrev pub KeepsPid : (Process → Process) → Type 0
KeepsPid f = (p : Process) → (f p).pid ≡ p.pid

abbrev pub AllUnique : List Process → Type 0
AllUnique [] = Unit
AllUnique (p ∷ ps) = (get_process ps p.pid ≡ none) × AllUnique ps

pub get-update :
    (ps : List Process) (pid j : ℕ) (f : Process → Process)
    → KeepsPid f
    → get_process (update_process ps pid f) j
      ≡ (if pid == j then Option.map f (get_process ps j) else get_process ps j)
unfolding get_process update_process
get-update [] pid j f k = ground arith
get-update (p ∷ ps) pid j f k = ground (arith, k p, get-update ps pid j f k)

pub get-without :
    (ps : List Process) (pid j : ℕ)
    → get_process (without_pid ps pid) j ≡ (if pid == j then none else get_process ps j)
unfolding get_process without_pid
get-without [] pid j = ground arith
get-without (p ∷ ps) pid j = ground (arith, get-without ps pid j)

pub get-push :
    (ps : List Process) (q : Process) (j : ℕ)
    → get_process ps q.pid ≡ none
    → get_process (ps ++ q ∷ []) j ≡ (if q.pid == j then some q else get_process ps j)
unfolding get_process
get-push [] q j h = ground arith
get-push (p ∷ ps) q j h = ground (arith, get-push ps q j)

pub get_process-pid :
    (ps : List Process) (j : ℕ) (p : Process) → get_process ps j ≡ some p → p.pid ≡ j
unfolding get_process
get_process-pid [] j p h = cc
get_process-pid (q ∷ ps) j p h = ground (arith, h, get_process-pid ps j p)

pub AllUnique-update :
    (ps : List Process) (pid : ℕ) (f : Process → Process)
    → KeepsPid f
    → AllUnique ps
    → AllUnique (update_process ps pid f)
unfolding update_process
AllUnique-update [] pid f k u = tt
AllUnique-update (p ∷ ps) pid f k u = elim (Bool-cases (p.pid == pid)) [
  | inl e ↦ rw e (rw (k p) u.0, u.1)
  | inr e ↦
      let other : (pid == p.pid) ≡ false = ground arith in
      rw e (rw (get-update ps pid p.pid f k, other) u.0, AllUnique-update ps pid f k u.1)
]

pub AllUnique-without :
    (ps : List Process) (pid : ℕ) → AllUnique ps → AllUnique (without_pid ps pid)
unfolding without_pid
AllUnique-without [] pid u = tt
AllUnique-without (p ∷ ps) pid u = elim (Bool-cases (p.pid == pid)) [
  | inl e ↦ rw e (AllUnique-without ps pid u.1)
  | inr e ↦
      let other : (pid == p.pid) ≡ false = ground arith in
      rw e (rw (get-without ps pid p.pid, other) u.0, AllUnique-without ps pid u.1)
]

pub AllUnique-push :
    (ps : List Process) (q : Process)
    → get_process ps q.pid ≡ none
    → AllUnique ps
    → AllUnique (ps ++ q ∷ [])
unfolding get_process
AllUnique-push [] q h u = (refl, tt)
AllUnique-push (p ∷ ps) q h u = elim (Bool-cases (p.pid == q.pid)) [
  | inl e ↦ ground (arith, h, e)
  | inr e ↦
      let rest : get_process ps q.pid ≡ none = ground (arith, h, e) in
      let other : (q.pid == p.pid) ≡ false = ground arith in
      (rw (get-push ps q p.pid rest, other) u.0, AllUnique-push ps q rest u.1)
]

-- A child of this parent that can be reaped.
abbrev pub is_reapable : ℕ → Process → Bool
is_reapable parent p = is_some_pid p.parent_pid parent && is_zombie p.state

pub find_zombie-found :
    (ps : List Process) (parent : ℕ) (p : Process)
    → AllUnique ps
    → find_zombie ps parent ≡ some p
    → (get_process ps p.pid ≡ some p) × (is_reapable parent p ≡ true)
unfolding get_process find_zombie
find_zombie-found [] parent p u h = cc
find_zombie-found (q ∷ ps) parent p u h = elim (Bool-cases (is_reapable parent q)) [
  | inl e ↦ ground (arith, h, e)
  | inr e ↦
      let later : find_zombie ps parent ≡ some p = ground (arith, h, e) in
      let (there, reapable) = find_zombie-found ps parent p u.1 later in
      (ground (arith, there, u.0), reapable)
]

pub find_zombie-none :
    (ps : List Process) (parent j : ℕ) (p : Process)
    → find_zombie ps parent ≡ none
    → get_process ps j ≡ some p
    → is_reapable parent p ≡ false
unfolding get_process find_zombie
find_zombie-none [] parent j p h g = cc
find_zombie-none (q ∷ ps) parent j p h g = elim (Bool-cases (is_reapable parent q)) [
  | inl e ↦ ground (arith, h, e)
  | inr e ↦
      let later : find_zombie ps parent ≡ none = ground (arith, h, e) in
      elim (Bool-cases (q.pid == j)) [
        | inl here ↦ ground (arith, g, here, e)
        | inr there ↦ find_zombie-none ps parent j p later (ground (arith, g, there))
      ]
]

-- A child of this parent that still runs or can be reaped.
abbrev pub is_child : ℕ → Process → Bool
is_child parent p = is_some_pid p.parent_pid parent && not (is_terminated p.state)

pub has_children_from :
    (ps : List Process) (parent j : ℕ) (p : Process)
    → get_process ps j ≡ some p
    → is_child parent p ≡ true
    → has_children ps parent ≡ true
unfolding get_process has_children
has_children_from [] parent j p g c = cc
has_children_from (q ∷ ps) parent j p g c = elim (Bool-cases (q.pid == j)) [
  | inl here ↦ ground (arith, g, here, c)
  | inr there ↦ ground (arith, g, there, has_children_from ps parent j p)
]

pub has_children_to :
    (ps : List Process) (parent : ℕ)
    → AllUnique ps
    → has_children ps parent ≡ true
    → (p : Process) × (get_process ps p.pid ≡ some p) × (is_child parent p ≡ true)
unfolding get_process has_children
has_children_to [] parent u h = cc
has_children_to (q ∷ ps) parent u h = elim (Bool-cases (is_child parent q)) [
  | inl e ↦ (q, rw (==-refl q.pid), e)
  | inr e ↦
      let later : has_children ps parent ≡ true = ground (arith, h, e) in
      let (p, there, child) = has_children_to ps parent u.1 later in
      (p, ground (arith, there, u.0), child)
]
