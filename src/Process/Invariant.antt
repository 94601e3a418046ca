-- ===== src/Process/Invariant.antt =====
-- What every call of src/process/mod.rs keeps: pids are unique and below the next one, and a dead
-- process has no kernel stack.
use rustos.Prelude.{
  ℕ, ◌<◌, ◌≡◌, Bool, ◌||◌, Option, none, some, List, ◌==◌, if◌then◌else◌, Bool-cases, inl, inr,
}
use mathlib.Core.Option
use rustos.Process.{
  Process, Kernel, get_process, update_process, without_pid, is_zombie, is_terminated,
}
use rustos.Process.Lookup.{KeepsPid, AllUnique, get-update, get-without}

-- A process that waits to be reaped or is gone.
abbrev is_dead : Process → Bool
is_dead p = is_zombie p.state || is_terminated p.state

-- The process with this pid.
abbrev pub process : Kernel → ℕ → Option Process
process k j = get_process k.manager.processes j

-- One process, where the next pid is `next`.
abbrev IsGood : ℕ → Process → Type 0
IsGood next p = (p.pid < next) × (if is_dead p then p.kernel_stack_slot ≡ none else Unit)

abbrev pub AllGood : ℕ → Option Process → Type 0
AllGood next none = Unit
AllGood next (some p) = IsGood next p

pub record IsValid (k : Kernel) : Type 0 where
  pub unique : AllUnique k.manager.processes
  pub good : (j : ℕ) → AllGood k.manager.next_pid (process k j)

-- A change of a process that is fine for any that was fine.
abbrev pub Keeps : (Process → Process) → Type 0
Keeps f = (next : ℕ) (p : Process) → IsGood next p → IsGood next (f p)

AllGood-map :
    (next : ℕ) (o : Option Process) (f : Process → Process)
    → Keeps f
    → AllGood next o
    → AllGood next (Option.map f o)
AllGood-map next none f k g = tt
AllGood-map next (some p) f k g = k next p g

pub update-good :
    (next : ℕ) (ps : List Process) (pid : ℕ) (f : Process → Process)
    → KeepsPid f
    → Keeps f
    → ((j : ℕ) → AllGood next (get_process ps j))
    → (j : ℕ) → AllGood next (get_process (update_process ps pid f) j)
update-good next ps pid f kp k g j = elim (Bool-cases (pid == j)) [
  | inl e ↦ rw (get-update ps pid j f kp, e) (AllGood-map next (get_process ps j) f k (g j))
  | inr e ↦ rw (get-update ps pid j f kp, e) (g j)
]

pub without-good :
    (next : ℕ) (ps : List Process) (pid : ℕ)
    → ((j : ℕ) → AllGood next (get_process ps j))
    → (j : ℕ) → AllGood next (get_process (without_pid ps pid) j)
without-good next ps pid g j = elim (Bool-cases (pid == j)) [
  | inl e ↦ rw (get-without ps pid j, e) tt
  | inr e ↦ rw (get-without ps pid j, e) (g j)
]
