-- ===== src/Process.antt =====
-- src/process/mod.rs: `ProcessManager` and the life of a process, with the two tables that its
-- calls reach: the kernel stacks of src/gdt.rs and the descriptor tables of
-- src/syscall/filedesc.rs. A process has the fields that these calls read or write.
pub mod Lookup
pub mod Signals
pub mod Invariant
pub mod Kept
pub mod SignalsKept
pub mod Reach
pub mod Lifecycle
pub mod Killing
mod Tests
use rustos.Prelude.{
  ℕ, ◌+◌, ◌-◌, ◌^◌, Run, done, panic, Bool, true, false, not, ◌&&◌, ◌||◌, Option, none, some, List,
  [], ◌∷◌, ◌++◌, set, ltb, ◌==◌, if◌then◌else◌, ℤ, pos, negsuc,
}
use rustos.Prelude.Maps
use rustos.Prelude.Maps.{Map, nat_eq}
use rustos.Filedesc.{FdTable, with_stdio}

pub data ProcessState : Type 0 where
  ready running blocked waiting zombie terminated : ProcessState

pub record Process : Type 0 where
  pub pid : ℕ
  pub parent_pid : Option ℕ
  pub state : ProcessState
  pub exit_code : Option ℤ
  pub pending_signals : ℕ
  pub signal_blocked : ℕ
  pub kernel_stack_slot : Option ℕ
  pub nice : ℤ
  pub vruntime : ℕ

pub record ProcessManager : Type 0 where
  pub processes : List Process
  pub current_pid : Option ℕ
  pub next_pid : ℕ

-- `PROCESS_MANAGER`, `KERNEL_STACK_POOL` (its slots in use) and `PROCESS_FD_TABLES`.
pub record Kernel : Type 0 where
  pub manager : ProcessManager
  pub stacks : List Bool
  pub fd_tables : Map ℕ FdTable

abbrev pub is_zombie : ProcessState → Bool
is_zombie zombie = true
is_zombie ready = false
is_zombie running = false
is_zombie blocked = false
is_zombie waiting = false
is_zombie terminated = false

abbrev pub is_terminated : ProcessState → Bool
is_terminated terminated = true
is_terminated ready = false
is_terminated running = false
is_terminated blocked = false
is_terminated waiting = false
is_terminated zombie = false

abbrev pub is_waiting : ProcessState → Bool
is_waiting waiting = true
is_waiting ready = false
is_waiting running = false
is_waiting blocked = false
is_waiting zombie = false
is_waiting terminated = false

-- `p == Some(pid)`
abbrev pub is_some_pid : Option ℕ → ℕ → Bool
is_some_pid none pid = false
is_some_pid (some q) pid = q == pid

-- `get_process`
unfoldable pub get_process : List Process → ℕ → Option Process
get_process [] pid = none
get_process (p ∷ ps) pid = if p.pid == pid then some p else get_process ps pid

-- What is written through the reference that `get_process_mut` gives.
unfoldable pub update_process : List Process → ℕ → (Process → Process) → List Process
update_process [] pid f = []
update_process (p ∷ ps) pid f = if p.pid == pid then f p ∷ ps else p ∷ update_process ps pid f

-- MAX_PROCESSES
abbrev pub max_processes : ℕ
max_processes = 64

-- `KernelStackPool::free`, without the unmapping of the stack's pages.
free_kernel_stack : List Bool → ℕ → List Bool
free_kernel_stack in_use slot = if ltb slot max_processes then set in_use slot false else in_use

-- `if let Some(slot) = process.kernel_stack_slot.take() { free_kernel_stack(slot) }`
pub free_stack_of : List Bool → Option Process → List Bool
free_stack_of in_use none = in_use
free_stack_of in_use (some p) = elim p.kernel_stack_slot [
  | none ↦ in_use
  | some slot ↦ free_kernel_stack in_use slot
]

-- `if self.current_pid == Some(pid) { self.current_pid = None; }`
abbrev pub leave : Option ℕ → ℕ → Option ℕ
leave current pid = if is_some_pid current pid then none else current

-- The end of a process: its new state and exit code, and no kernel stack any more.
abbrev pub ended : ProcessState → Option ℤ → Process → Process
ended state code p = record p { state = state; exit_code = code; kernel_stack_slot = none }

-- `Process::new`, as far as modelled.
abbrev pub new_process : ℕ → Process
new_process pid = record {
  pid = pid;
  parent_pid = none;
  state = ready;
  exit_code = none;
  pending_signals = 0;
  signal_blocked = 0;
  kernel_stack_slot = none;
  nice = pos 0;
  vruntime = 0;
}

-- `usize::MAX`
abbrev pub usize_max : ℕ
usize_max = 2 ^ 64 - 1

-- The tables with a new process that has the next pid.
abbrev pub created : Kernel → Kernel
created k =
    let pid = k.manager.next_pid in
    record k {
      manager = record (k.manager) {
        processes = k.manager.processes ++ new_process pid ∷ [];
        next_pid = pid + 1;
      };
      fd_tables = Maps.insert k.fd_tables pid with_stdio;
    }

pub create_process : Kernel → Run (ℕ × Kernel)
create_process k =
    if ltb k.manager.next_pid usize_max then done (k.manager.next_pid, created k) else panic

pub terminate : Kernel → ℕ → Kernel
terminate k pid = record k {
  manager = record (k.manager) {
    processes =
        update_process k.manager.processes pid
          (λ p. record p { state = terminated; kernel_stack_slot = none });
    current_pid = leave k.manager.current_pid pid;
  };
  stacks = free_stack_of k.stacks (get_process k.manager.processes pid);
}

-- The wake-up of a parent that waits.
abbrev pub woken : Process → Process
woken p = if is_waiting p.state then record p { state = ready } else p

abbrev pub wake_parent : List Process → Option ℕ → List Process
wake_parent ps none = ps
wake_parent ps (some parent) = update_process ps parent woken

abbrev pub parent_of : Option Process → Option ℕ
parent_of none = none
parent_of (some p) = p.parent_pid

pub exit : Kernel → ℕ → ℤ → Kernel
exit k pid code =
    let found = get_process k.manager.processes pid in
    record k {
      manager = record (k.manager) {
        processes =
            wake_parent (update_process k.manager.processes pid (ended zombie (some code)))
              (parent_of found);
        current_pid = leave k.manager.current_pid pid;
      };
      stacks = free_stack_of k.stacks found;
    }

-- The `find` of `wait`: the first child that can be reaped.
pub find_zombie : List Process → ℕ → Option Process
find_zombie [] parent = none
find_zombie (p ∷ ps) parent =
    if is_some_pid p.parent_pid parent && is_zombie p.state then some p else find_zombie ps parent

-- The `any` of `wait`.
pub has_children : List Process → ℕ → Bool
has_children [] parent = false
has_children (p ∷ ps) parent =
    (is_some_pid p.parent_pid parent && not (is_terminated p.state)) || has_children ps parent

-- `retain(|p| p.pid != pid)`
pub without_pid : List Process → ℕ → List Process
without_pid [] pid = []
without_pid (p ∷ ps) pid = if p.pid == pid then without_pid ps pid else p ∷ without_pid ps pid

abbrev pub code_of : Option ℤ → ℤ
code_of none = negsuc 0
code_of (some code) = code

abbrev pub parked : Process → Process
parked p = record p { state = waiting }

-- What `wait` does with the child that it found.
pub reap : Kernel → ℕ → Option Process → Option (ℕ × ℤ) × Kernel
reap k parent (some p) = (
  some (p.pid, code_of p.exit_code),
  record k {
    manager = record (k.manager) { processes = without_pid k.manager.processes p.pid };
    fd_tables = Maps.remove k.fd_tables p.pid;
  },
)
reap k parent none = (
  none,
  if has_children k.manager.processes parent
      then record k {
        manager = record (k.manager) {
          processes = update_process k.manager.processes parent parked;
        };
      }
      else k,
)

pub wait : Kernel → ℕ → Option (ℕ × ℤ) × Kernel
unfolding reap
wait k parent = reap k parent (find_zombie k.manager.processes parent)
