-- ===== src/Seccomp/Table.antt =====
-- The table of installed filters of src/seccomp.rs, and the decision on a system call.
pub mod Slots
use Prim.Native.Nat.{bit_and}
use mathlib.Core.Option
use rustos.Prelude.{
  ℕ, zero, suc, ◌%◌, ◌^◌, ◌≤◌, ◌+◌, List, [], ◌∷◌, ◌++◌, Option, none, some, Bool, true, false,
  replicate, ◌==◌, if◌then◌else◌, Run, done, ◌>>=◌,
}
use rustos.Seccomp.Insn.{
  BpfInsn, SeccompData, ret_kill_process, ret_trap, ret_errno, ret_log, ret_allow, action_mask,
  data_mask,
}
use rustos.Seccomp.Machine.{run}

pub record Filter : Type 0 where
  pub program : List BpfInsn
  pub pid : ℕ

-- Sixteen slots.
abbrev pub FilterTable : Type 0
FilterTable = List (Option Filter)

unfoldable pub new : FilterTable
new = replicate 16 none

-- The first loop of `install`: the filter of the process gets another program.
replace : ℕ → List BpfInsn → FilterTable → Option FilterTable
replace pid program [] = none
replace pid program (none ∷ slots) = Option.map (λ rest. none ∷ rest) (replace pid program slots)
replace pid program (some f ∷ slots) =
    let rest = replace pid program slots in
    if f.pid == pid
    then some (some (record f { program = program }) ∷ slots)
    else Option.map (λ rest. some f ∷ rest) rest

-- The second: the first free slot is taken.
place : Filter → FilterTable → Option FilterTable
place f [] = none
place f (none ∷ slots) = some (some f ∷ slots)
place f (some g ∷ slots) = Option.map (λ rest. some g ∷ rest) (place f slots)

abbrev placed : FilterTable → Option FilterTable → FilterTable × Bool
placed slots none = (slots, false)
placed slots (some slots') = (slots', true)

abbrev replaced : ℕ → List BpfInsn → FilterTable → Option FilterTable → FilterTable × Bool
replaced pid program slots none =
    placed slots (place (record { program = program; pid = pid }) slots)
replaced pid program slots (some slots') = (slots', true)

unfoldable pub install : FilterTable → ℕ → List BpfInsn → FilterTable × Bool
unfolding replace place
install slots pid program = replaced pid program slots (replace pid program slots)

unfoldable pub for_pid : FilterTable → ℕ → Option Filter
for_pid [] pid = none
for_pid (none ∷ slots) pid = for_pid slots pid
for_pid (some f ∷ slots) pid = let rest = for_pid slots pid in if f.pid == pid then some f else rest

unfoldable pub remove : FilterTable → ℕ → FilterTable
remove [] pid = []
remove (none ∷ slots) pid = none ∷ remove slots pid
remove (some f ∷ slots) pid =
    let rest = remove slots pid in if f.pid == pid then none ∷ slots else some f ∷ rest

unfoldable pub count : FilterTable → ℕ
count [] = 0
count (none ∷ slots) = count slots
count (some f ∷ slots) = suc (count slots)

pub data Decision : Type 0 where
  allow log kill trap : Decision
  errno : ℕ → Decision

unfoldable pub decision_of : ℕ → Decision
decision_of value =
    let masked = bit_and value action_mask in
    if masked == ret_allow
    then allow
    else if masked == ret_log
    then log
    else if masked == ret_trap
    then trap
    else if masked == ret_errno
    then errno (bit_and value data_mask % 2 ^ 16)
    else if masked == ret_kill_process
    then kill
    else allow

unfoldable pub data_of : ℕ → List ℕ → SeccompData
data_of syscall_num args = record {
  nr = syscall_num % 2 ^ 32;
  arch = 0xc000_003e;
  instruction_pointer = 0;
  args = args;
}

abbrev pub decided : SeccompData → Option Filter → Run Decision
decided d none = done allow
decided d (some f) = run f.program d >>= λ value. done (decision_of value)

unfoldable pub check : FilterTable → ℕ → ℕ → List ℕ → Run Decision
unfolding for_pid data_of decision_of
check slots pid syscall_num args = decided (data_of syscall_num args) (for_pid slots pid)
