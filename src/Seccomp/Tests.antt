-- ===== src/Seccomp/Tests.antt =====
-- Filters at concrete inputs, and the theorems at such inputs.
use rustos.Prelude.{
  ℕ, ◌≡◌, ◌↔◌, refl, List, [], ◌∷◌, none, true, if◌then◌else◌, ◌==◌, done, panic, arith,
}
use rustos.Seccomp.Insn.{BpfInsn, SeccompData, ret_kill_process, ret_allow}
use rustos.Seccomp.Machine
use rustos.Seccomp.Machine.{run}
use rustos.Seccomp.Machine.Runs.{Runs, run-Runs_iff}
use rustos.Seccomp.Table
use rustos.Seccomp.Table.{
  FilterTable, Decision, install, for_pid, remove, count, check, data_of, decision_of, allow, kill,
  errno,
}
use rustos.Seccomp.Table.Slots.{IsValid, Installs, install-Installs, remove-Removes}
use rustos.Seccomp.Allowlist.{build_allowlist, Guards, check-build_allowlist}

abbrev insn : ℕ → ℕ → ℕ → ℕ → BpfInsn
insn code jt jf k = record { code = code; jt = jt; jf = jf; k = k }

-- Call 3 with 7 as its first argument.
abbrev call : SeccompData
call = data_of 3 (7 ∷ 0 ∷ 0 ∷ 0 ∷ 0 ∷ 0 ∷ [])

-- Loads the argument, adds 5, shifts left by 1 and returns the register X it was moved to.
abbrev adder : List BpfInsn
adder =
    insn 0x20 0 0 16 ∷ insn 0x04 0 0 5 ∷ insn 0x64 0 0 33 ∷ insn 0x07 0 0 0 ∷ insn 0x0e 0 0 0 ∷ []

run-adder : run adder call ≡ done 24
unfolding run data_of
run-adder = refl

-- RET A (0x16) returns the constant and not the accumulator.
run_ret_a :
    run (insn 0x00 0 0 ret_kill_process ∷ insn 0x16 0 0 ret_allow ∷ []) call ≡ done ret_allow
unfolding run data_of
run_ret_a = refl

run_overflow : run (insn 0x20 0 0 0xffff_fffc ∷ []) call ≡ panic
unfolding run data_of
run_overflow = refl

run-empty : run [] call ≡ done ret_kill_process
unfolding run
run-empty = refl

divides_by_zero : run (insn 0x34 0 0 0 ∷ insn 0x06 0 0 ret_allow ∷ []) call ≡ done ret_kill_process
unfolding run data_of
divides_by_zero = refl

-- An action the match does not name is let through, SECCOMP_RET_KILL_THREAD among them.
decision_of-kill_thread : decision_of 0 ≡ allow
unfolding decision_of
decision_of-kill_thread = refl

decision_of-errno : decision_of 0x0005_0001 ≡ errno 1
unfolding decision_of
decision_of-errno = refl

abbrev reads : List BpfInsn
reads = build_allowlist (0 ∷ 3 ∷ []) 0x0005_0001

abbrev table : FilterTable
table = (install Table.new 7 adder).0

check-reads :
    let slots = (install table 5 reads).0 in
    (check slots 5 3 [] ≡ done allow)
    × (check slots 5 4 [] ≡ done (errno 1))
    × (check slots 6 4 [] ≡ done allow)
    × (count slots ≡ 2)
    × (count (remove slots 7) ≡ 1)
unfolding check install build_allowlist run count remove Table.new
check-reads = (refl, refl, refl, refl, refl)

table-IsValid : IsValid table
unfolding install Table.new for_pid
table-IsValid = (refl, tt)

run-Runs_iff_example : (run adder call ≡ done 24) ↔ Runs adder call 0 Machine.new (done 24)
run-Runs_iff_example = run-Runs_iff adder call (done 24) (omega arith) (omega arith)

install-Installs_example : Installs table 5 reads (install table 5 reads)
install-Installs_example = install-Installs table 5 reads table-IsValid

remove-Removes_example :
    IsValid (remove table 7)
    × ((q : ℕ) → for_pid (remove table 7) q ≡ (if 7 == q then none else for_pid table q))
remove-Removes_example = remove-Removes table 7 table-IsValid

reads_installed : (install table 5 reads).1 ≡ true
unfolding install build_allowlist Table.new
reads_installed = refl

check-build_allowlist_example : Guards table 5 (0 ∷ 3 ∷ []) 0x0005_0001 (install table 5 reads).0
check-build_allowlist_example =
    check-build_allowlist table 5 (0 ∷ 3 ∷ []) 0x0005_0001 table-IsValid reads_installed
      (omega arith)
