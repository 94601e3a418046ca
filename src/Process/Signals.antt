-- ===== src/Process/Signals.antt =====
-- src/process/mod.rs, `mod signal`, `send_signal` and `deliver_pending_signals`.
use Prim.Native.Nat.{bit_and, bit_or}
use rustos.Prelude.{
  ℕ, zero, suc, ◌+◌, ◌-◌, ◌^◌, Bool, true, false, not, ◌&&◌, ◌||◌, Option, none, some, Result, ok,
  err, leb, ◌==◌, if◌then◌else◌, pos,
}
use rustos.Process.{
  Process, ProcessState, ready, blocked, terminated, Kernel, get_process, update_process,
  is_terminated, free_stack_of, leave, ended,
}

abbrev pub sigkill : ℕ
sigkill = 9

abbrev sigchld : ℕ
sigchld = 17

abbrev sigcont : ℕ
sigcont = 18

abbrev pub sigstop : ℕ
sigstop = 19

abbrev sigtstp : ℕ
sigtstp = 20

-- `signal::is_valid`
unfoldable pub is_valid : ℕ → Bool
is_valid sig = leb 1 sig && leb sig 31

pub data DefaultAction : Type 0 where
  terminate ignore stop continue : DefaultAction

unfoldable pub default_action : ℕ → DefaultAction
default_action sig =
    if sig == sigchld
    then ignore
    else if sig == sigcont
    then continue
    else if sig == sigstop || sig == sigtstp
    then stop
    else terminate

pub data SignalError : Type 0 where
  invalid_signal process_not_found already_terminated : SignalError

-- The end of a process by a signal, as both functions write it out.
unfoldable pub killed : Kernel → ℕ → ℕ → Kernel
killed k pid sig = record k {
  manager = record (k.manager) {
    processes = update_process k.manager.processes pid (ended terminated (some (pos (128 + sig))));
    current_pid = leave k.manager.current_pid pid;
  };
  stacks = free_stack_of k.stacks (get_process k.manager.processes pid);
}

-- A change of one process and of nothing else.
unfoldable pub changed : Kernel → ℕ → (Process → Process) → Kernel
changed k pid f = record k {
  manager = record (k.manager) { processes = update_process k.manager.processes pid f };
}

abbrev pub stopped : Process → Process
stopped p = record p { state = blocked }

-- SIGKILL and SIGSTOP act at once.
unfoldable pub act_at_once : Kernel → ℕ → ℕ → DefaultAction → Kernel
act_at_once k pid sig terminate = killed k pid sig
act_at_once k pid sig stop = changed k pid stopped
act_at_once k pid sig ignore = k
act_at_once k pid sig continue = k

-- `pending_signals |= 1 << sig`
abbrev pub marked : ℕ → Process → Process
marked sig p = record p { pending_signals = bit_or p.pending_signals (2 ^ sig) }

-- `send_signal` from the process that it found on.
unfoldable pub send_to : Kernel → ℕ → ℕ → Option Process → Result (Unit {0}) SignalError × Kernel
send_to k pid sig none = (err process_not_found, k)
send_to k pid sig (some p) =
    if sig == 0
    then (ok tt, k)
    else if is_terminated p.state
    then (err already_terminated, k)
    else if sig == sigkill || sig == sigstop
    then (ok tt, act_at_once k pid sig (default_action sig))
    else (ok tt, changed k pid (marked sig))

unfoldable pub send_signal : Kernel → ℕ → ℕ → Result (Unit {0}) SignalError × Kernel
unfolding send_to act_at_once
send_signal k pid sig =
    if not (is_valid sig)
    then (err invalid_signal, k)
    else send_to k pid sig (get_process k.manager.processes pid)

-- `x & !y` on u64 values
abbrev and_not : ℕ → ℕ → ℕ
and_not x y = bit_and x (2 ^ 64 - 1 - y)

-- `pending_signals &= !(1 << sig)`
abbrev pub cleared : ℕ → Process → Process
cleared sig p = record p { pending_signals = and_not p.pending_signals (2 ^ sig) }

abbrev pub is_blocked : ProcessState → Bool
is_blocked blocked = true
is_blocked ready = false
is_blocked ProcessState.running = false
is_blocked ProcessState.waiting = false
is_blocked ProcessState.zombie = false
is_blocked terminated = false

abbrev pub resumed : Process → Process
resumed p = if is_blocked p.state then record p { state = ready } else p

-- The effect of one signal by its default action, and whether it ends the process.
unfoldable pub deliver : Kernel → ℕ → ℕ → DefaultAction → Bool × Kernel
deliver k pid sig terminate = (true, killed k pid sig)
deliver k pid sig stop = (false, changed k pid stopped)
deliver k pid sig continue = (false, changed k pid resumed)
deliver k pid sig ignore = (false, k)

-- The body of the loop over the signals.
unfoldable pub deliver_one : Kernel → ℕ → ℕ → ℕ → Bool × Kernel
deliver_one k pid deliverable sig =
    if bit_and deliverable (2 ^ sig) == 0
    then (false, k)
    else deliver (changed k pid (cleared sig)) pid sig (default_action sig)

-- The loop ends with the process, or goes on.
unfoldable pub deliver_next : Bool × Kernel → (Kernel → Bool × Kernel) → Bool × Kernel
deliver_next (true, k) go = (true, k)
deliver_next (false, k) go = go k

-- The loop, for `rounds` numbers from `sig` on.
unfoldable pub deliver_loop : ℕ → ℕ → ℕ → Kernel → ℕ → Bool × Kernel
deliver_loop zero sig deliverable k pid = (false, k)
deliver_loop (suc rounds) sig deliverable k pid =
    deliver_next (deliver_one k pid deliverable sig)
      (λ k'. deliver_loop rounds (sig + 1) deliverable k' pid)

-- `deliver_pending_signals` from the process that it found on.
unfoldable pub deliver_to : Kernel → ℕ → Option Process → Bool × Kernel
deliver_to k pid none = (false, k)
deliver_to k pid (some p) =
    let deliverable = and_not p.pending_signals p.signal_blocked in
    if deliverable == 0 then (false, k) else deliver_loop 31 1 deliverable k pid

unfoldable pub deliver_pending_signals : Kernel → ℕ → Bool × Kernel
unfolding deliver_to
deliver_pending_signals k pid = deliver_to k pid (get_process k.manager.processes pid)
