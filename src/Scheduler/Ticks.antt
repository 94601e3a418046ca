-- ===== src/Scheduler/Ticks.antt =====
-- src/process/scheduler.rs: ticks, and the calls that switch processes. The
-- caller of each one does not hold the lock of the process manager.
use rustos.Prelude.{
  ℕ, ◌+◌, min, Run, Bool, true, false, Option, none, some, leb, if◌then◌else◌, length, ℤ, pos,
  negsuc,
}
use rustos.Process.{
  ProcessManager, Process, ProcessState, Kernel, ready, running, blocked, terminated, zombie,
  get_process, update_process, is_some_pid, is_terminated, is_zombie,
}
use rustos.Process
use rustos.Process.Signals.{deliver_pending_signals}
use rustos.Scheduler.{
  System, Locked, done, overflows, ◌>>=◌, u64_max, add_checked, processes, current, queue,
  with_processes, with_current, change_state, enqueue, dequeue, next_process, vtick_for_nice,
  slice_for,
}
use rustos.Scheduler.Sleeping.{wake, wake_sleepers, sleep_ticks}

-- `process.vruntime.saturating_add(vtick_for_nice(process.nice))`
abbrev pub charged : Process → Process
charged p = record p { vruntime = min (p.vruntime + vtick_for_nice p.nice) u64_max }

-- The charge of the current process, if there is one.
unfoldable pub charge : System → Option ℕ → System
charge s none = s
charge s (some pid) = with_processes s (update_process (processes s) pid charged)

unfoldable pub charge_running_vruntime : System → System
unfolding vtick_for_nice charge
charge_running_vruntime s = charge s (current s)

pub deliver_signals : ℕ → System → System
unfolding dequeue deliver_pending_signals
deliver_signals lapic_id s = elim (current s) [
  | none ↦ s
  | some pid ↦
      let delivered = deliver_pending_signals s.kernel pid in
      let after = record s { kernel = delivered.1 } in
      if delivered.0 then dequeue lapic_id after pid else after
]

abbrev pub is_running : ProcessState → Bool
is_running running = true
is_running ready = false
is_running blocked = false
is_running ProcessState.waiting = false
is_running zombie = false
is_running terminated = false

-- `current.state = Ready; self.enqueue(current_pid)`, under the lock.
abbrev pub requeue : ℕ → System → ℕ → Locked System
requeue lapic_id s pid = enqueue true lapic_id (change_state s pid ready) pid

-- What a caller that holds the lock does with the current process, which leaves the CPU then.
pub leave_found : System → ℕ → Option Process → (ℕ → Process → Locked System) → Locked System
leave_found s pid none f = done (with_current s none)
leave_found s pid (some p) f = f pid p >>= λ s'. done (with_current s' none)

pub leave_from : System → Option ℕ → (ℕ → Process → Locked System) → Locked System
unfolding leave_found
leave_from s none f = done s
leave_from s (some pid) f = leave_found s pid (get_process (processes s) pid) f

unfoldable pub leave_cpu : System → (ℕ → Process → Locked System) → Locked System
unfolding leave_from
leave_cpu s f = leave_from s (current s) f

unfoldable pub preempt : ℕ → System → Locked System
unfolding enqueue leave_cpu
preempt lapic_id s =
    leave_cpu s λ pid p. if is_running p.state then requeue lapic_id s pid else done s

-- The process that runs from now on, and its slice.
abbrev dispatch : System → ℕ → System
dispatch s pid =
    let running_s = with_current (change_state s pid running) (some pid) in
    record running_s {
      scheduler = record (s.scheduler) {
        quantum_counter = 0;
        quantum = slice_for (length (queue s) + 1);
      };
    }

abbrev pub dispatch_next : Option ℕ × System → Locked System
dispatch_next (none, s) = done s
dispatch_next (some pid, s) = done (dispatch s pid)

unfoldable pub schedule_user : System → Locked System
unfolding next_process slice_for
schedule_user s = next_process false s >>= dispatch_next

abbrev pub with_counter : System → ℕ → System
with_counter s n = record s { scheduler = record (s.scheduler) { quantum_counter = n } }

unfoldable pub tick : ℕ → ℕ → System → Locked System
unfolding charge_running_vruntime wake_sleepers deliver_signals preempt schedule_user
tick now lapic_id s = wake_sleepers now lapic_id (charge_running_vruntime s) >>= λ woken.
    let s' = deliver_signals lapic_id woken in
    add_checked s'.scheduler.quantum_counter 1 >>= λ counter.
    if leb s'.scheduler.quantum counter
    then (preempt lapic_id (with_counter s' 0) >>= λ t. schedule_user t)
    else done (with_counter s' counter)

tick_kernel_only : ℕ → ℕ → System → Locked System
unfolding wake_sleepers deliver_signals
tick_kernel_only now lapic_id s =
    wake_sleepers now lapic_id s >>= λ s'. done (deliver_signals lapic_id s')

-- `schedule`, without the switch of the two contexts.
unfoldable pub schedule : ℕ → System → Locked System
unfolding next_process enqueue slice_for
schedule lapic_id s = next_process true s >>= λ (next, s'). elim next [
  | none ↦ done s'
  | some pid ↦
      if is_some_pid (current s) pid then enqueue true lapic_id s' pid else done (dispatch s' pid)
]

unfoldable pub yield_cpu : ℕ → System → Locked System
unfolding enqueue schedule leave_cpu
yield_cpu lapic_id s = leave_cpu s (λ pid p. requeue lapic_id s pid) >>= λ s'. schedule lapic_id s'

block : ℕ → System → Locked System
unfolding schedule leave_cpu
block lapic_id s =
    leave_cpu s (λ pid p. done (change_state s pid blocked)) >>= λ s'. schedule lapic_id s'

unfoldable pub unblock : ℕ → System → ℕ → Locked System
unfolding wake
unblock lapic_id s pid = wake lapic_id s pid

-- The free functions on `SCHEDULER`.
spawn : ℕ → System → Locked (ℕ × System)
unfolding enqueue
spawn lapic_id s = elim (Process.create_process s.kernel) [
  | Run.panic ↦ overflows
  | Run.done (pid, k) ↦
      enqueue false lapic_id (record s { kernel = k }) pid >>= λ s'. done (pid, s')
]

pub terminate : ℕ → System → ℕ → System
unfolding dequeue
terminate lapic_id s pid =
    let s' = dequeue lapic_id s pid in record s' { kernel = Process.terminate s'.kernel pid }

sleep : ℕ → ℕ → System → ℕ → Locked System
unfolding sleep_ticks schedule
sleep now lapic_id s ticks = sleep_ticks now s ticks >>= λ (pid, s'). schedule lapic_id s'

-- `nice.clamp(-20, 19)`
abbrev pub clamp_nice : ℤ → ℤ
clamp_nice (pos n) = pos (min n 19)
clamp_nice (negsuc n) = negsuc (min n 19)

unfoldable pub renice : System → ℕ → ℤ → Option Process → Option ℤ × System
renice s pid nice none = (none, s)
renice s pid nice (some p) = (
  some p.nice,
  with_processes s (update_process (processes s) pid (λ q. record q { nice = clamp_nice nice })),
)

unfoldable pub set_nice : System → ℕ → ℤ → Option ℤ × System
unfolding renice
set_nice s pid nice = renice s pid nice (get_process (processes s) pid)

get_nice : System → ℕ → Option ℤ
get_nice s pid = elim (get_process (processes s) pid) [ none ↦ none | some p ↦ some p.nice ]

unfoldable pub exit : ℕ → System → Locked System
unfolding terminate schedule
exit lapic_id s = elim (current s) [
  | none ↦ done s
  | some pid ↦ schedule lapic_id (terminate lapic_id s pid)
]
