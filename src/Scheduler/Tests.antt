-- ===== src/Scheduler/Tests.antt =====
-- The theorems on the scheduler at two processes, one of which runs.
use rustos.Prelude.{
  ◌≤◌, ◌≡◌, refl, true, false, none, some, List, [], ◌∷◌, arith, ◌==◌, Bool-cases, inl, inr, pos,
  negsuc,
}
use rustos.Prelude.Maps
use rustos.Process.{Process, ready, running, blocked, get_process, update_process}
use rustos.Scheduler.{
  System, processes, done, hangs, vruntime_of, contains, next_process, vtick_for_nice,
}
use rustos.Scheduler.Ticks.{tick, charge_running_vruntime}
use rustos.Scheduler.Pick.{Bounded, Picks, next_process-Picks}
use rustos.Scheduler.Invariant.{IsValid, Keeps}
use rustos.Scheduler.Reach.{
  Call, SomeTooLate, run, enqueues, charges, dispatches, dequeues, renices, sleeps, run-Keeps,
}
use rustos.Scheduler.Wakeups.{wake_sleepers-Wakes}
use rustos.Scheduler.Wakeups.Single.{Wakes}
use rustos.Scheduler.Sleeping.{wake_sleepers}
use rustos.Scheduler.Deadlock.{tick-hangs}
use rustos.Scheduler.Shares.{vtick_for_nice-order}
use rustos.Smp.{CpuState}

abbrev first : Process
first = record {
  pid = 1;
  parent_pid = none;
  state = running;
  exit_code = none;
  pending_signals = 0;
  signal_blocked = 0;
  kernel_stack_slot = none;
  nice = pos 0;
  vruntime = 2048;
}

abbrev other : Process
other = record first { pid = 2; state = ready; vruntime = 1024 }

abbrev cpu : CpuState
cpu = record { alive = true; run_queue = 2 ∷ []; run_queue_len = 1 }

-- Process 1 runs in the last tick of its slice, and process 2 is ready.
abbrev system : System
system = record {
  scheduler = record {
    ready_queue = 2 ∷ [];
    quantum = 8;
    quantum_counter = 7;
    sleep_queue = [];
    min_vruntime = 1000;
  };
  kernel = record {
    manager = record { processes = first ∷ other ∷ []; current_pid = some 1; next_pid = 3 };
    stacks = [];
    fd_tables = Maps.empty;
  };
  cpus = cpu ∷ [];
}

system-Bounded : Bounded (processes system)
unfolding vruntime_of get_process
system-Bounded j = elim (Bool-cases (1 == j)) [
  | inl e ↦ rw e (omega arith)
  | inr e ↦ elim (Bool-cases (2 == j)) [
    | inl c ↦ rw (e, c) (omega arith)
    | inr c ↦ rw (e, c) (omega arith)
  ]
]

system-IsValid : IsValid system
unfolding contains vruntime_of get_process
system-IsValid = record {
  bounded = system-Bounded;
  no_repeat = (refl, tt);
  floor_bounded = omega arith;
  above = λ j m. elim (Bool-cases (1 == j)) [
    | inl e ↦ rw e (omega arith)
    | inr e ↦ elim (Bool-cases (2 == j)) [
      | inl c ↦ rw (e, c) (omega arith)
      | inr c ↦ rw (e, c) (omega arith)
    ]
  ];
}

next_process-Picks_example : Picks system (next_process false system)
unfolding contains
next_process-Picks_example = next_process-Picks system system-Bounded (refl, tt) (λ e. cc)

abbrev busy_calls : List Call
busy_calls =
    charges ∷ enqueues 1 ∷ renices 2 (negsuc 4) ∷ dispatches ∷ sleeps 100 5 ∷ dequeues 1 ∷ []

run-Keeps_example : Keeps (SomeTooLate busy_calls) system (run 0 busy_calls system)
run-Keeps_example = run-Keeps 0 busy_calls system system-IsValid

abbrev charged_first : Process
charged_first = record first { vruntime = 3072 }

tick-hangs_example : tick 50 0 system ≡ hangs
unfolding tick get_process update_process contains
tick-hangs_example =
    tick-hangs 50 0 system (charge_running_vruntime system) (charge_running_vruntime system) 1
      charged_first refl refl refl refl refl refl refl refl

vtick_for_nice-order_example :
    (11 ≤ vtick_for_nice (negsuc 4))
    × (vtick_for_nice (negsuc 4) ≤ vtick_for_nice (pos 10))
    × (vtick_for_nice (pos 10) ≤ 69905)
vtick_for_nice-order_example = vtick_for_nice-order (negsuc 4) (pos 10) (omega arith)

-- Process 1 sleeps until tick 60 and process 2, which is blocked and in the ready queue, until
-- tick 40.
abbrev blocked_other : Process
blocked_other = record other { state = blocked }

abbrev sleepy : System
sleepy = record system {
  scheduler = record (system.scheduler) {
    sleep_queue = record { pid = 1; wake_tick = 60 } ∷ record { pid = 2; wake_tick = 40 } ∷ [];
  };
  kernel = record (system.kernel) {
    manager = record (system.kernel.manager) { processes = first ∷ blocked_other ∷ [] };
  };
}

-- Process 2 is ready then, and process 1 goes on sleeping.
wake_sleepers-sleepy :
    wake_sleepers 50 0 sleepy
    ≡ done (record sleepy {
      scheduler = record (sleepy.scheduler) {
        sleep_queue = record { pid = 1; wake_tick = 60 } ∷ [];
      };
      kernel = record (sleepy.kernel) {
        manager = record (sleepy.kernel.manager) { processes = first ∷ other ∷ [] };
      };
    })
unfolding wake_sleepers get_process update_process contains
wake_sleepers-sleepy = refl

wake_sleepers-Wakes_example : Wakes 50 sleepy (wake_sleepers 50 0 sleepy)
wake_sleepers-Wakes_example = wake_sleepers-Wakes 50 0 sleepy
