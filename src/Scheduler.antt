-- ===== src/Scheduler.antt =====
-- src/process/scheduler.rs: the scheduler, with the process manager and the queues of the CPUs that
-- its calls reach. Scheduler/Sleeping.antt has the queue of the sleepers, and
-- Scheduler/Ticks.antt the ticks and the calls that make processes leave or take the CPU.
pub mod Sleeping
pub mod Ticks
pub mod Pick
pub mod Queues
pub mod Invariant
pub mod Reach
pub mod Deadlock
pub mod Wakeups
pub mod Shares
mod Tests
use rustos.Prelude.{
  ℕ, zero, suc, ◌+◌, ◌-◌, ◌*◌, ◌/◌, ◌%◌, ◌^◌, min, max, Bool, true, false, not, ◌&&◌, ◌||◌, Option,
  none, some, List, [], ◌∷◌, ◌++◌, map, ltb, leb, ◌==◌, if◌then◌else◌, length, get_elem?, get_or,
  set, take, ℤ, pos, negsuc,
}
use rustos.Process.{
  ProcessManager, Process, ProcessState, Kernel, ready, running, blocked, terminated, zombie,
  get_process, update_process, is_some_pid, is_terminated, is_zombie,
}
use rustos.Process
use rustos.Process.Signals.{deliver_pending_signals, is_blocked}
use rustos.Smp
use rustos.Smp.{CpuState, update_cpu, with_queue}

-- NICE_WEIGHTS
abbrev pub nice_weights : List ℕ
nice_weights =
    88761 ∷ 71755 ∷ 56483 ∷ 46273 ∷ 36291 ∷ 29154 ∷ 23254 ∷ 18705 ∷ 14949 ∷ 11916 ∷ 9548 ∷ 7620
    ∷ 6100 ∷ 4904 ∷ 3906 ∷ 3121 ∷ 2501 ∷ 1991 ∷ 1586 ∷ 1277 ∷ 1024 ∷ 820 ∷ 655 ∷ 526 ∷ 423 ∷ 335
    ∷ 272 ∷ 215 ∷ 172 ∷ 137 ∷ 110 ∷ 87 ∷ 70 ∷ 56 ∷ 45 ∷ 36 ∷ 29 ∷ 23 ∷ 18 ∷ 15 ∷ []

-- `(nice + 20).clamp(0, 39)`
abbrev pub nice_index : ℤ → ℕ
nice_index (pos n) = min (n + 20) 39
nice_index (negsuc n) = 19 - n

weight_for_nice : ℤ → ℕ
weight_for_nice nice = get_or nice_weights (nice_index nice) 0

pub vtick_for_nice : ℤ → ℕ
unfolding weight_for_nice
vtick_for_nice nice = (1024 * 1024) / weight_for_nice nice

abbrev sched_min_granularity : ℕ
sched_min_granularity = 2

abbrev sched_latency : ℕ
sched_latency = 16

pub slice_for : ℕ → ℕ
slice_for runnable = max (sched_latency / max runnable 1) sched_min_granularity

pub record SleepEntry : Type 0 where
  pub pid : ℕ
  pub wake_tick : ℕ

pub record Scheduler : Type 0 where
  pub ready_queue : List ℕ
  pub quantum : ℕ
  pub quantum_counter : ℕ
  pub sleep_queue : List SleepEntry
  pub min_vruntime : ℕ

new_scheduler : Scheduler
new_scheduler = record {
  ready_queue = [];
  quantum = sched_latency;
  quantum_counter = 0;
  sleep_queue = [];
  min_vruntime = 0;
}

-- The scheduler with what its calls reach: `PROCESS_MANAGER` and what belongs to it, and `CPUS`.
pub record System : Type 0 where
  pub scheduler : Scheduler
  pub kernel : Kernel
  pub cpus : List CpuState

-- `hangs` is a call that spins for ever on the lock of `PROCESS_MANAGER`, which the caller holds
-- already; `overflows` an addition beyond 64 bits, which the debug profile traps.
pub data Locked {ℓ} (A : Type ℓ) : Type ℓ where
  done : A → Locked A
  hangs overflows : Locked A

infixl 1 ◌>>=◌
abbrev pub ◌>>=◌ {ℓ κ} : {A : Type ℓ} {B : Type κ} → Locked A → (A → Locked B) → Locked B
done a >>= f = f a
hangs >>= f = hangs
overflows >>= f = overflows

-- `PROCESS_MANAGER.lock()`, where `held` says whether the caller holds the lock.
abbrev locking {ℓ} : {A : Type ℓ} → Bool → A → Locked A
locking true a = hangs
locking false a = done a

abbrev pub u64_max : ℕ
u64_max = 2 ^ 64 - 1

-- `a + b` on u64 values
abbrev pub add_checked : ℕ → ℕ → Locked ℕ
add_checked a b = if leb (a + b) u64_max then done (a + b) else overflows

abbrev pub processes : System → List Process
processes s = s.kernel.manager.processes

abbrev pub current : System → Option ℕ
current s = s.kernel.manager.current_pid

abbrev pub queue : System → List ℕ
queue s = s.scheduler.ready_queue

abbrev pub with_processes : System → List Process → System
with_processes s ps = record s {
  kernel = record (s.kernel) { manager = record (s.kernel.manager) { processes = ps } };
}

abbrev pub with_current : System → Option ℕ → System
with_current s p = record s {
  kernel = record (s.kernel) { manager = record (s.kernel.manager) { current_pid = p } };
}

abbrev with_ready_queue : System → List ℕ → System
with_ready_queue s q = record s { scheduler = record (s.scheduler) { ready_queue = q } }

-- The write of a state through `get_process_mut`.
abbrev pub change_state : System → ℕ → ProcessState → System
change_state s pid state =
    with_processes s (update_process (processes s) pid (λ p. record p { state = state }))

unfoldable pub contains : List ℕ → ℕ → Bool
contains [] pid = false
contains (p ∷ q) pid = (p == pid) || contains q pid

-- `retain(|&p| p != pid)`
unfoldable pub without : List ℕ → ℕ → List ℕ
without [] pid = []
without (p ∷ q) pid = if p == pid then without q pid else p ∷ without q pid

publish_load_to_smp : ℕ → System → System
unfolding update_cpu
publish_load_to_smp lapic_id s = record s {
  cpus = update_cpu s.cpus lapic_id (λ c. record c { run_queue_len = length (queue s) });
}

abbrev pub lifted : ℕ → Process → Process
lifted least p = if ltb p.vruntime least then record p { vruntime = least } else p

-- `vruntime` is at least `min_vruntime` afterwards.
lift : System → ℕ → System
lift s pid = with_processes s (update_process (processes s) pid (lifted s.scheduler.min_vruntime))

-- `pid as u32`
abbrev pub as_u32 : ℕ → ℕ
as_u32 pid = pid % 2 ^ 32

-- What `enqueue` does under the lock and after it.
pub push : ℕ → System → ℕ → System
unfolding lift publish_load_to_smp
push lapic_id s pid =
    let lifted_s = lift s pid in
    let published =
      publish_load_to_smp lapic_id (with_ready_queue lifted_s (queue s ++ pid ∷ [])) in
    record published { cpus = (Smp.enqueue_balanced published.cpus (as_u32 pid)).1 }

unfoldable pub enqueue : Bool → ℕ → System → ℕ → Locked System
unfolding contains push
enqueue held lapic_id s pid =
    if contains (queue s) pid then done s else locking held (push lapic_id s pid)

unfoldable pub dequeue : ℕ → System → ℕ → System
unfolding without publish_load_to_smp
dequeue lapic_id s pid =
    let published = publish_load_to_smp lapic_id (with_ready_queue s (without (queue s) pid)) in
    record published { cpus = map (λ c. with_queue c (without c.run_queue pid)) published.cpus }

-- `pm.get_process(pid).map(|p| p.vruntime).unwrap_or(u64::MAX)`
abbrev pub vruntime_or : Option Process → ℕ
vruntime_or none = u64_max
vruntime_or (some p) = p.vruntime

pub vruntime_of : List Process → ℕ → ℕ
vruntime_of ps pid = vruntime_or (get_process ps pid)

-- The loop of the two pickers from entry `i` on, with `best_idx` and `best_v`.
pub best_from : List Process → ℕ → List ℕ → ℕ → ℕ → ℕ × ℕ
best_from ps i [] best_idx best_v = (best_idx, best_v)
best_from ps i (pid ∷ q) best_idx best_v =
    let v = vruntime_of ps pid in
    let better = best_from ps (suc i) q i v in
    let same = best_from ps (suc i) q best_idx best_v in if ltb v best_v then better else same

-- `VecDeque::remove`
pub remove_at : List ℕ → ℕ → List ℕ
remove_at [] i = []
remove_at (p ∷ q) zero = q
remove_at (p ∷ q) (suc i) = p ∷ remove_at q i

abbrev pub raised : ℕ → ℕ → ℕ
raised least best_v = if not (best_v == u64_max) && ltb least best_v then best_v else least

pub take_best : System → ℕ × ℕ → Option ℕ × System
unfolding remove_at
take_best s (best_idx, best_v) = (
  get_elem? (queue s) best_idx,
  record s {
    scheduler = record (s.scheduler) {
      ready_queue = remove_at (queue s) best_idx;
      min_vruntime = raised s.scheduler.min_vruntime best_v;
    };
  },
)

-- The caller holds the lock of the process manager. The list is the queue.
pub dequeue_next_from : System → List ℕ → Option ℕ × System
unfolding best_from take_best
dequeue_next_from s [] = (none, s)
dequeue_next_from s (pid ∷ q) = take_best s (best_from (processes s) 0 (queue s) 0 u64_max)

dequeue_next_with_pm : System → Option ℕ × System
unfolding dequeue_next_from
dequeue_next_with_pm s = dequeue_next_from s (queue s)

-- The lock is taken if the queue holds anything.
pub next_from : Bool → System → List ℕ → Locked (Option ℕ × System)
unfolding dequeue_next_with_pm
next_from held s [] = done (none, s)
next_from held s (pid ∷ q) = locking held (dequeue_next_with_pm s)

pub next_process : Bool → System → Locked (Option ℕ × System)
unfolding next_from
next_process held s = next_from held s (queue s)

-- The calls on the queue of one CPU.
enqueue_for_cpu : System → ℕ → ℕ → System
unfolding lift update_cpu
enqueue_for_cpu s pid cpu =
    let t = lift s pid in
    record t { cpus = update_cpu t.cpus cpu (λ c. Smp.enqueue c (as_u32 pid)) }

unfoldable pub enqueue_balanced : System → ℕ → ℕ × System
unfolding lift
enqueue_balanced s pid =
    let t = lift s pid in
    let (cpu, cpus) = Smp.enqueue_balanced t.cpus (as_u32 pid) in (cpu, record t { cpus = cpus })

dequeue_next_for_cpu : System → ℕ → Option ℕ × System
dequeue_next_for_cpu s cpu =
    let own = Smp.dequeue_on s.cpus cpu in
    let stolen = Smp.steal_from_peer own.1 cpu in
    elim own.0 [
      | some pid ↦ (some pid, record s { cpus = own.1 })
      | none ↦ (stolen.0, record s { cpus = stolen.1 })
    ]
