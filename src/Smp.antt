-- ===== src/Smp.antt =====
-- src/smp.rs: the state of each CPU and the routing of processes to the CPUs. The 32 entries of
-- `CPUS` are a list; a store of an atomic field is a write.
pub mod Routing
pub mod Stealing
pub mod Lengths
mod Tests
use rustos.Prelude.{
  ℕ, zero, suc, ◌+◌, ◌-◌, ◌^◌, Bool, true, false, Option, none, some, List, [], ◌∷◌, ◌++◌, ◌&&◌,
  ltb, ◌==◌, if◌then◌else◌, length, get_elem?, set,
}

pub record CpuState : Type 0 where
  pub alive : Bool
  pub run_queue : List ℕ
  pub run_queue_len : ℕ

-- MAX_CPUS
abbrev pub max_cpus : ℕ
max_cpus = 32

-- `usize::MAX`
abbrev pub usize_max : ℕ
usize_max = 2 ^ 64 - 1

-- The write of a queue, and of its length.
abbrev pub with_queue : CpuState → List ℕ → CpuState
with_queue c q = record c { run_queue = q; run_queue_len = length q }

unfoldable pub enqueue : CpuState → ℕ → CpuState
enqueue c pid = with_queue c (c.run_queue ++ pid ∷ [])

pub dequeue_from : CpuState → List ℕ → Option ℕ × CpuState
dequeue_from c [] = (none, with_queue c [])
dequeue_from c (pid ∷ q) = (some pid, with_queue c q)

unfoldable pub dequeue : CpuState → Option ℕ × CpuState
unfolding dequeue_from
dequeue c = dequeue_from c c.run_queue

drain : CpuState → List ℕ × CpuState
drain c = (c.run_queue, with_queue c [])

pub load : CpuState → ℕ
load c = c.run_queue_len

-- `cpu_state`
pub cpu_state : List CpuState → ℕ → Option CpuState
cpu_state cpus id = if ltb id max_cpus then get_elem? cpus id else none

alive_cpu_count : List CpuState → ℕ
alive_cpu_count [] = 0
alive_cpu_count (c ∷ cs) = if c.alive then suc (alive_cpu_count cs) else alive_cpu_count cs

pub total_runnable : List CpuState → ℕ
total_runnable [] = 0
total_runnable (c ∷ cs) = if c.alive then load c + total_runnable cs else total_runnable cs

-- The loop of `least_loaded_cpu` from entry `i` on, with `best` and `best_load`.
pub least_from : ℕ → List CpuState → ℕ → ℕ → ℕ
least_from i [] best best_load = best
least_from i (c ∷ cs) best best_load =
    let better = least_from (suc i) cs i (load c) in
    let same = least_from (suc i) cs best best_load in
    if c.alive then (if ltb (load c) best_load then better else same) else same

pub least_loaded_cpu : List CpuState → ℕ
unfolding least_from
least_loaded_cpu cpus = least_from 0 cpus 0 usize_max

-- A change of the state that `cpu_state` finds.
pub update_found : List CpuState → ℕ → (CpuState → CpuState) → Option CpuState → List CpuState
update_found cpus id f none = cpus
update_found cpus id f (some c) = set cpus id (f c)

unfoldable pub update_cpu : List CpuState → ℕ → (CpuState → CpuState) → List CpuState
unfolding cpu_state update_found
update_cpu cpus id f = update_found cpus id f (cpu_state cpus id)

-- `init_bsp`, by what the local APIC answers.
init_bsp : Bool → ℕ → List CpuState → List CpuState
unfolding update_cpu
init_bsp is_available lapic_id cpus =
    if is_available then update_cpu cpus lapic_id (λ c. record c { alive = true }) else cpus

pub enqueue_balanced : List CpuState → ℕ → ℕ × List CpuState
unfolding update_cpu least_loaded_cpu enqueue
enqueue_balanced cpus pid =
    let cpu = least_loaded_cpu cpus in (cpu, update_cpu cpus cpu (λ c. enqueue c pid))

pub dequeue_found : List CpuState → ℕ → Option CpuState → Option ℕ × List CpuState
unfolding dequeue
dequeue_found cpus cpu none = (none, cpus)
dequeue_found cpus cpu (some c) = ((dequeue c).0, set cpus cpu (dequeue c).1)

pub dequeue_on : List CpuState → ℕ → Option ℕ × List CpuState
unfolding cpu_state dequeue_found
dequeue_on cpus cpu = dequeue_found cpus cpu (cpu_state cpus cpu)

-- The loop of `steal_from_peer` from entry `i` on, with `victim` and `victim_load`.
pub victim_from : ℕ → ℕ → List CpuState → Option ℕ → ℕ → Option ℕ
victim_from thief i [] victim victim_load = victim
victim_from thief i (c ∷ cs) victim victim_load =
    let better = victim_from thief (suc i) cs (some i) (load c) in
    let same = victim_from thief (suc i) cs victim victim_load in
    if i == thief
    then same
    else if c.alive
    then (if ltb victim_load (load c) then better else same)
    else same

pub steal_from : List CpuState → Option ℕ → Option ℕ × List CpuState
unfolding dequeue_on
steal_from cpus none = (none, cpus)
steal_from cpus (some victim) = dequeue_on cpus victim

pub steal_from_peer : List CpuState → ℕ → Option ℕ × List CpuState
unfolding victim_from steal_from
steal_from_peer cpus thief = steal_from cpus (victim_from thief 0 cpus none 1)
