-- ===== src/Futex.antt =====
-- src/futex.rs: the wait queues of futexes. `wait` parks the caller under the lock of the queues
-- and then polls; `park` is the first part and `poll` one round of the loop, so that calls of other
-- tasks can come between them. The value of the futex word, read under the lock, is an argument.
pub mod Queues
pub mod Wakeups
mod Tests
use rustos.Prelude.{
  ℕ, ◌-◌, Bool, true, false, not, ◌&&◌, ◌||◌, Option, none, some, List, [], ◌∷◌, ◌++◌, min, Result,
  ok, err, length, take, drop, leb, ltb, ◌==◌, if◌then◌else◌,
}
use rustos.Prelude.Maps
use rustos.Prelude.Maps.{Map, nat_eq}
use rustos.Process.{Kernel}
use rustos.Process.Signals.{changed, resumed}

pub data FutexError : Type 0 where
  bad_address would_block timed_out invalid_argument : FutexError

-- `WAITQUEUES` and, behind `PROCESS_MANAGER`, the processes.
pub record Futexes : Type 0 where
  pub queues : Map ℕ (List ℕ)
  pub kernel : Kernel

abbrev pub or_new : Option (List ℕ) → List ℕ
or_new none = []
or_new (some waiters) = waiters

-- The waiters of an address.
pub waiters : Futexes → ℕ → List ℕ
waiters s uaddr = or_new (Maps.find s.queues uaddr)

-- `pm.current_pid.unwrap_or(0xfffe)`
abbrev pub caller : Option ℕ → ℕ
caller none = 65534
caller (some pid) = pid

-- `wait` up to its loop, with the pid that it parks.
pub park : Futexes → ℕ → ℕ → ℕ → Result ℕ FutexError × Futexes
park s uaddr cur expected =
    if uaddr == 0
    then (err bad_address, s)
    else if not (cur == expected)
    then (err would_block, s)
    else (
      ok (caller s.kernel.manager.current_pid),
      record s {
        queues =
            Maps.insert s.queues uaddr
              (waiters s uaddr ++ caller s.kernel.manager.current_pid ∷ []);
      },
    )

-- `q.waiters.iter().any(|&p| p == pid)`
pub contains : List ℕ → ℕ → Bool
contains [] pid = false
contains (p ∷ ps) pid = (p == pid) || contains ps pid

pub still_parked : Futexes → ℕ → ℕ → Bool
still_parked s uaddr pid = contains (waiters s uaddr) pid

-- `retain(|&p| p != pid)`
pub without : List ℕ → ℕ → List ℕ
without [] pid = []
without (p ∷ ps) pid = if p == pid then without ps pid else p ∷ without ps pid

give_up : Futexes → ℕ → ℕ → Futexes
give_up s uaddr pid = elim (Maps.find s.queues uaddr) [
  | none ↦ s
  | some ps ↦ record s { queues = Maps.insert s.queues uaddr (without ps pid) }
]

-- One round of the loop of `wait`: the result of the call, if it ends here.
poll : Futexes → ℕ → ℕ → ℕ → ℕ → ℕ → Option (Result (Unit {0}) FutexError) × Futexes
poll s uaddr pid timeout_ticks start now =
    if not (still_parked s uaddr pid)
    then (some (ok tt), s)
    else if ltb 0 timeout_ticks && leb timeout_ticks (now - start)
    then (some (err timed_out), give_up s uaddr pid)
    else (none, s)

-- The loop of `wake` over the pids that it took.
pub resume_all : Kernel → List ℕ → Kernel
resume_all k [] = k
resume_all k (pid ∷ pids) = resume_all (changed k pid resumed) pids

abbrev pub is_nil : List ℕ → Bool
is_nil [] = true
is_nil (p ∷ ps) = false

-- `wake` from the queue that it found on.
pub wake_found : Futexes → ℕ → ℕ → Option (List ℕ) → ℕ × Futexes
wake_found s uaddr nr none = (0, s)
wake_found s uaddr nr (some ps) =
    let n = min nr (length ps) in
    (
      length (take n ps),
      record {
        queues =
            if is_nil (drop n ps)
            then Maps.remove s.queues uaddr
            else Maps.insert s.queues uaddr (drop n ps);
        kernel = resume_all s.kernel (take n ps);
      },
    )

pub wake : Futexes → ℕ → ℕ → ℕ × Futexes
unfolding wake_found
wake s uaddr nr = if uaddr == 0 then (0, s) else wake_found s uaddr nr (Maps.find s.queues uaddr)
