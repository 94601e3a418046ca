-- ===== src/Scheduler/Reach.antt =====
-- Sequences of the calls that find the lock of the process manager free.
use rustos.Prelude.{ℕ, ◌+◌, ◌<◌, ◌⊎◌, inl, inr, false, List, [], ◌∷◌, arith, ℤ}
use rustos.Process.{get_process}
use rustos.Scheduler.{System, Locked, done, ◌>>=◌, processes, current, u64_max, enqueue, dequeue}
use rustos.Scheduler.Ticks.{charge_running_vruntime, schedule_user, set_nice}
use rustos.Scheduler.Sleeping.{sleep_ticks}
use rustos.Scheduler.Invariant.{
  IsValid, Keeps, kept, overflowed, enqueue-Keeps, dequeue-Keeps, charge-Keeps, renice-Keeps,
}
use rustos.Scheduler.Invariant.Dispatch.{schedule_user-Keeps}
use rustos.Scheduler.Invariant.Sleeps.{state_of, sleep_current-Keeps, Keeps-from}

-- The calls on the scheduler that take the lock of the process manager when it is free.
pub data Call : Type 0 where
  enqueues dequeues : ℕ → Call
  charges dispatches : Call
  renices : ℕ → ℤ → Call
  sleeps : ℕ → ℕ → Call

unfoldable pub step : ℕ → Call → System → Locked System
step here (enqueues pid) s = enqueue false here s pid
step here (dequeues pid) s = done (dequeue here s pid)
step here charges s = done (charge_running_vruntime s)
step here dispatches s = schedule_user s
step here (renices pid nice) s = done (set_nice s pid nice).1
step here (sleeps now ticks) s = state_of (sleep_ticks now s ticks)

unfoldable pub run : ℕ → List Call → System → Locked System
unfolding step
run here [] s = done s
run here (c ∷ cs) s = step here c s >>= run here cs

-- The wake-up tick of a sleep is beyond 64 bits.
abbrev TooLate : Call → Type 0
TooLate (enqueues pid) = ⊥
TooLate (dequeues pid) = ⊥
TooLate charges = ⊥
TooLate dispatches = ⊥
TooLate (renices pid nice) = ⊥
TooLate (sleeps now ticks) = u64_max < now + ticks

-- One of the calls is a sleep with such a tick.
abbrev pub SomeTooLate : List Call → Type 0
SomeTooLate [] = ⊥
SomeTooLate (c ∷ cs) = TooLate c ⊎ SomeTooLate cs

step-Keeps : (here : ℕ) (c : Call) (s : System) → IsValid s → Keeps (TooLate c) s (step here c s)
unfolding step charge_running_vruntime set_nice sleep_ticks
step-Keeps here (enqueues pid) s v = enqueue-Keeps here s pid v
step-Keeps here (dequeues pid) s v = dequeue-Keeps here s pid v
step-Keeps here charges s v = charge-Keeps s (current s) v
step-Keeps here dispatches s v = schedule_user-Keeps s v
step-Keeps here (renices pid nice) s v = renice-Keeps s pid nice (get_process (processes s) pid) v
step-Keeps here (sleeps now ticks) s v = sleep_current-Keeps now s ticks (current s) v

Keeps-later :
    {late later : Type 0} {s : System} {r : Locked System}
    → (late → later)
    → Keeps late s r
    → Keeps later s r
Keeps-later f (kept v h) = kept v h
Keeps-later f (overflowed l) = overflowed (f l)

Keeps-bind :
    {late later : Type 0} {s : System} {r : Locked System} {f : System → Locked System}
    → Keeps late s r
    → ((t : System) → IsValid t → Keeps later t (f t))
    → Keeps (late ⊎ later) s (r >>= f)
Keeps-bind (kept {t} v h) k = Keeps-later (λ l. inr l) (Keeps-from h (k t v))
Keeps-bind (overflowed l) k = overflowed (inl l)

-- Sequences of calls that enqueue, dequeue, charge, dispatch, renice and put to sleep, on a valid
-- state (virtual run times within 64 bits, no process twice in the queue, no queued process below
-- `min_vruntime`): they never hang on the lock, and end in a valid state with a `min_vruntime` that
-- is not smaller, or overflow. They overflow only if one of the calls puts to sleep until a tick
-- beyond 64 bits.
pub run-Keeps :
    (here : ℕ) (cs : List Call) (s : System) → IsValid s → Keeps (SomeTooLate cs) s (run here cs s)
unfolding run
run-Keeps here [] s v = kept v (omega arith)
run-Keeps here (c ∷ cs) s v = Keeps-bind (step-Keeps here c s v) (run-Keeps here cs)
