-- ===== src/Scheduler/Deadlock.antt =====
-- The calls that hold the lock of the process manager and take it again.
use rustos.Prelude.{
  ℕ, ◌+◌, ◌≡◌, refl, sym, subst, true, false, none, some, List, [], ◌∷◌, leb, if◌then◌else◌,
  Bool-cases, inl, inr, ◌⊎◌,
}
use rustos.Process.{Process, get_process, ready, running, blocked}
use rustos.Scheduler.{
  System, Locked, done, hangs, ◌>>=◌, processes, queue, current, contains, enqueue, next_from,
  next_process, change_state, with_current, u64_max,
}
use rustos.Scheduler.Ticks.{
  leave_from, leave_found, leave_cpu, requeue, preempt, schedule, yield_cpu, unblock, is_running,
  charge_running_vruntime, deliver_signals, tick, with_counter,
}
use rustos.Scheduler.Sleeping.{wake_sleepers, wake_found}

-- With a process in the queue, `schedule` takes the lock and then calls `next_process`.
schedule-hangs :
    (here : ℕ) (s : System) (pid : ℕ) (q : List ℕ) → queue s ≡ pid ∷ q → schedule here s ≡ hangs
unfolding schedule
schedule-hangs here s pid q e = rw (next-hangs e) refl
  where
    next-hangs : queue s ≡ pid ∷ q → next_process true s ≡ hangs
    next-hangs e = subst (λ x. next_from true s x ≡ hangs) (sym e) refl

-- The lock is taken again by `enqueue`, unless the process is in the queue already.
enqueue-hangs :
    (here : ℕ) (s : System) (pid : ℕ)
    → contains (queue s) pid ≡ false
    → enqueue true here s pid ≡ hangs
unfolding enqueue
enqueue-hangs here s pid h = rw h refl

-- A queue that holds a process is not empty, so that `schedule` hangs.
schedule-hangs_queued :
    (here : ℕ) (s : System) (pid : ℕ) → contains (queue s) pid ≡ true → schedule here s ≡ hangs
unfolding contains
schedule-hangs_queued here s pid h =
    elim (queue s) as (λ q. queue s ≡ q → schedule here s ≡ hangs) [
      | [] ↦ λ e. absurd (no_member (subst (λ q. contains q pid ≡ true) e h))
      | p ∷ q ↦ λ e. schedule-hangs here s p q e
    ]
      refl
  where
    no_member : contains [] pid ≡ true → ⊥
    no_member m = cc

leave_cpu-at :
    (s : System) (f : ℕ → Process → Locked System) (pid : ℕ) (p : Process)
    → current s ≡ some pid
    → get_process (processes s) pid ≡ some p
    → leave_cpu s f ≡ (f pid p >>= λ t. done (with_current t none))
unfolding leave_cpu
leave_cpu-at s f pid p e g =
    let after : Locked System = f pid p >>= λ t. done (with_current t none) in
    subst (λ o. leave_from s o f ≡ after) (sym e)
      (subst (λ o. leave_found s pid o f ≡ after) (sym g) refl)

-- `yield_cpu` with a current process hangs: `enqueue` takes the lock that `yield_cpu` holds, or, if
-- the process is in the queue already, `next_process` takes the lock that `schedule` holds.
yield_cpu-hangs :
    (here : ℕ) (s : System) (pid : ℕ) (p : Process)
    → current s ≡ some pid
    → get_process (processes s) pid ≡ some p
    → yield_cpu here s ≡ hangs
unfolding yield_cpu
yield_cpu-hangs here s pid p e g =
    rw (leave_cpu-at s (λ x q. requeue here s x) pid p e g)
      (after (Bool-cases (contains (queue s) pid)))
  where
    after :
        (contains (queue s) pid ≡ true) ⊎ (contains (queue s) pid ≡ false)
        → ((requeue here s pid >>= λ t. done (with_current t none)) >>= schedule here) ≡ hangs
    after (inl m) =
        rw m (schedule-hangs_queued here (with_current (change_state s pid ready) none) pid m)
    after (inr m) = rw (enqueue-hangs here (change_state s pid ready) pid m) refl

preempt-hangs :
    (here : ℕ) (s : System) (pid : ℕ) (p : Process)
    → current s ≡ some pid
    → get_process (processes s) pid ≡ some p
    → p.state ≡ running
    → contains (queue s) pid ≡ false
    → preempt here s ≡ hangs
unfolding preempt
preempt-hangs here s pid p e g r m =
    rw
      (
        leave_cpu-at s (λ x q. if is_running q.state then requeue here s x else done s) pid p e g,
        r,
        enqueue-hangs here (change_state s pid ready) pid m,
      )
      refl

-- The timer tick at the end of a slice hangs: if `s'` is the state in which it has charged the
-- process, woken the sleepers and delivered the signals, the current process of `s'` runs and is not
-- in the queue, and its slice is over, then `preempt` holds the lock that `enqueue` takes.
pub tick-hangs :
    (now here : ℕ) (s woken s' : System) (pid : ℕ) (p : Process)
    → wake_sleepers now here (charge_running_vruntime s) ≡ done woken
    → deliver_signals here woken ≡ s'
    → current s' ≡ some pid
    → get_process (processes s') pid ≡ some p
    → p.state ≡ running
    → contains (queue s') pid ≡ false
    → leb (s'.scheduler.quantum_counter + 1) u64_max ≡ true
    → leb s'.scheduler.quantum (s'.scheduler.quantum_counter + 1) ≡ true
    → tick now here s ≡ hangs
unfolding tick
tick-hangs now here s woken s' pid p w d e g r m small over =
    rw (w, d, small, over, preempt-hangs here (with_counter s' 0) pid p e g r m) refl

-- `unblock` of a blocked process that is not in the queue hangs in the same way.
unblock-hangs :
    (here : ℕ) (s : System) (pid : ℕ) (p : Process)
    → get_process (processes s) pid ≡ some p
    → p.state ≡ blocked
    → contains (queue s) pid ≡ false
    → unblock here s pid ≡ hangs
unfolding unblock
unblock-hangs here s pid p g b m =
    subst (λ o. wake_found here s pid o ≡ hangs) (sym g)
      (rw (b, enqueue-hangs here (change_state s pid ready) pid m) refl)
