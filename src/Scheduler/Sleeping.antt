-- ===== src/Scheduler/Sleeping.antt =====
-- src/process/scheduler.rs: the queue of the sleepers.
use rustos.Prelude.{
  ℕ, zero, suc, ◌-◌, Bool, true, ◌||◌, Option, none, some, List, [], ◌∷◌, ◌++◌, leb, if◌then◌else◌,
  length, get_elem?, get_or, set, take,
}
use rustos.Process.{Process, ready, blocked, get_process, is_terminated, is_zombie}
use rustos.Process.Signals.{is_blocked}
use rustos.Scheduler.{
  System, SleepEntry, Locked, done, ◌>>=◌, add_checked, processes, current, with_current,
  change_state, enqueue,
}

-- `Vec::swap_remove`
abbrev pub swap_remove : List SleepEntry → ℕ → SleepEntry → List SleepEntry
swap_remove entries i entry =
    let n = length entries - 1 in set (take n entries) i (get_or entries n entry)

-- The wake-up of one process, under the lock, by what `get_process_mut` finds.
unfoldable pub wake_found : ℕ → System → ℕ → Option Process → Locked System
unfolding enqueue
wake_found lapic_id s pid none = done s
wake_found lapic_id s pid (some p) =
    if is_blocked p.state then enqueue true lapic_id (change_state s pid ready) pid else done s

unfoldable pub wake : ℕ → System → ℕ → Locked System
unfolding wake_found
wake lapic_id s pid = wake_found lapic_id s pid (get_process (processes s) pid)

-- One round of the loop of `wake_sleepers`, with the entry at `i` if there is one: the entry is
-- taken out, or the loop goes on to the next one.
unfoldable pub wake_round :
    ℕ
    → ℕ
    → System
    → ℕ
    → Option SleepEntry
    → (System → Locked System)
    → Locked System
    → Locked System
unfolding wake
wake_round now lapic_id s i none again next = done s
wake_round now lapic_id s i (some entry) again next =
    let taken = record s {
      scheduler = record (s.scheduler) {
        sleep_queue = swap_remove s.scheduler.sleep_queue i entry;
      };
    } in
    if leb entry.wake_tick now then (wake lapic_id taken entry.pid >>= again) else next

-- The loop, for a number of rounds.
unfoldable pub wake_from : ℕ → ℕ → ℕ → System → ℕ → Locked System
unfolding wake_round
wake_from zero now lapic_id s i = done s
wake_from (suc rounds) now lapic_id s i =
    wake_round now lapic_id s i (get_elem? s.scheduler.sleep_queue i)
      (λ s'. wake_from rounds now lapic_id s' i) (wake_from rounds now lapic_id s (suc i))

unfoldable pub wake_sleepers : ℕ → ℕ → System → Locked System
unfolding wake_from
wake_sleepers now lapic_id s = wake_from (length s.scheduler.sleep_queue) now lapic_id s 0

unfoldable pub push_sleeper : ℕ → System → ℕ → ℕ → Locked System
push_sleeper now s pid ticks = add_checked now ticks >>= λ tick. done (record s {
  scheduler = record (s.scheduler) {
    sleep_queue = s.scheduler.sleep_queue ++ record { pid = pid; wake_tick = tick } ∷ [];
  };
})

sleep_pid : ℕ → System → ℕ → ℕ → Locked System
unfolding push_sleeper
sleep_pid now s pid ticks = push_sleeper now s pid ticks

-- The sleep of the current process `pid`, by what `get_process_mut` finds.
unfoldable pub sleep_found : ℕ → System → ℕ → ℕ → Option Process → Locked (Option ℕ × System)
unfolding push_sleeper
sleep_found now s pid ticks none = done (none, s)
sleep_found now s pid ticks (some p) =
    push_sleeper now (with_current (change_state s pid blocked) none) pid ticks >>= λ s'.
    done (some pid, s')

unfoldable pub sleep_current : ℕ → System → ℕ → Option ℕ → Locked (Option ℕ × System)
unfolding sleep_found
sleep_current now s ticks none = done (none, s)
sleep_current now s ticks (some pid) = sleep_found now s pid ticks (get_process (processes s) pid)

unfoldable pub sleep_ticks : ℕ → System → ℕ → Locked (Option ℕ × System)
unfolding sleep_current
sleep_ticks now s ticks = sleep_current now s ticks (current s)

is_pid_done : System → ℕ → Bool
is_pid_done s pid = elim (get_process (processes s) pid) [
  | none ↦ true
  | some p ↦ is_terminated p.state || is_zombie p.state
]
