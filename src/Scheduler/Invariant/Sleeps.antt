-- ===== src/Scheduler/Invariant/Sleeps.antt =====
-- Putting a process to sleep keeps what the scheduler relies on.
use rustos.Prelude.{ℕ, ◌+◌, ◌≤◌, ◌<◌, refl, Option, none, some, leb, Bool-cases, inl, inr, arith}
use rustos.Process.{Process, get_process, blocked}
use rustos.Scheduler.{System, Locked, done, ◌>>=◌, processes, u64_max, change_state, with_current}
use rustos.Scheduler.Sleeping.{sleep_found, sleep_current, push_sleeper}
use rustos.Scheduler.Invariant.{IsValid, Keeps, kept, overflowed, state-IsValid}

push_sleeper-Keeps :
    (now : ℕ) (s : System) (pid ticks : ℕ)
    → IsValid s
    → Keeps (u64_max < now + ticks) s (push_sleeper now s pid ticks)
unfolding push_sleeper
push_sleeper-Keeps now s pid ticks v = elim (Bool-cases (leb (now + ticks) u64_max)) [
  | inl e ↦ rw e (
      kept
        record {
          bounded = v.bounded;
          no_repeat = v.no_repeat;
          floor_bounded = v.floor_bounded;
          above = v.above;
        }
        (omega arith))
  | inr e ↦ rw e (overflowed (ground (arith, e)))
]

-- The state that a call gives beside its answer.
abbrev pub state_of {ℓ} : {A : Type ℓ} → Locked (A × System) → Locked System
state_of r = r >>= λ (a, s). done s

Keeps-answer :
    {late : Type 0} {s : System} {r : Locked System} (a : Option ℕ)
    → Keeps late s r
    → Keeps late s (state_of {A = Option ℕ} (r >>= λ t. done (a, t)))
Keeps-answer a (kept v h) = kept v h
Keeps-answer a (overflowed l) = overflowed l

pub Keeps-from :
    {late : Type 0} {s t : System} {r : Locked System}
    → s.scheduler.min_vruntime ≤ t.scheduler.min_vruntime
    → Keeps late t r
    → Keeps late s r
Keeps-from e (kept v h) = kept v (omega (arith, e, h))
Keeps-from e (overflowed l) = overflowed l

sleep_found-Keeps :
    (now : ℕ) (s : System) (pid ticks : ℕ) (o : Option Process)
    → IsValid s
    → Keeps (u64_max < now + ticks) s (state_of (sleep_found now s pid ticks o))
unfolding sleep_found
sleep_found-Keeps now s pid ticks none v = kept v (omega arith)
sleep_found-Keeps now s pid ticks (some p) v =
    let t = with_current (change_state s pid blocked) none in
    Keeps-answer (some pid) (
      Keeps-from {s = s} {t = t} (omega arith)
        (push_sleeper-Keeps now t pid ticks (state-IsValid s t pid blocked v refl refl refl)))

pub sleep_current-Keeps :
    (now : ℕ) (s : System) (ticks : ℕ) (o : Option ℕ)
    → IsValid s
    → Keeps (u64_max < now + ticks) s (state_of (sleep_current now s ticks o))
unfolding sleep_current
sleep_current-Keeps now s ticks none v = kept v (omega arith)
sleep_current-Keeps now s ticks (some pid) v =
    sleep_found-Keeps now s pid ticks (get_process (processes s) pid) v
