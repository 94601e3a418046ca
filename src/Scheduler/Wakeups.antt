-- ===== src/Scheduler/Wakeups.antt =====
-- What `wake_sleepers` does to the sleepers, and when it hangs.
mod Entries
pub mod Single
mod Steps
use rustos.Prelude.{
  ℕ, zero, suc, ◌+◌, ◌≤◌, ◌≡◌, refl, sym, ap, subst, true, false, Option, none, some, List, leb,
  ◌==◌, length, get_elem?, get_elem?-lt, ==-refl, [], ◌∷◌, arith,
}
use mathlib.Core.Option
use rustos.Process.{ready}
use rustos.Scheduler.{System, SleepEntry, Locked, done, hangs, ◌>>=◌, queue}
use rustos.Scheduler.Sleeping.{wake, wake_round, wake_from, wake_sleepers, swap_remove}
use rustos.Scheduler.Wakeups.Entries.{
  total-swap_remove, Passed, Passed-suc, Passed-swap_remove, some_inside, length-swap_remove,
}
use rustos.Scheduler.Wakeups.Single.{
  sleepers, process, is_due_for, dues, Wakes, stuck, woken, WakesOne, hung, left, if-elim,
  wake_found-WakesOne,
}
use rustos.Scheduler.Wakeups.Steps.{without_entry, Wakes_before}

-- One entry that is due, and the rest of the loop.
bind-Wakes :
    (now : ℕ) (s : System) (i : ℕ) (x : SleepEntry) (r : Locked System) (f : System → Locked System)
    → get_elem? (sleepers s) i ≡ some x
    → leb x.wake_tick now ≡ true
    → WakesOne (without_entry s i x) x.pid r
    → ((t : System) → sleepers t ≡ swap_remove (sleepers s) i x → Wakes now t (f t))
    → Wakes now s (r >>= f)
bind-Wakes now s i x _ f here due (hung st) k =
    let counted : dues now x.pid (sleepers s)
        ≡ is_due_for now x.pid x + dues now x.pid (swap_remove (sleepers s) i x) =
      total-swap_remove (is_due_for now x.pid) (sleepers s) i x here in
    let one : is_due_for now x.pid x ≡ 1 = rw (due, ==-refl x.pid) refl in
    stuck x.pid (omega (arith, counted, one)) st
bind-Wakes now s i x _ f here due (left {t} one) k =
    Wakes_before now s t i x here due one (f t) (k t one.same_sleepers)

none_left :
    (now : ℕ) (xs : List SleepEntry) (j : ℕ)
    → ((k : ℕ) (x : SleepEntry) → get_elem? xs k ≡ some x → leb x.wake_tick now ≡ false)
    → dues now j xs ≡ 0
none_left now [] j h = refl
none_left now (x ∷ xs) j h =
    rw (h 0 x refl, none_left now xs j (λ k y e. h (suc k) y e)) (omega arith)

finished :
    (now : ℕ) (s : System)
    → ((k : ℕ) (x : SleepEntry) → get_elem? (sleepers s) k ≡ some x → leb x.wake_tick now ≡ false)
    → Wakes now s (done s)
finished now s h = woken record {
  none_due = h;
  kept = λ j tick later. refl;
  none_stuck = λ j some_due. absurd (omega (arith, some_due, none_left now (sleepers s) j h));
  states = λ j. rw (none_left now (sleepers s) j h) refl;
  same_queue = refl;
}

wake_round-Wakes :
    (now here : ℕ) (s : System) (i : ℕ) (o : Option SleepEntry) (again : System → Locked System)
    (next : Locked System)
    → get_elem? (sleepers s) i ≡ o
    → Passed now (sleepers s) i
    → ((x : SleepEntry) (t : System)
        → get_elem? (sleepers s) i ≡ some x
        → Passed now (swap_remove (sleepers s) i x) i
        → sleepers t ≡ swap_remove (sleepers s) i x
        → Wakes now t (again t))
    → ((x : SleepEntry)
        → get_elem? (sleepers s) i ≡ some x
        → Passed now (sleepers s) (suc i)
        → Wakes now s next)
    → Wakes now s (wake_round now here s i o again next)
unfolding wake_round wake
wake_round-Wakes now here s i none again next e passed more onward = finished now s λ k x at.
    passed k x (omega (arith, some_inside (sleepers s) i e, get_elem?-lt (sleepers s) k x at)) at
wake_round-Wakes now here s i (some x) again next e passed more onward =
    let xs = sleepers s in
    let taken = without_entry s i x in
    if-elim (Wakes now s) (leb x.wake_tick now)
      (λ due.
        bind-Wakes now s i x _ again e due
          (wake_found-WakesOne here taken x.pid (process taken x.pid) refl)
          (λ t same. more x t e (Passed-swap_remove now xs i x passed e) same))
      (λ late. onward x e (Passed-suc now xs i x passed e late))

wake_from-Wakes :
    (rounds now here : ℕ) (s : System) (i : ℕ)
    → length (sleepers s) ≤ i + rounds
    → Passed now (sleepers s) i
    → Wakes now s (wake_from rounds now here s i)
unfolding wake_from
wake_from-Wakes zero now here s i h passed =
    finished now s λ k x e. passed k x (omega (arith, h, get_elem?-lt (sleepers s) k x e)) e
wake_from-Wakes (suc rounds) now here s i h passed =
    let xs = sleepers s in
    wake_round-Wakes now here s i (get_elem? xs i) (λ t. wake_from rounds now here t i)
      (wake_from rounds now here s (suc i)) refl passed
      (λ x t e kept same.
        wake_from-Wakes rounds now here t i
          (omega (arith, h, ap length same, length-swap_remove xs i x, get_elem?-lt xs i x e))
          (subst (λ l. Passed now l i) (sym same) kept))
      (λ x e kept. wake_from-Wakes rounds now here s (suc i) (omega (arith, h)) kept)

-- `wake_sleepers` hangs on the lock just when an entry that is due names a process that is blocked
-- and not in the ready queue. Otherwise it ends: no entry is left whose tick has come, those of later
-- ticks are all there, each as often as before, every process that a due entry names and that was
-- blocked is ready, no other process has changed, and the ready queue is as before. It never runs
-- out of the rounds that it is given.
pub wake_sleepers-Wakes : (now here : ℕ) (s : System) → Wakes now s (wake_sleepers now here s)
unfolding wake_sleepers
wake_sleepers-Wakes now here s =
    wake_from-Wakes (length (sleepers s)) now here s 0 (omega arith)
      (λ k x lt. absurd (omega (arith, lt)))
