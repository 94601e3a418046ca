-- ===== src/Scheduler/Wakeups/Single.antt =====
-- What a wake-up of the sleepers promises, and the wake-up of one process.
use rustos.Prelude.{
  ℕ, ◌<◌, ◌≡◌, refl, sym, subst, ◌∙◌, Bool, true, false, ◌&&◌, Option, none, some, List, ltb, leb,
  ◌==◌, if◌then◌else◌, get_elem?, ==_iff, arith,
}
use mathlib.Core.Option
use rustos.Process.{Process, ready, get_process}
use rustos.Process.Signals.{is_blocked, resumed}
use rustos.Process.Lookup.{get-update}
use rustos.Scheduler.{System, SleepEntry, Locked, done, hangs, processes, queue, contains, enqueue}
use rustos.Scheduler.Sleeping.{wake_found}
use rustos.Scheduler.Wakeups.Entries.{total}

abbrev pub sleepers : System → List SleepEntry
sleepers s = s.scheduler.sleep_queue

abbrev pub process : System → ℕ → Option Process
process s j = get_process (processes s) j

-- How many entries are due that name a process.
abbrev pub is_due_for : ℕ → ℕ → SleepEntry → ℕ
is_due_for now j x = if leb x.wake_tick now && x.pid == j then 1 else 0

abbrev pub dues : ℕ → ℕ → List SleepEntry → ℕ
dues now j xs = total (is_due_for now j) xs

-- How many entries there are of a process and a tick.
abbrev pub is_entry : ℕ → ℕ → SleepEntry → ℕ
is_entry j tick x = if x.pid == j && x.wake_tick == tick then 1 else 0

abbrev pub entries : ℕ → ℕ → List SleepEntry → ℕ
entries j tick xs = total (is_entry j tick) xs

-- A process is blocked and not in the ready queue, so that its wake-up enqueues it.
abbrev pub Stuck : System → ℕ → Type 0
Stuck s j =
    (p : Process) × (process s j ≡ some p)
    × (is_blocked p.state ≡ true)
    × (contains (queue s) j ≡ false)

-- A process after a wake-up, if there is one.
abbrev pub resumed_if : Bool → Option Process → Option Process
resumed_if b o = if b then Option.map resumed o else o

-- All sleepers that are due have been woken.
pub record Woken (now : ℕ) (s t : System) : Type 0 where
  pub none_due :
      (k : ℕ) (x : SleepEntry) → get_elem? (sleepers t) k ≡ some x → leb x.wake_tick now ≡ false
  pub kept : (j tick : ℕ) → now < tick → entries j tick (sleepers t) ≡ entries j tick (sleepers s)
  pub none_stuck : (j : ℕ) → 0 < dues now j (sleepers s) → ¬ Stuck s j
  pub states : (j : ℕ) → process t j ≡ resumed_if (ltb 0 (dues now j (sleepers s))) (process s j)
  pub same_queue : queue t ≡ queue s

pub data Wakes (now : ℕ) (s : System) : Locked System → Type 0 where
  stuck : (j : ℕ) → 0 < dues now j (sleepers s) → Stuck s j → Wakes now s hangs
  woken : {t : System} → Woken now s t → Wakes now s (done t)

-- The wake-up of one process.
pub record WokenOne (s : System) (pid : ℕ) (t : System) : Type 0 where
  pub same_sleepers : sleepers t ≡ sleepers s
  pub same_queue : queue t ≡ queue s
  pub states : (j : ℕ) → process t j ≡ resumed_if (pid == j) (process s j)
  pub not_stuck : ¬ Stuck s pid

pub data WakesOne (s : System) (pid : ℕ) : Locked System → Type 0 where
  hung : Stuck s pid → WakesOne s pid hangs
  left : {t : System} → WokenOne s pid t → WakesOne s pid (done t)

not_resumed :
    (s : System) (pid : ℕ) (o : Option Process) (b : Bool) (j : ℕ)
    → process s pid ≡ o
    → Option.map resumed o ≡ o
    → b ≡ (pid == j)
    → process s j ≡ resumed_if b (process s j)
not_resumed s pid o true j e same b =
    let here : pid ≡ j = (==_iff pid j).0 (sym b) in
    let found : process s j ≡ o = subst (λ (n : ℕ). process s n ≡ o) here e in rw found (sym same)
not_resumed s pid o false j e same b = refl

made_ready :
    (s : System) (pid : ℕ) (p : Process) (b : Bool) (j : ℕ)
    → process s pid ≡ some p
    → is_blocked p.state ≡ true
    → b ≡ (pid == j)
    → (if b
        then Option.map (λ (q : Process). record q { state = ready }) (process s j)
        else process s j)
      ≡ resumed_if b (process s j)
made_ready s pid p true j e blocked b =
    let here : pid ≡ j = (==_iff pid j).0 (sym b) in
    let found : process s j ≡ some p = subst (λ (n : ℕ). process s n ≡ some p) here e in
    rw (found, blocked) refl
made_ready s pid p false j e blocked b = refl

pub if-elim :
    (P : Locked System → Type 0) (b : Bool) {x y : Locked System}
    → (b ≡ true → P x)
    → (b ≡ false → P y)
    → P (if b then x else y)
if-elim P true h k = h refl
if-elim P false h k = k refl

pub wake_found-WakesOne :
    (here : ℕ) (s : System) (pid : ℕ) (o : Option Process)
    → process s pid ≡ o
    → WakesOne s pid (wake_found here s pid o)
unfolding wake_found enqueue
wake_found-WakesOne here s pid none e = left record {
  same_sleepers = refl;
  same_queue = refl;
  states = λ j. not_resumed s pid none (pid == j) j e refl refl;
  not_stuck = λ (p, at, b, q). ground (arith, e, at);
}
wake_found-WakesOne here s pid (some p) e =
    if-elim (WakesOne s pid) (is_blocked p.state)
      (λ b.
        if-elim (WakesOne s pid) (contains (queue s) pid)
          (λ m. left record {
            same_sleepers = refl;
            same_queue = refl;
            states = λ j.
                get-update (processes s) pid j (λ q. record q { state = ready }) (λ q. refl)
                ∙ made_ready s pid p (pid == j) j e b refl;
            not_stuck = λ (q, at, c, out). cc;
          })
          (λ out. hung (p, e, b, out)))
      (λ b. left record {
        same_sleepers = refl;
        same_queue = refl;
        states = λ j. not_resumed s pid (some p) (pid == j) j e (rw b refl) refl;
        not_stuck = λ (q, at, c, out). differ q at c b;
      })
  where
    differ :
        (q : Process)
        → process s pid ≡ some q
        → is_blocked q.state ≡ true
        → is_blocked p.state ≡ false
        → ⊥
    differ q at c b =
        let same : p ≡ q = cc in
        let blocked : is_blocked p.state ≡ true =
          subst (λ (r : Process). is_blocked r.state ≡ true) (sym same) c in
        cc
