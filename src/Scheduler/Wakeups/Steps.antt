-- ===== src/Scheduler/Wakeups/Steps.antt =====
-- The wake-up of one process and then of those of the entries that are left.
use rustos.Prelude.{
  ℕ, ◌+◌, ◌<◌, ◌≡◌, refl, sym, ap, subst, ◌∙◌, Bool, true, false, ◌&&◌, ◌||◌, Option, none, some,
  ltb, leb, ◌==◌, if◌then◌else◌, get_elem?, Bool-cases, inl, inr, ==_iff, arith,
}
use mathlib.Core.Option
use rustos.Process.{Process, ready}
use rustos.Process.Signals.{is_blocked, resumed}
use rustos.Scheduler.{System, SleepEntry, Locked, contains}
use rustos.Scheduler.Sleeping.{swap_remove}
use rustos.Scheduler.Wakeups.Entries.{total-swap_remove}
use rustos.Scheduler.Wakeups.Single.{
  sleepers, process, is_due_for, dues, is_entry, entries, Stuck, resumed_if, Woken, Wakes, stuck,
  woken, WokenOne,
}

-- The state in which an entry is taken out.
abbrev pub without_entry : System → ℕ → SleepEntry → System
without_entry s i x = record s {
  scheduler = record (s.scheduler) { sleep_queue = swap_remove s.scheduler.sleep_queue i x };
}

clash : false ≡ true → ⊥
clash e = cc

resumed-not_blocked : (p q : Process) → resumed p ≡ q → is_blocked q.state ≡ true → ⊥
resumed-not_blocked p q e b = elim (Bool-cases (is_blocked p.state)) [
  | inl c ↦ ready_now (rw c at e)
  | inr c ↦ differ (rw c at e) c
]
  where
    ready_now : record p { state = ready } ≡ q → ⊥
    ready_now e = clash (subst (λ (r : Process). is_blocked r.state ≡ true) (sym e) b)

    differ : p ≡ q → is_blocked p.state ≡ false → ⊥
    differ e c = clash (sym c ∙ subst (λ (r : Process). is_blocked r.state ≡ true) (sym e) b)

resumed_twice : (p : Process) → resumed (resumed p) ≡ resumed p
resumed_twice p = elim (Bool-cases (is_blocked p.state)) [
  | inl c ↦ rw c refl
  | inr c ↦ rw (c, c) refl
]

-- One process is woken, and then those of the entries that are left.
resumed_if-twice :
    (b c : Bool) (o : Option Process) → resumed_if c (resumed_if b o) ≡ resumed_if (b || c) o
resumed_if-twice true true none = refl
resumed_if-twice true true (some p) = ap some (resumed_twice p)
resumed_if-twice true false o = refl
resumed_if-twice false c o = refl

module _ (now : ℕ) (s t : System) (i : ℕ) (x : SleepEntry)
    (here : get_elem? (sleepers s) i ≡ some x) (due : leb x.wake_tick now ≡ true)
    (one : WokenOne (without_entry s i x) x.pid t) where
  dues_before :
      (j : ℕ) → dues now j (sleepers s) ≡ (if x.pid == j then 1 else 0) + dues now j (sleepers t)
  dues_before j =
      total-swap_remove (is_due_for now j) (sleepers s) i x here
      ∙ ap (λ (n : ℕ). n + dues now j (swap_remove (sleepers s) i x)) (rw due refl)
      ∙ ap (λ l. (if x.pid == j then 1 else 0) + dues now j l) (sym one.same_sleepers)

  due_before :
      (j : ℕ) → ltb 0 (dues now j (sleepers s)) ≡ (x.pid == j || ltb 0 (dues now j (sleepers t)))
  due_before j = elim (Bool-cases (x.pid == j)) [
    | inl e ↦ rw (dues_before j, e) (ground arith)
    | inr e ↦ rw (dues_before j, e) (ground arith)
  ]

  entries_before :
      (j tick : ℕ) → now < tick → entries j tick (sleepers t) ≡ entries j tick (sleepers s)
  entries_before j tick later =
      let early : (x.wake_tick == tick) ≡ false = ground (arith, due, later) in
      let weightless : is_entry j tick x ≡ 0 = no_entry (x.pid == j) early in
      ap (entries j tick) one.same_sleepers
      ∙ omega (arith, total-swap_remove (is_entry j tick) (sleepers s) i x here, weightless)
    where
      no_entry :
          (b : Bool)
          → (x.wake_tick == tick) ≡ false
          → ◌≡◌ {A = ℕ} (if b && x.wake_tick == tick then 1 else 0) 0
      no_entry true e = rw e refl
      no_entry false e = refl

  -- What is stuck after the wake-up was stuck before.
  Stuck-before : (j : ℕ) → Stuck t j → Stuck s j
  Stuck-before j (p, at, b, out) = elim (Bool-cases (x.pid == j)) [
    | inl e ↦ absurd (woken_at (process s j) (sym (rw e at (one.states j)) ∙ at))
    | inr e ↦ (
      p,
      sym (rw e at (one.states j)) ∙ at,
      b,
      subst (λ q. contains q j ≡ false) one.same_queue out,
    )
  ]
    where
      woken_at : (o : Option Process) → Option.map resumed o ≡ some p → ⊥
      woken_at none e = cc
      woken_at (some q) e = resumed-not_blocked q p (cc) b

  Stuck-after : (j : ℕ) → (x.pid == j) ≡ false → Stuck s j → Stuck t j
  Stuck-after j e (p, at, b, out) = (
    p,
    rw e at (one.states j) ∙ at,
    b,
    subst (λ q. contains q j ≡ false) (sym one.same_queue) out,
  )

  Woken-before : (u : System) → Woken now t u → Woken now s u
  Woken-before u w = record {
    none_due = w.none_due;
    kept = λ j tick later. w.kept j tick later ∙ entries_before j tick later;
    none_stuck = λ j some_due st. elim (Bool-cases (x.pid == j)) [
      | inl e ↦ one.not_stuck (subst (Stuck s) (sym ((==_iff x.pid j).0 e)) st)
      | inr e ↦
          w.none_stuck j (omega (arith, some_due, rw e at (dues_before j))) (Stuck-after j e st)
    ];
    states = λ j.
        w.states j
        ∙ ap (resumed_if (ltb 0 (dues now j (sleepers t)))) (one.states j)
        ∙ resumed_if-twice (x.pid == j) (ltb 0 (dues now j (sleepers t))) (process s j)
        ∙ ap (λ b. resumed_if b (process s j)) (sym (due_before j));
    same_queue = w.same_queue ∙ one.same_queue;
  }

  pub Wakes_before : (r : Locked System) → Wakes now t r → Wakes now s r
  Wakes_before _ (stuck j some_due st) =
      stuck j (omega (arith, some_due, dues_before j)) (Stuck-before j st)
  Wakes_before _ (woken {t = u} w) = woken (Woken-before u w)
