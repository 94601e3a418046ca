-- ===== src/Scheduler/Invariant.antt =====
-- What the calls that find the lock of the process manager free keep true of the scheduler.
pub mod Sleeps
pub mod Dispatch
use rustos.Prelude.{
  ℕ, ◌+◌, ◌≤◌, ◌≡◌, refl, subst, true, false, not, Option, none, some, List, [], ◌∷◌, ◌++◌, ltb,
  ◌==◌, Bool-cases, Option-cases, inl, inr, arith, ℤ, ==-refl,
}
use rustos.Process.{Process, get_process, ProcessState, update_process}
use rustos.Process.Lookup.{KeepsPid, get-update}
use rustos.Scheduler.{
  System, Locked, done, overflows, processes, queue, u64_max, contains, vruntime_or, vruntime_of,
  lifted, push, enqueue, dequeue,
}
use rustos.Scheduler.Ticks.{charged, charge, renice, clamp_nice}
use rustos.Scheduler.Pick.{Bounded, NoRepeat}
use rustos.Scheduler.Queues.{contains-append, NoRepeat-append, contains-without, NoRepeat-without}

-- No process stands twice in the queue, and none of the queue is below `min_vruntime`.
pub record IsValid (s : System) : Type 0 where
  pub bounded : Bounded (processes s)
  pub no_repeat : NoRepeat (queue s)
  pub floor_bounded : s.scheduler.min_vruntime ≤ u64_max
  pub above :
      (pid : ℕ)
      → contains (queue s) pid ≡ true
      → s.scheduler.min_vruntime ≤ vruntime_of (processes s) pid

-- A change of a process that makes its virtual run time no smaller.
abbrev Raises : (Process → Process) → Type 0
Raises f =
    (p : Process)
    → p.vruntime ≤ u64_max
    → (p.vruntime ≤ (f p).vruntime) × ((f p).vruntime ≤ u64_max)

module _ (ps : List Process) (pid : ℕ) (f : Process → Process) where
  vruntime_of-update :
      KeepsPid f
      → Raises f
      → Bounded ps
      → (j : ℕ)
      → (vruntime_of ps j ≤ vruntime_of (update_process ps pid f) j)
        × (vruntime_of (update_process ps pid f) j ≤ u64_max)
  unfolding vruntime_of
  vruntime_of-update k r b j = elim (Option-cases (get_process ps j)) [
    | inl e ↦ elim (Bool-cases (pid == j)) [
      | inl c ↦ rw (get-update ps pid j f k, c, e) (omega arith, omega arith)
      | inr c ↦ rw (get-update ps pid j f k, c, e) (omega arith, omega arith)
    ]
    | inr (p, e) ↦
        let small : p.vruntime ≤ u64_max = bound_at p j e (b j) in
        elim (Bool-cases (pid == j)) [
          | inl c ↦ rw (get-update ps pid j f k, c, e) (r p small)
          | inr c ↦ rw (get-update ps pid j f k, c, e) (omega arith, small)
        ]
  ]
    where
      bound_at :
          (p : Process) (j : ℕ)
          → get_process ps j ≡ some p
          → vruntime_of ps j ≤ u64_max
          → p.vruntime ≤ u64_max
      bound_at p j e h = subst (λ o. vruntime_or o ≤ u64_max) e h

-- A change of one process, with the queue and `min_vruntime` as they are.
change-IsValid :
    (s t : System) (pid : ℕ) (f : Process → Process)
    → IsValid s
    → KeepsPid f
    → Raises f
    → processes t ≡ update_process (processes s) pid f
    → t.scheduler ≡ s.scheduler
    → IsValid t
change-IsValid s t pid f v k r e es =
    let after = vruntime_of-update (processes s) pid f k r v.bounded in
    record {
      bounded = λ j. rw e (after j).1;
      no_repeat = rw es v.no_repeat;
      floor_bounded = rw es v.floor_bounded;
      above = λ j m.
          rw (es, e)
            (omega
              (arith, v.above j (subst (λ c. contains c.ready_queue j ≡ true) es m), (after j).0));
    }

-- The call ends with a valid state and no smaller `min_vruntime`, or `late` holds and an addition
-- overflows. It does not hang on the lock.
pub data Keeps (late : Type 0) (s : System) : Locked System → Type 0 where
  kept :
      {t : System}
      → IsValid t
      → s.scheduler.min_vruntime ≤ t.scheduler.min_vruntime
      → Keeps late s (done t)
  overflowed : late → Keeps late s overflows

Raises-lifted : (least : ℕ) → least ≤ u64_max → Raises (lifted least)
Raises-lifted least b p h = ground (arith, b, h)

Raises-charged : Raises charged
Raises-charged p h = (omega (arith, h), omega arith)

KeepsPid-lifted : (least : ℕ) → KeepsPid (lifted least)
KeepsPid-lifted least p = elim (Bool-cases (ltb p.vruntime least)) [
  | inl e ↦ rw e refl
  | inr e ↦ rw e refl
]

lifted-floor :
    (ps : List Process) (pid least : ℕ)
    → least ≤ u64_max
    → least ≤ vruntime_of (update_process ps pid (lifted least)) pid
unfolding vruntime_of
lifted-floor ps pid least h = elim (Option-cases (get_process ps pid)) [
  | inl e ↦ rw (get-update ps pid pid (lifted least) (KeepsPid-lifted least), ==-refl pid, e) h
  | inr (p, e) ↦
      rw (get-update ps pid pid (lifted least) (KeepsPid-lifted least), ==-refl pid, e) (at_least p)
]
  where
    at_least : (p : Process) → least ≤ (lifted least p).vruntime
    at_least p = ground arith

push-Keeps :
    (here : ℕ) (s : System) (pid : ℕ)
    → IsValid s
    → contains (queue s) pid ≡ false
    → Keeps ⊥ s (done (push here s pid))
unfolding push
push-Keeps here s pid v new =
    let least = s.scheduler.min_vruntime in
    let after =
      vruntime_of-update (processes s) pid (lifted least) (KeepsPid-lifted least)
        (Raises-lifted least v.floor_bounded) v.bounded in
    let above_pushed : (j : ℕ)
        → contains (queue s ++ pid ∷ []) j ≡ true
        → least ≤ vruntime_of (update_process (processes s) pid (lifted least)) j =
      λ j m. elim (Bool-cases (contains (queue s) j)) [
        | inl e ↦ omega (arith, v.above j e, (after j).0)
        | inr e ↦
            let last : pid ≡ j = last_of j e m in
            subst (λ x. least ≤ vruntime_of (update_process (processes s) pid (lifted least)) x)
              last (lifted-floor (processes s) pid least v.floor_bounded)
      ] in
    kept
      record {
        bounded = λ j. (after j).1;
        no_repeat = NoRepeat-append (queue s) pid v.no_repeat new;
        floor_bounded = v.floor_bounded;
        above = above_pushed;
      }
      (omega arith)
  where
    last_of :
        (j : ℕ) → contains (queue s) j ≡ false → contains (queue s ++ pid ∷ []) j ≡ true → pid ≡ j
    last_of j e = rw (contains-append (queue s) pid j, e) (λ m. ground (arith, m))

pub enqueue-Keeps :
    (here : ℕ) (s : System) (pid : ℕ) → IsValid s → Keeps ⊥ s (enqueue false here s pid)
unfolding enqueue
enqueue-Keeps here s pid v = elim (Bool-cases (contains (queue s) pid)) [
  | inl e ↦ rw e (kept v (omega arith))
  | inr e ↦ rw e (push-Keeps here s pid v e)
]

pub dequeue-Keeps :
    (here : ℕ) (s : System) (pid : ℕ) → IsValid s → Keeps ⊥ s (done (dequeue here s pid))
unfolding dequeue
dequeue-Keeps here s pid v =
    kept
      record {
        bounded = v.bounded;
        no_repeat = NoRepeat-without (queue s) pid v.no_repeat;
        floor_bounded = v.floor_bounded;
        above = λ j m. v.above j (contains-without (queue s) pid j m);
      }
      (omega arith)

pub charge-Keeps : (s : System) (o : Option ℕ) → IsValid s → Keeps ⊥ s (done (charge s o))
unfolding charge
charge-Keeps s none v = kept v (omega arith)
charge-Keeps s (some pid) v =
    kept (change-IsValid s _ pid charged v (λ p. refl) Raises-charged refl refl) (omega arith)

pub renice-Keeps :
    (s : System) (pid : ℕ) (nice : ℤ) (o : Option Process)
    → IsValid s
    → Keeps ⊥ s (done (renice s pid nice o).1)
unfolding renice
renice-Keeps s pid nice none v = kept v (omega arith)
renice-Keeps s pid nice (some p) v =
    kept
      (change-IsValid s _ pid (λ q. record q { nice = clamp_nice nice }) v (λ q. refl)
        (λ q h. (omega arith, h)) refl refl)
      (omega arith)

-- A change of the state of a process, of the current process and of the slice.
pub state-IsValid :
    (s t : System) (pid : ℕ) (state : ProcessState)
    → IsValid s
    → processes t ≡ update_process (processes s) pid (λ p. record p { state = state })
    → queue t ≡ queue s
    → t.scheduler.min_vruntime ≡ s.scheduler.min_vruntime
    → IsValid t
state-IsValid s t pid state v e eq el =
    let after =
      vruntime_of-update (processes s) pid (λ p. record p { state = state }) (λ p. refl)
        (λ p h. (omega arith, h)) v.bounded in
    record {
      bounded = λ j. rw e (after j).1;
      no_repeat = rw eq v.no_repeat;
      floor_bounded = rw el v.floor_bounded;
      above = λ j m.
          rw (el, e)
            (omega (arith, v.above j (subst (λ q. contains q j ≡ true) eq m), (after j).0));
    }
