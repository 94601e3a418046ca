-- ===== src/Scheduler/Invariant/Dispatch.antt =====
-- Dispatching the next process keeps what the scheduler relies on.
use rustos.Prelude.{
  ℕ, ◌≤◌, ◌≡◌, refl, sym, ap, subst, Bool, true, false, not, ◌&&◌, Option, none, List, [], ◌∷◌,
  ◌==◌, Bool-cases, inl, inr, arith, ==_iff, ==_false_iff, max, ◌≢◌,
}
use rustos.Process.{running}
use rustos.Scheduler.{
  System, Locked, done, ◌>>=◌, processes, queue, u64_max, contains, vruntime_of, next_from,
  next_process,
}
use rustos.Scheduler.Ticks.{schedule_user, dispatch_next}
use rustos.Scheduler.Pick.{Picks, next_process-Picks}
use rustos.Scheduler.Invariant.{IsValid, Keeps, kept, state-IsValid}

second : (x : Bool) {y : Bool} → x && y ≡ true → y ≡ true
second true h = h
second false h = cc

-- The new floor is not below the old one, nor above a bound of both.
floor_bounds :
    (old v new c : ℕ)
    → (v ≢ u64_max → new ≡ max old v)
    → (v ≡ u64_max → new ≡ old)
    → old ≤ c
    → v ≤ c
    → (old ≤ new) × (new ≤ c)
floor_bounds old v new c below last h k = elim (Bool-cases (v == u64_max)) [
  | inl e ↦ omega (arith, last ((==_iff v u64_max).0 e))
  | inr e ↦ omega (arith, below ((==_false_iff v u64_max).0 e))
]

Picks-IsValid :
    (s : System) (r : Locked (Option ℕ × System)) (p : Picks s r)
    → IsValid s
    → IsValid p.after × (s.scheduler.min_vruntime ≤ p.after.scheduler.min_vruntime)
Picks-IsValid s r p v =
    let least = s.scheduler.min_vruntime in
    let time = vruntime_of (processes s) p.pid in
    let ps : processes p.after ≡ processes s = ap (λ k. k.manager.processes) p.kernel_kept in
    let new = p.after.scheduler.min_vruntime in
    let bounds =
      floor_bounds least time new u64_max p.floor p.floor_kept v.floor_bounded (v.bounded p.pid) in
    (
      record {
        bounded = λ j. rw ps (v.bounded j);
        no_repeat = p.no_repeat;
        floor_bounded = bounds.1;
        above = λ j m.
            let was : contains (queue s) j ≡ true = was_in j m in
            rw ps
              (floor_bounds least time new (vruntime_of (processes s) j) p.floor p.floor_kept
                (v.above j was) (p.least j was)).1;
      },
      bounds.0,
    )
  where
    was_in : (j : ℕ) → contains (queue p.after) j ≡ true → contains (queue s) j ≡ true
    was_in j = rw (p.left j) (second (not (j == p.pid)))

no_next : (s : System) → queue s ≡ [] → next_process false s ≡ done (none, s)
unfolding next_process
no_next s e = subst (λ q. next_from false s q ≡ done (none, s)) (sym e) refl

pub schedule_user-Keeps : (s : System) → IsValid s → Keeps ⊥ s (schedule_user s)
unfolding schedule_user
schedule_user-Keeps s v =
    elim (queue s) as (λ q. queue s ≡ q → Keeps ⊥ s (next_process false s >>= dispatch_next)) [
      | [] ↦ λ e. rw (no_next s e) (kept v (omega arith))
      | pid ∷ q ↦ λ e.
          let p = next_process-Picks s v.bounded v.no_repeat (λ z. nonempty e z) in
          let after = Picks-IsValid s (next_process false s) p v in
          rw (p.answer)
            (kept (state-IsValid p.after _ p.pid running after.0 refl refl refl) after.1)
    ]
      refl
  where
    nonempty : {q : List ℕ} {pid : ℕ} → queue s ≡ pid ∷ q → queue s ≡ [] → ⊥
    nonempty e z = cc
