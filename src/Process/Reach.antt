-- ===== src/Process/Reach.antt =====
-- Every sequence of calls of src/process/mod.rs keeps the invariant.
use rustos.Prelude.{
  ℕ, ◌≤◌, ◌≡◌, refl, sym, ap, subst, ◌∙◌, true, false, not, none, List, [], ◌∷◌, ◌++◌, ℤ, replicate,
  ltb, Run, done, panic, ◌>>=◌, Bool-cases, inl, inr, arith,
}
use rustos.Prelude.Maps
use rustos.Process.{
  Kernel, get_process, usize_max, created, create_process, exit, terminate as terminate_process,
  wait, max_processes,
}
use rustos.Process.Signals.{send_signal, deliver_pending_signals, is_valid}
use rustos.Process.Invariant.{IsValid}
use rustos.Process.Kept.{created-IsValid, terminate-IsValid, exit-IsValid, reap-IsValid}
use rustos.Process.SignalsKept.{if-IsValid, send_to-IsValid, deliver_to-IsValid}

-- The tables at boot.
unfoldable pub boot : Kernel
boot = record {
  manager = record { processes = []; current_pid = none; next_pid = 1 };
  stacks = replicate max_processes false;
  fd_tables = Maps.empty;
}

boot-IsValid : IsValid boot
unfolding boot get_process
boot-IsValid = record { unique = tt; good = λ j. tt }

-- A call of the process manager.
pub data Call : Type 0 where
  creates : Call
  exits : ℕ → ℤ → Call
  terminates waits delivers : ℕ → Call
  signals : ℕ → ℕ → Call

pub step : Kernel → Call → Run Kernel
step k creates = create_process k >>= λ (pid, k'). done k'
step k (exits pid code) = done (exit k pid code)
step k (terminates pid) = done (terminate_process k pid)
step k (waits parent) = done (wait k parent).1
step k (delivers pid) = done (deliver_pending_signals k pid).1
step k (signals pid sig) = done (send_signal k pid sig).1

pub run : Kernel → List Call → Run Kernel
unfolding step
run k [] = done k
run k (call ∷ calls) = step k call >>= λ k'. run k' calls

-- Valid tables; or a panic, where a creation comes to valid tables that have no pid left.
pub data Ends (k : Kernel) (calls : List Call) : Run Kernel → Type 0 where
  kept : {k' : Kernel} → IsValid k' → Ends k calls (done k')
  exhausted :
      (before after : List Call) {k' : Kernel}
      → calls ≡ before ++ creates ∷ after
      → run k before ≡ done k'
      → IsValid k'
      → usize_max ≤ k'.manager.next_pid
      → Ends k calls panic

-- The rest of the calls, behind a step that is done.
Ends-step :
    (k k1 : Kernel) (call : Call) (calls : List Call) (r : Run Kernel)
    → step k call ≡ done k1
    → Ends k1 calls r
    → Ends k (call ∷ calls) r
unfolding run
Ends-step k k1 call calls _ e (kept v) = kept v
Ends-step k k1 call calls _ e (exhausted before after split there v full) =
    exhausted (call ∷ before) after (ap (λ cs. call ∷ cs) split)
      (ap (λ r. r >>= λ k'. run k' before) e ∙ there) v full

Ends-run :
    (k k1 : Kernel) (call : Call) (calls : List Call)
    → step k call ≡ done k1
    → Ends k1 calls (run k1 calls)
    → Ends k (call ∷ calls) (run k (call ∷ calls))
unfolding run
Ends-run k k1 call calls e ends =
    subst (λ r. Ends k (call ∷ calls) (r >>= λ k'. run k' calls)) (sym e)
      (Ends-step k k1 call calls (run k1 calls) e ends)

step-creates :
    (k : Kernel) → ltb k.manager.next_pid usize_max ≡ true → step k creates ≡ done (created k)
unfolding step create_process
step-creates k e = rw e refl

run-exhausted :
    (k : Kernel) (calls : List Call)
    → ltb k.manager.next_pid usize_max ≡ false
    → run k (creates ∷ calls) ≡ panic
unfolding run step create_process
run-exhausted k calls e = rw e refl

-- From valid tables every sequence of calls leads to valid tables (no two processes have one pid,
-- every pid is below the next one, and a process that is a zombie or terminated has no kernel stack),
-- unless it panics; and it panics only in a `create_process` to which the calls before lead with
-- valid tables whose next pid is `usize::MAX` or more.
pub run-IsValid : (k : Kernel) (calls : List Call) → IsValid k → Ends k calls (run k calls)
unfolding run step wait send_signal deliver_pending_signals
run-IsValid k [] v = kept v
run-IsValid k (creates ∷ calls) v = elim (Bool-cases (ltb k.manager.next_pid usize_max)) [
  | inl room ↦
      Ends-run k (created k) creates calls (step-creates k room)
        (run-IsValid (created k) calls (created-IsValid k v))
  | inr full ↦
      subst (Ends k (creates ∷ calls)) (sym (run-exhausted k calls full))
        (exhausted [] calls refl refl v (ground (arith, full)))
]
run-IsValid k (exits pid code ∷ calls) v =
    Ends-run k _ _ calls refl (run-IsValid _ calls (exit-IsValid k pid code v))
run-IsValid k (terminates pid ∷ calls) v =
    Ends-run k _ _ calls refl (run-IsValid _ calls (terminate-IsValid k pid v))
run-IsValid k (waits parent ∷ calls) v =
    Ends-run k _ _ calls refl (run-IsValid _ calls (reap-IsValid k parent _ v))
run-IsValid k (delivers pid ∷ calls) v =
    Ends-run k _ _ calls refl
      (run-IsValid _ calls (deliver_to-IsValid k pid (get_process k.manager.processes pid) v))
run-IsValid k (signals pid sig ∷ calls) v =
    Ends-run k _ _ calls refl
      (run-IsValid _ calls (if-IsValid (not (is_valid sig)) _ _ v (send_to-IsValid k pid sig _ v)))
