-- ===== src/Process/Tests.antt =====
-- The theorems on processes at a parent that waits and its child.
use rustos.Prelude.{
  ℕ, ◌≡◌, refl, true, false, none, some, List, [], ◌∷◌, arith, ◌==◌, Bool-cases, inl, inr, pos, ok,
  replicate,
}
use rustos.Prelude.Maps
use rustos.Process.{Process, Kernel, running, waiting, get_process, exit, wait}
use rustos.Process.Signals.{send_signal, sigkill}
use rustos.Process.Invariant.{process, IsValid, AllGood}
use rustos.Process.Reach.{Call, Ends, run, exits, signals, waits, delivers, creates, run-IsValid}
use rustos.Process.Lifecycle.{Waits, wait-Waits, NoOther, exit-wait}
use rustos.Process.Killing.{kill-wait}

abbrev parent : Process
parent = record {
  pid = 1;
  parent_pid = none;
  state = waiting;
  exit_code = none;
  pending_signals = 0;
  signal_blocked = 0;
  kernel_stack_slot = none;
  nice = pos 0;
  vruntime = 0;
}

abbrev child : Process
child = record {
  pid = 2;
  parent_pid = some 1;
  state = running;
  exit_code = none;
  pending_signals = 0;
  signal_blocked = 0;
  kernel_stack_slot = some 0;
  nice = pos 0;
  vruntime = 0;
}

abbrev family : Kernel
family = record {
  manager = record { processes = parent ∷ child ∷ []; current_pid = some 2; next_pid = 3 };
  stacks = true ∷ replicate 63 false;
  fd_tables = Maps.empty;
}

family-good : (j : ℕ) → AllGood 3 (process family j)
unfolding get_process
family-good j = elim (Bool-cases (1 == j)) [
  | inl e ↦ rw e (omega arith, tt)
  | inr e ↦ elim (Bool-cases (2 == j)) [
    | inl e' ↦ rw (e, e') (omega arith, tt)
    | inr e' ↦ rw (e, e') tt
  ]
]

family-IsValid : IsValid family
unfolding get_process
family-IsValid = record { unique = (refl, (refl, tt)); good = family-good }

family-NoOther : NoOther family 1 2
unfolding get_process
family-NoOther j p ne g = elim (Bool-cases (1 == j)) [
  | inl e ↦ ground (arith, e, g)
  | inr e ↦ ground (arith, e, g)
]

family-child : process family 2 ≡ some child
unfolding get_process
family-child = refl

family-parent : process family 1 ≡ some parent
unfolding get_process
family-parent = refl

abbrev calls : List Call
calls = creates ∷ signals 2 17 ∷ delivers 2 ∷ exits 2 (pos 5) ∷ waits 1 ∷ []

run-IsValid_example : Ends family calls (run family calls)
run-IsValid_example = run-IsValid family calls family-IsValid

wait-Waits_example : Waits family 1 (wait family 1)
wait-Waits_example = wait-Waits family 1 family-IsValid

exit-wait_example : (wait (exit family 2 (pos 5)) 1).0 ≡ some (2, pos 5)
exit-wait_example =
    exit-wait family 2 1 (pos 5) child family-IsValid family-child refl (omega arith) family-NoOther

kill-wait_example :
    ((send_signal family 2 sigkill).0 ≡ ok tt)
    × (process (send_signal family 2 sigkill).1 1 ≡ some parent)
    × ((wait (send_signal family 2 sigkill).1 1).0 ≡ none)
kill-wait_example =
    kill-wait family 2 1 child parent family-IsValid family-child refl refl (omega arith)
      family-NoOther family-parent refl
