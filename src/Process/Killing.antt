-- ===== src/Process/Killing.antt =====
-- A process that SIGKILL ends is not seen by a parent that waits for it.
use rustos.Prelude.{
  ℕ, ◌+◌, ◌≡◌, ◌≢◌, refl, false, Option, none, some, arith, ◌==◌, ==_false_iff, if◌then◌else◌,
  Bool-cases, inl, inr, ℤ, pos, ok, sym, ◌∙◌,
}
use mathlib.Core.Option
use rustos.Process.{Process, Kernel, terminated, waiting, is_terminated, wait, ended}
use rustos.Process.Lookup.{get-update, is_reapable}
use rustos.Process.Signals.{
  send_signal, send_to, killed, act_at_once, default_action, is_valid, sigkill,
}
use rustos.Process.Invariant.{process, IsValid}
use rustos.Process.Kept.{killed-IsValid}
use rustos.Process.Lifecycle.{NoOther, Waits, wait-Waits}

abbrev killed_by : ℕ → Process → Process
killed_by sig = ended terminated (some (pos (128 + sig)))

process-killed :
    (k : Kernel) (pid sig j : ℕ)
    → process (killed k pid sig) j
      ≡ (if pid == j then Option.map (killed_by sig) (process k j) else process k j)
unfolding killed
process-killed k pid sig j = get-update k.manager.processes pid j _ (λ p. refl)

send_signal-kill :
    (k : Kernel) (pid : ℕ) (p : Process)
    → process k pid ≡ some p
    → is_terminated p.state ≡ false
    → send_signal k pid sigkill ≡ (ok tt, killed k pid sigkill)
unfolding send_signal is_valid send_to default_action act_at_once
send_signal-kill k pid p e alive = rw (e, send_to, alive)

Waits-none :
    (k : Kernel) (parent : ℕ) (r : Option (ℕ × ℤ) × Kernel)
    → ((j : ℕ) (p : Process) → process k j ≡ some p → is_reapable parent p ≡ false)
    → Waits k parent r
    → r.0 ≡ none
Waits-none k parent (none, k') n w = refl
Waits-none k parent (some (pid, code), k') n (p, there, a, c, gone, rest) =
    ground (arith, n pid p there, a)

not_reapable_ended :
    (parent sig : ℕ) (p : Process) (o : Option Process)
    → Option.map (killed_by sig) o ≡ some p
    → is_reapable parent p ≡ false
not_reapable_ended parent sig p none e = cc
not_reapable_ended parent sig p (some q) e = ground (arith, e)

-- In valid tables, where a process waits and no child of it but one can be reaped: SIGKILL to that
-- child, not terminated yet, succeeds, but the parent goes on waiting, and if it calls `wait` directly
-- afterwards, the answer is that there is no child to reap.
pub kill-wait :
    (k : Kernel) (pid parent : ℕ) (p q : Process)
    → IsValid k
    → process k pid ≡ some p
    → is_terminated p.state ≡ false
    → p.parent_pid ≡ some parent
    → pid ≢ parent
    → NoOther k parent pid
    → process k parent ≡ some q
    → q.state ≡ waiting
    → ((send_signal k pid sigkill).0 ≡ ok tt)
      × (process (send_signal k pid sigkill).1 parent ≡ some q)
      × ((wait (send_signal k pid sigkill).1 parent).0 ≡ none)
kill-wait k pid parent p q v e alive c ne n f w =
    let k' : Kernel = killed k pid sigkill in
    let apart : (pid == parent) ≡ false = ground arith in
    let none_left : (j : ℕ) (r : Process) → process k' j ≡ some r → is_reapable parent r ≡ false =
      λ j r g. elim (Bool-cases (pid == j)) [
        | inl same ↦
            not_reapable_ended parent sigkill r (process k j)
              (sym (rw (process-killed k pid sigkill j, same) refl) ∙ g)
        | inr other ↦
            n j r (λ s. (==_false_iff pid j).0 other (sym s))
              (sym (rw (process-killed k pid sigkill j, other) refl) ∙ g)
      ] in
    rw (send_signal-kill k pid p e alive) (
      refl,
      rw (process-killed k pid sigkill parent, apart) f,
      Waits-none k' parent (wait k' parent) none_left
          (wait-Waits k' parent (killed-IsValid k pid sigkill v)),
    )
