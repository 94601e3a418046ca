-- ===== src/Process/SignalsKept.antt =====
-- Sending and delivering signals keeps the invariant.
use rustos.Prelude.{
  ℕ, zero, suc, ◌+◌, ◌^◌, refl, Bool, true, false, ◌||◌, Option, none, some, arith, ◌==◌,
  if◌then◌else◌, Bool-cases, inl, inr,
}
use Prim.Native.Nat.{bit_and}
use rustos.Process.{Process, Kernel, is_terminated}
use rustos.Process.Lookup.{KeepsPid}
use rustos.Process.Signals.{
  stopped, marked, cleared, resumed, act_at_once, send_to, is_blocked, deliver_one, deliver_next,
  deliver_to, terminate, stop, ignore, continue, deliver, deliver_loop, default_action,
  DefaultAction, sigkill, sigstop,
}
use rustos.Process.Invariant.{IsValid, Keeps}
use rustos.Process.Kept.{changed-IsValid, killed-IsValid}

act_at_once-IsValid :
    (k : Kernel) (pid sig : ℕ) (a : DefaultAction) → IsValid k → IsValid (act_at_once k pid sig a)
unfolding act_at_once
act_at_once-IsValid k pid sig terminate v = killed-IsValid k pid sig v
act_at_once-IsValid k pid sig stop v =
    changed-IsValid k pid stopped (λ p. refl) (λ next p g. (g.0, tt)) v
act_at_once-IsValid k pid sig ignore v = v
act_at_once-IsValid k pid sig continue v = v

-- Either branch of a test.
pub if-IsValid :
    {R : Type 0} (b : Bool) (x y : R × Kernel)
    → IsValid x.1
    → IsValid y.1
    → IsValid (if b then x else y).1
if-IsValid true x y v w = v
if-IsValid false x y v w = w

pub send_to-IsValid :
    (k : Kernel) (pid sig : ℕ) (found : Option Process)
    → IsValid k
    → IsValid (send_to k pid sig found).1
unfolding send_to
send_to-IsValid k pid sig none v = v
send_to-IsValid k pid sig (some p) v = if-IsValid (sig == 0) _ _ v (
    if-IsValid (is_terminated p.state) _ _ v (
      if-IsValid (sig == sigkill || sig == sigstop) _ _
        (act_at_once-IsValid k pid sig (default_action sig) v)
        (changed-IsValid k pid (marked sig) (λ p. refl) (λ next p g. g) v)))

pub resumed-KeepsPid : KeepsPid resumed
resumed-KeepsPid p = ground arith

resumed-Keeps : Keeps resumed
resumed-Keeps next p g = elim (Bool-cases (is_blocked p.state)) [
  | inl e ↦ rw e (g.0, tt)
  | inr e ↦ rw e g
]

deliver-IsValid :
    (k : Kernel) (pid sig : ℕ) (a : DefaultAction) → IsValid k → IsValid (deliver k pid sig a).1
unfolding deliver
deliver-IsValid k pid sig terminate v = killed-IsValid k pid sig v
deliver-IsValid k pid sig stop v =
    changed-IsValid k pid stopped (λ p. refl) (λ next p g. (g.0, tt)) v
deliver-IsValid k pid sig continue v =
    changed-IsValid k pid resumed resumed-KeepsPid resumed-Keeps v
deliver-IsValid k pid sig ignore v = v

deliver_one-IsValid :
    (k : Kernel) (pid deliverable sig : ℕ)
    → IsValid k
    → IsValid (deliver_one k pid deliverable sig).1
unfolding deliver_one
deliver_one-IsValid k pid deliverable sig v =
    if-IsValid (bit_and deliverable (2 ^ sig) == 0) _ _ v (
      deliver-IsValid _ pid sig (default_action sig)
        (changed-IsValid k pid (cleared sig) (λ p. refl) (λ next p g. g) v))

deliver_next-IsValid :
    (r : Bool × Kernel) (go : Kernel → Bool × Kernel)
    → IsValid r.1
    → ((k : Kernel) → IsValid k → IsValid (go k).1)
    → IsValid (deliver_next r go).1
unfolding deliver_next
deliver_next-IsValid (true, k) go v h = v
deliver_next-IsValid (false, k) go v h = h k v

deliver_loop-IsValid :
    (rounds sig deliverable : ℕ) (k : Kernel) (pid : ℕ)
    → IsValid k
    → IsValid (deliver_loop rounds sig deliverable k pid).1
unfolding deliver_loop
deliver_loop-IsValid zero sig deliverable k pid v = v
deliver_loop-IsValid (suc rounds) sig deliverable k pid v =
    deliver_next-IsValid _ _ (deliver_one-IsValid k pid deliverable sig v)
      (λ k' v'. deliver_loop-IsValid rounds (sig + 1) deliverable k' pid v')

pub deliver_to-IsValid :
    (k : Kernel) (pid : ℕ) (found : Option Process) → IsValid k → IsValid (deliver_to k pid found).1
unfolding deliver_to
deliver_to-IsValid k pid none v = v
deliver_to-IsValid k pid (some p) v = if-IsValid _ _ _ v (deliver_loop-IsValid 31 1 _ k pid v)
