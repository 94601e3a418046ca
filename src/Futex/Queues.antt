-- ===== src/Futex/Queues.antt =====
-- `wake` takes the oldest waiters of its address and makes them ready; a waiter that parks is woken
-- just by the wake that reaches it.
use rustos.Prelude.{
  ℕ, zero, suc, ◌≡◌, ◌≢◌, refl, sym, ap, ◌∙◌, Bool, true, false, ◌||◌, Option, none, some, List, [],
  ◌∷◌, min, arith, length, take, drop, ◌==◌, ==_iff, if◌then◌else◌, Bool-cases, inl, inr,
  length-take, take-min, drop-min,
}
use mathlib.Core.Option
use rustos.Prelude.Maps
use rustos.Prelude.Maps.{find-insert, find-remove, nat_eq}
use rustos.Process.{Process, Kernel}
use rustos.Process.Lookup.{get-update}
use rustos.Process.Signals.{changed, resumed, is_blocked}
use rustos.Process.Invariant.{process}
use rustos.Process.SignalsKept.{resumed-KeepsPid}
use rustos.Futex.{Futexes, waiters, or_new, contains, resume_all, is_nil, wake_found, wake}

pub waiters-insert :
    (s : Futexes) (k : Kernel) (uaddr j : ℕ) (ps : List ℕ)
    → waiters (record { queues = Maps.insert s.queues uaddr ps; kernel = k }) j
      ≡ (if uaddr == j then ps else waiters s j)
unfolding waiters
waiters-insert s k uaddr j ps = ground (arith, find-insert s.queues uaddr j ps)

waiters-remove :
    (s : Futexes) (k : Kernel) (uaddr j : ℕ)
    → waiters (record { queues = Maps.remove s.queues uaddr; kernel = k }) j
      ≡ (if uaddr == j then [] else waiters s j)
unfolding waiters
waiters-remove s k uaddr j = ground (arith, find-remove s.queues uaddr j)

resumed_twice : (p : Process) → resumed (resumed p) ≡ resumed p
resumed_twice p = elim (Bool-cases (is_blocked p.state)) [ inl e ↦ rw e | inr e ↦ rw (e, e) ]

-- A process among those resumed, once or more often.
abbrev resumed_if : Bool → Option Process → Option Process
resumed_if b o = if b then Option.map resumed o else o

resumed_if-or :
    (b c : Bool) (o : Option Process)
    → resumed_if b (if c then Option.map resumed o else o) ≡ resumed_if (c || b) o
resumed_if-or b true none = ground arith
resumed_if-or true true (some p) = ap some (resumed_twice p)
resumed_if-or false true (some p) = refl
resumed_if-or b false o = refl

process-resume_all :
    (k : Kernel) (pids : List ℕ) (j : ℕ)
    → process (resume_all k pids) j ≡ resumed_if (contains pids j) (process k j)
unfolding resume_all contains changed
process-resume_all k [] j = refl
process-resume_all k (pid ∷ pids) j =
    process-resume_all (changed k pid resumed) pids j
    ∙ ap (resumed_if (contains pids j))
        (get-update k.manager.processes pid j resumed resumed-KeepsPid)
    ∙ resumed_if-or (contains pids j) (pid == j) (process k j)

pub drop-nil : (n : ℕ) → drop {A = ℕ} n [] ≡ []
drop-nil zero = refl
drop-nil (suc n) = refl

take-nil : (n : ℕ) → take {A = ℕ} n [] ≡ []
take-nil zero = refl
take-nil (suc n) = refl

is_nil-nil : (ps : List ℕ) → is_nil ps ≡ true → ps ≡ []
is_nil-nil [] e = refl
is_nil-nil (p ∷ ps) e = cc

-- What `wake` answers and leaves behind.
abbrev pub Wakes : Futexes → ℕ → ℕ → ℕ × Futexes → Type 0
Wakes s uaddr nr (n, s') =
    (n ≡ min nr (length (waiters s uaddr)))
    × ((j : ℕ) → waiters s' j ≡ (if uaddr == j then drop nr (waiters s uaddr) else waiters s j))
    × ((j : ℕ)
        → process s'.kernel j
          ≡ resumed_if (contains (take nr (waiters s uaddr)) j) (process s.kernel j))

wake_found-Wakes :
    (s : Futexes) (uaddr nr : ℕ) (found : Option (List ℕ))
    → waiters s uaddr ≡ or_new found
    → Wakes s uaddr nr (wake_found s uaddr nr found)
unfolding wake_found contains
wake_found-Wakes s uaddr nr none e =
    rw (e, drop-nil nr, take-nil nr)
      (
        omega arith,
        λ j. elim (Bool-cases (uaddr == j)) [
          | inl same ↦ rw (same, ← (==_iff uaddr j).0 same) e
          | inr other ↦ rw other
        ],
        λ j. refl,
      )
wake_found-Wakes s uaddr nr (some ps) e =
    let n : ℕ = min nr (length ps) in
    let kept : drop n ps ≡ drop nr ps = drop-min nr n ps refl in
    let taken : take n ps ≡ take nr ps = take-min nr n ps refl in
    let k' : Kernel = resume_all s.kernel (take n ps) in
    rw e (
      omega (arith, length-take n ps),
      λ j. elim (Bool-cases (is_nil (drop n ps))) [
        | inl nil ↦
            let empty : drop nr ps ≡ [] = sym kept ∙ is_nil-nil (drop n ps) nil in
            rw (nil, empty) (waiters-remove s k' uaddr j)
        | inr more ↦ rw (more, ← kept) (waiters-insert s k' uaddr j (drop n ps))
      ],
      λ j. rw (← taken) (process-resume_all s.kernel (take n ps) j),
    )

-- Of an address other than 0 `wake` takes the oldest waiters, as many as asked for or as there are,
-- and answers their number; the others stay in their order, and so does every other queue. A
-- process that was taken is ready if it was blocked, and no other process changes.
pub wake-Wakes : (s : Futexes) (uaddr nr : ℕ) → uaddr ≢ 0 → Wakes s uaddr nr (wake s uaddr nr)
unfolding wake waiters
wake-Wakes s uaddr nr ne =
    let real : (uaddr == 0) ≡ false = ground arith in
    rw (real, wake) (wake_found-Wakes s uaddr nr (Maps.find s.queues uaddr) refl)
