-- ===== src/Process/Lifecycle.antt =====
-- `exit`, `wait` and a kill, by the process that each pid has before and after.
use rustos.Prelude.{
  ℕ, ◌≡◌, ◌≢◌, ◌↔◌, refl, sym, subst, ◌∙◌, Bool, true, false, ◌&&◌, Option, none, some, arith, ◌==◌,
  ==_iff, ==_false_iff, ==-refl, if◌then◌else◌, Bool-cases, inl, inr, ℤ,
}
use mathlib.Core.Option
use rustos.Prelude.Maps
use rustos.Prelude.Maps.{find-remove, nat_eq}
use rustos.Process.{
  Process, ProcessState, ready, running, blocked, zombie, terminated, waiting, Kernel,
  update_process, find_zombie, has_children, is_zombie, is_waiting, exit, reap, wait, woken, ended,
  code_of, parked,
}
use rustos.Process.Lookup.{
  get-update, get-without, is_reapable, is_child, find_zombie-found, find_zombie-none,
  has_children_from, has_children_to,
}
use rustos.Process.Invariant.{process, IsValid}
use rustos.Process.Kept.{exit-IsValid, woken-KeepsPid}

-- A wake-up, of one process only.
abbrev wakes : ℕ → ℕ → Option Process → Option Process
wakes parent j o = if parent == j then Option.map woken o else o

-- After the exit of a process that has a parent: the process that exits is a zombie with its exit
-- code and has no kernel stack, the parent is ready if it waited, and no other process changes.
process-exit :
    (k : Kernel) (pid parent j : ℕ) (code : ℤ) (p : Process)
    → process k pid ≡ some p
    → p.parent_pid ≡ some parent
    → process (exit k pid code) j
      ≡ wakes parent j
          (if pid == j then Option.map (ended zombie (some code)) (process k j) else process k j)
unfolding exit
process-exit k pid parent j code p e c =
    rw (e, c)
      (rw (
        get-update (update_process k.manager.processes pid (ended zombie (some code))) parent j
            woken woken-KeepsPid,
        get-update k.manager.processes pid j (ended zombie (some code)) (λ p. refl),
      ))

not_both : (s : ProcessState) → is_waiting s ≡ true → is_zombie s ≡ false
not_both ready e = refl
not_both running e = refl
not_both blocked e = refl
not_both waiting e = refl
not_both zombie e = cc
not_both terminated e = refl

is_reapable-woken : (parent : ℕ) (p : Process) → is_reapable parent (woken p) ≡ is_reapable parent p
is_reapable-woken parent p = elim (Bool-cases (is_waiting p.state)) [
  | inl e ↦ rw e (rw (not_both p.state e) (ground arith))
  | inr e ↦ rw e
]

-- A child of this parent has not ended.
abbrev HasChild : Kernel → ℕ → Type 0
HasChild k parent = (p : Process) × (process k p.pid ≡ some p) × (is_child parent p ≡ true)

-- What `wait` answers and leaves behind.
abbrev pub Waits : Kernel → ℕ → Option (ℕ × ℤ) × Kernel → Type 0
Waits k parent (some (pid, code), k') =
    (p : Process) × (process k pid ≡ some p)
    × (is_reapable parent p ≡ true)
    × (code ≡ code_of p.exit_code)
    × (Maps.find k'.fd_tables pid ≡ none)
    × ((j : ℕ) → process k' j ≡ (if pid == j then none else process k j))
Waits k parent (none, k') =
    ((j : ℕ) (p : Process) → process k j ≡ some p → is_reapable parent p ≡ false)
    × ((blocks : Bool) × ((blocks ≡ true) ↔ HasChild k parent)
        × ((j : ℕ)
            → process k' j
              ≡ (if blocks && (parent == j) then Option.map parked (process k j) else process k j)))

reap-Waits :
    (k : Kernel) (parent : ℕ) (found : Option Process)
    → IsValid k
    → find_zombie k.manager.processes parent ≡ found
    → Waits k parent (reap k parent found)
unfolding reap
reap-Waits k parent (some p) v e =
    let (there, reapable) = find_zombie-found k.manager.processes parent p v.unique e in
    (
      p,
      there,
      reapable,
      refl,
      rw (find-remove k.fd_tables p.pid p.pid, ==-refl p.pid),
      λ j. get-without k.manager.processes p.pid j,
    )
reap-Waits k parent none v e = (
  λ j p g. find_zombie-none k.manager.processes parent j p e g,
  (
    has_children k.manager.processes parent,
    (
      λ h. has_children_to k.manager.processes parent v.unique h,
      λ h. has_children_from k.manager.processes parent h.0.pid h.0 h.1 h.2,
    ),
    λ j. elim (Bool-cases (has_children k.manager.processes parent)) [
      | inl h ↦ rw h (get-update k.manager.processes parent j parked (λ p. refl))
      | inr h ↦ rw h
    ],
  ),
)

-- In valid tables `wait` either takes a zombie child of the caller, answers its pid and exit code,
-- and removes it and its descriptor table; or, if there is no such child, answers nothing, and
-- marks the caller as waiting just when a child of it has not ended. No other process changes.
pub wait-Waits : (k : Kernel) (parent : ℕ) → IsValid k → Waits k parent (wait k parent)
unfolding wait
wait-Waits k parent v = reap-Waits k parent (find_zombie k.manager.processes parent) v refl

-- The children of a parent that can be reaped, but for one pid.
abbrev pub NoOther : Kernel → ℕ → ℕ → Type 0
NoOther k parent pid =
    (j : ℕ) (p : Process) → j ≢ pid → process k j ≡ some p → is_reapable parent p ≡ false

-- What `wait` answers where one child, and no other, can be reaped.
Waits-for :
    (k : Kernel) (parent pid : ℕ) (code : ℤ) (p : Process) (r : Option (ℕ × ℤ) × Kernel)
    → process k pid ≡ some p
    → is_reapable parent p ≡ true
    → code_of p.exit_code ≡ code
    → NoOther k parent pid
    → Waits k parent r
    → r.0 ≡ some (pid, code)
Waits-for k parent pid code p (none, k') e a c n w = ground (arith, w.0 pid p e, a)
Waits-for k parent pid code p (some (pid', code'), k') e a c n (q, there, a', c', gone, w) =
    elim (Bool-cases (pid' == pid)) [
      | inl same ↦
          let s : pid' ≡ pid = (==_iff pid' pid).0 same in
          let e' : process k pid' ≡ some p = rw s e in cc
      | inr other ↦ ground (arith, n pid' q ((==_false_iff pid' pid).0 other) there, a')
    ]

not_reapable_woken :
    (parent : ℕ) (p : Process) (o : Option Process)
    → ((q : Process) → o ≡ some q → is_reapable parent q ≡ false)
    → Option.map woken o ≡ some p
    → is_reapable parent p ≡ false
not_reapable_woken parent p none h e = cc
not_reapable_woken parent p (some q) h e = ground (arith, is_reapable-woken parent q, h q refl, e)

exit-NoOther :
    (k : Kernel) (pid parent : ℕ) (code : ℤ) (p : Process)
    → process k pid ≡ some p
    → p.parent_pid ≡ some parent
    → NoOther k parent pid
    → NoOther (exit k pid code) parent pid
exit-NoOther k pid parent code p e c n j q ne g =
    let other : (pid == j) ≡ false = ground arith in
    let there : wakes parent j (process k j) ≡ some q =
      subst
        (λ b.
          wakes parent j
            (if b then Option.map (ended zombie (some code)) (process k j) else process k j)
          ≡ some q)
        other (sym (process-exit k pid parent j code p e c) ∙ g) in
    elim (Bool-cases (parent == j)) [
      | inl same ↦
          not_reapable_woken parent q (process k j) (λ q' e'. n j q' ne e')
            (subst (λ b. (if b then Option.map woken (process k j) else process k j) ≡ some q) same
              there)
      | inr h ↦ n j q ne (
          subst (λ b. (if b then Option.map woken (process k j) else process k j) ≡ some q) h there)
    ]

-- In valid tables, where no other child of the parent can be reaped: after the exit of a child the
-- parent's `wait` answers the child's pid and exit code.
pub exit-wait :
    (k : Kernel) (pid parent : ℕ) (code : ℤ) (p : Process)
    → IsValid k
    → process k pid ≡ some p
    → p.parent_pid ≡ some parent
    → pid ≢ parent
    → NoOther k parent pid
    → (wait (exit k pid code) parent).0 ≡ some (pid, code)
exit-wait k pid parent code p v e c ne n =
    let k' : Kernel = exit k pid code in
    let apart : (parent == pid) ≡ false = ground arith in
    Waits-for k' parent pid code (ended zombie (some code) p) (wait k' parent)
      (rw (process-exit k pid parent pid code p e c, ==-refl pid, e, apart))
      (rw (c, ==-refl parent)) refl (exit-NoOther k pid parent code p e c n)
      (wait-Waits k' parent (exit-IsValid k pid code v))
