-- ===== src/Process/Kept.antt =====
-- The calls of src/process/mod.rs but for the signals keep the invariant.
use rustos.Prelude.{
  ℕ, ◌+◌, ◌≡◌, refl, subst, Option, none, some, arith, ◌==◌, Bool-cases, inl, inr, ℤ,
}
use rustos.Process.{
  Process, Kernel, zombie, terminated, get_process, update_process, has_children, is_waiting,
  new_process, created, exit, terminate as terminate_process, reap, woken, wake_parent, parent_of,
  ended,
}
use rustos.Process.Lookup.{
  get_process-pid, KeepsPid, AllUnique, get-push, AllUnique-update, AllUnique-without,
  AllUnique-push,
}
use rustos.Process.Signals.{killed, changed}
use rustos.Process.Invariant.{process, AllGood, IsValid, Keeps, update-good, without-good}

AllGood-push : (next : ℕ) (o : Option Process) → AllGood next o → AllGood (next + 1) o
AllGood-push next none g = tt
AllGood-push next (some p) g = (ground (arith, g.0), g.1)

-- No process has the next pid.
next_free :
    (k : Kernel) (o : Option Process) → IsValid k → process k k.manager.next_pid ≡ o → o ≡ none
next_free k none v e = refl
next_free k (some p) v e =
    let g : AllGood k.manager.next_pid (some p) =
      subst (AllGood k.manager.next_pid) e (v.good k.manager.next_pid) in
    ground (arith, g.0, get_process-pid k.manager.processes k.manager.next_pid p e)

pub created-IsValid : (k : Kernel) → IsValid k → IsValid (created k)
created-IsValid k v =
    let next : ℕ = k.manager.next_pid in
    let free : process k next ≡ none = next_free k (process k next) v refl in
    record {
      unique = AllUnique-push k.manager.processes (new_process next) free v.unique;
      good = λ j. elim (Bool-cases (next == j)) [
        | inl e ↦ rw (get-push k.manager.processes (new_process next) j free, e) (omega arith, tt)
        | inr e ↦
            rw (get-push k.manager.processes (new_process next) j free, e)
              (AllGood-push next (process k j) (v.good j))
      ];
    }

pub changed-IsValid :
    (k : Kernel) (pid : ℕ) (f : Process → Process)
    → KeepsPid f
    → Keeps f
    → IsValid k
    → IsValid (changed k pid f)
unfolding changed
changed-IsValid k pid f kp kf v = record {
  unique = AllUnique-update k.manager.processes pid f kp v.unique;
  good = update-good k.manager.next_pid k.manager.processes pid f kp kf v.good;
}

ended-Keeps : (code : Option ℤ) → Keeps (ended terminated code)
ended-Keeps code next p g = (g.0, refl)

pub terminate-IsValid : (k : Kernel) (pid : ℕ) → IsValid k → IsValid (terminate_process k pid)
unfolding terminate_process
terminate-IsValid k pid v = record {
  unique = AllUnique-update k.manager.processes pid _ (λ p. refl) v.unique;
  good =
      update-good k.manager.next_pid k.manager.processes pid _ (λ p. refl) (λ next p g. (g.0, refl))
        v.good;
}

pub killed-IsValid : (k : Kernel) (pid sig : ℕ) → IsValid k → IsValid (killed k pid sig)
unfolding killed
killed-IsValid k pid sig v = record {
  unique = AllUnique-update k.manager.processes pid _ (λ p. refl) v.unique;
  good =
      update-good k.manager.next_pid k.manager.processes pid _ (λ p. refl) (λ next p g. (g.0, refl))
        v.good;
}

pub woken-KeepsPid : KeepsPid woken
woken-KeepsPid p = ground arith

woken-Keeps : Keeps woken
woken-Keeps next p g = elim (Bool-cases (is_waiting p.state)) [
  | inl e ↦ rw e (g.0, tt)
  | inr e ↦ rw e g
]

pub exit-IsValid : (k : Kernel) (pid : ℕ) (code : ℤ) → IsValid k → IsValid (exit k pid code)
unfolding exit
exit-IsValid k pid code v =
    woken_parent (parent_of (get_process k.manager.processes pid))
      (AllUnique-update k.manager.processes pid _ (λ p. refl) v.unique)
      (update-good k.manager.next_pid k.manager.processes pid _ (λ p. refl)
        (λ next p g. (g.0, refl)) v.good)
  where
    woken_parent :
        (parent : Option ℕ)
        → AllUnique (update_process k.manager.processes pid (ended zombie (some code)))
        → ((j : ℕ)
            → AllGood k.manager.next_pid
                (get_process (update_process k.manager.processes pid (ended zombie (some code))) j))
        → IsValid (record (exit k pid code) {
          manager = record ((exit k pid code).manager) {
            processes =
                wake_parent
                  (update_process k.manager.processes pid (ended zombie (some code)))
                  parent;
          };
        })
    woken_parent none u g = record { unique = u; good = g }
    woken_parent (some parent) u g = record {
      unique = AllUnique-update _ parent woken woken-KeepsPid u;
      good = update-good k.manager.next_pid _ parent woken woken-KeepsPid woken-Keeps g;
    }

pub reap-IsValid :
    (k : Kernel) (parent : ℕ) (found : Option Process) → IsValid k → IsValid (reap k parent found).1
unfolding reap
reap-IsValid k parent (some p) v = record {
  unique = AllUnique-without k.manager.processes p.pid v.unique;
  good = without-good k.manager.next_pid k.manager.processes p.pid v.good;
}
reap-IsValid k parent none v = elim (Bool-cases (has_children k.manager.processes parent)) [
  | inl h ↦ rw h (record {
    unique = AllUnique-update k.manager.processes parent _ (λ p. refl) v.unique;
    good =
        update-good k.manager.next_pid k.manager.processes parent _ (λ p. refl)
          (λ next p g. (g.0, tt)) v.good;
  })
  | inr h ↦ rw h v
]
