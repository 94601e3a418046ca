-- ===== src/Seccomp/Machine/Runs.antt =====
-- What a filter returns, as a relation that counts no rounds, and the loop of src/seccomp.rs
-- against it. Every jump goes forward, so a program is left after as many rounds as it has
-- instructions.
use mathlib.Core.Option.{some-injective}
use rustos.Prelude.{
  ℕ, zero, suc, ◌+◌, ◌^◌, ◌≤◌, ◌<◌, ◌≡◌, ◌↔◌, refl, subst, List, [], ◌∷◌, Option, none, some,
  length, get_elem?, get_elem?-ge, get_elem?-lt, get_elem?-none, Run, done, panic, arith,
}
use rustos.Seccomp.Insn.{BpfInsn, SeccompData, IsInsn, IsProgram, ret_kill_process}
use rustos.Seccomp.Machine.{Vm, new, Outcome, returned, at, execute, resume, fetched, run_from, run}
use rustos.Seccomp.Machine.Forward.{Forward, execute-Forward}

module _ (program : List BpfInsn) (d : SeccompData) where
  pub data Runs : ℕ → Vm → Run ℕ → Type 0 where
    falls_off : {pc : ℕ} {vm : Vm} → length program ≤ pc → Runs pc vm (done ret_kill_process)
    returns :
        {pc v : ℕ} {vm : Vm} (ins : BpfInsn)
        → get_elem? program pc ≡ some ins
        → execute d pc ins vm ≡ done (returned v)
        → Runs pc vm (done v)
    panics :
        {pc : ℕ} {vm : Vm} (ins : BpfInsn)
        → get_elem? program pc ≡ some ins
        → execute d pc ins vm ≡ panic
        → Runs pc vm panic
    goes_on :
        {pc pc' : ℕ} {vm vm' : Vm} {r : Run ℕ} (ins : BpfInsn)
        → get_elem? program pc ≡ some ins
        → execute d pc ins vm ≡ done (at pc' vm')
        → Runs pc' vm' r
        → Runs pc vm r

get-IsInsn :
    (program : List BpfInsn) (pc : ℕ) (ins : BpfInsn)
    → IsProgram program
    → get_elem? program pc ≡ some ins
    → IsInsn ins
get-IsInsn [] pc ins h e = cc
get-IsInsn (i ∷ program) zero ins (h, hs) e = subst IsInsn (some-injective _ _ e) h
get-IsInsn (i ∷ program) (suc pc) ins (h, hs) e = get-IsInsn program pc ins hs e

module _ (program : List BpfInsn) (d : SeccompData) (fits : IsProgram program)
    (small : length program ≤ 2 ^ 32) where
  -- The position after an instruction, with the rounds that it needs.
  forward :
      (pc pc' : ℕ) (vm vm' : Vm) (ins : BpfInsn)
      → get_elem? program pc ≡ some ins
      → execute d pc ins vm ≡ done (at pc' vm')
      → pc < pc'
  unfolding Forward
  forward pc pc' vm vm' ins there e = subst (Forward pc) e (
      execute-Forward pc ins vm (get-IsInsn program pc ins fits there)
        (let lt = get_elem?-lt program pc ins there in omega arith) d)

  module _ (steps pc : ℕ) (vm : Vm) (enough : length program ≤ suc steps + pc)
      (ih : (pc' : ℕ) (vm' : Vm)
        → length program ≤ steps + pc'
        → Runs program d pc' vm' (run_from program d steps pc' vm')) where
    resume-Runs :
        (ins : BpfInsn) (o : Run Outcome)
        → get_elem? program pc ≡ some ins
        → execute d pc ins vm ≡ o
        → Runs program d pc vm (resume (λ pc' vm'. run_from program d steps pc' vm') o)
    resume-Runs ins panic there e = panics ins there e
    resume-Runs ins (done (returned v)) there e = returns ins there e
    resume-Runs ins (done (at pc' vm')) there e =
        let lt = forward pc pc' vm vm' ins there e in goes_on ins there e (ih pc' vm' (omega arith))

    fetched-Runs :
        (o : Option BpfInsn)
        → get_elem? program pc ≡ o
        → Runs program d pc vm (fetched d (λ pc' vm'. run_from program d steps pc' vm') pc vm o)
    fetched-Runs none there = falls_off (get_elem?-none program pc there)
    fetched-Runs (some ins) there = resume-Runs ins _ there refl

  run_from-Runs :
      (steps pc : ℕ) (vm : Vm)
      → length program ≤ steps + pc
      → Runs program d pc vm (run_from program d steps pc vm)
  unfolding run_from
  run_from-Runs zero pc vm enough = falls_off (omega arith)
  run_from-Runs (suc steps) pc vm enough =
      fetched-Runs steps pc vm enough (run_from-Runs steps) _ refl

  -- The relation has one result, which the loop finds.
  Runs-run_from :
      (steps pc : ℕ) (vm : Vm) (r : Run ℕ)
      → length program ≤ steps + pc
      → Runs program d pc vm r
      → run_from program d steps pc vm ≡ r
  unfolding run_from
  Runs-run_from zero pc vm r enough (falls_off past) = refl
  Runs-run_from zero pc vm r enough (returns ins there e) =
      let lt = get_elem?-lt program pc ins there in absurd (omega arith)
  Runs-run_from zero pc vm r enough (panics ins there e) =
      let lt = get_elem?-lt program pc ins there in absurd (omega arith)
  Runs-run_from zero pc vm r enough (goes_on ins there e rest) =
      let lt = get_elem?-lt program pc ins there in absurd (omega arith)
  Runs-run_from (suc steps) pc vm r enough (falls_off past) = rw (get_elem?-ge program pc past) refl
  Runs-run_from (suc steps) pc vm r enough (returns ins there e) = rw (there, e) refl
  Runs-run_from (suc steps) pc vm r enough (panics ins there e) = rw (there, e) refl
  Runs-run_from (suc steps) pc vm r enough (goes_on {pc'} {vm'} ins there e rest) =
      let lt = forward pc pc' vm vm' ins there e in
      rw (there, e) (Runs-run_from steps pc' vm' r (omega arith) rest)

-- The step limit never decides: a program of at most 4,096 instructions, whose fields fit their
-- types, returns exactly what the relation without a limit gives it, and so it always does return
-- (or panics where an instruction does).
pub run-Runs_iff :
    (program : List BpfInsn) (d : SeccompData) (r : Run ℕ)
    → IsProgram program
    → length program ≤ 4096
    → (run program d ≡ r) ↔ Runs program d 0 new r
unfolding run
run-Runs_iff program d r fits small = (
  λ e.
      subst (Runs program d 0 new) e
        (run_from-Runs program d fits (omega arith) 4096 0 new (omega arith)),
  λ h. Runs-run_from program d fits (omega arith) 4096 0 new r (omega arith) h,
)
