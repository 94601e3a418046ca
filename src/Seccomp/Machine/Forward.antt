-- ===== src/Seccomp/Machine/Forward.antt =====
-- Every instruction goes forward: the position after it is larger, whatever the jump.
use rustos.Prelude.{
  ℕ, ◌+◌, ◌^◌, ◌<◌, Option, none, some, Bool, true, false, if◌then◌else◌, Run, done, panic, ◌>>=◌,
  arith,
}
use rustos.Seccomp.Insn.{BpfInsn, SeccompData, IsInsn}
use rustos.Seccomp.Machine.{
  Vm, Outcome, returned, at, execute, ld, ldx, st, stx, alu, jmp, ret, misc, branch, assign_a, kill,
  jump,
}

-- An outcome that does not go back.
unfoldable pub Forward : ℕ → Run Outcome → Type 0
Forward pc panic = Unit
Forward pc (done (returned v)) = Unit
Forward pc (done (at pc' vm)) = pc < pc'

module _ (pc : ℕ) where
  if-Forward :
      (b : Bool) (x y : Run Outcome) → Forward pc x → Forward pc y → Forward pc (if b then x else y)
  if-Forward true x y hx hy = hx
  if-Forward false x y hx hy = hy

  bind-Forward :
      (w : Run (Option ℕ)) (f : Option ℕ → Run Outcome)
      → ((o : Option ℕ) → Forward pc (f o))
      → Forward pc (w >>= f)
  unfolding Forward
  bind-Forward (done o) f h = h o
  bind-Forward panic f h = tt

  module _ (ins : BpfInsn) (vm : Vm) (fits : IsInsn ins) (bound : pc < 2 ^ 63) where
    assign_a-Forward : (o : Option ℕ) → Forward pc (assign_a pc vm o)
    unfolding Forward
    assign_a-Forward none = tt
    assign_a-Forward (some v) = omega arith

    branch-Forward : (o : Option Bool) → Forward pc (branch pc ins vm o)
    unfolding Forward
    branch-Forward none = tt
    branch-Forward (some true) = omega arith
    branch-Forward (some false) = omega arith

    kill-Forward : Forward pc kill
    unfolding Forward
    kill-Forward = tt

    next-Forward : (vm' : Vm) → Forward pc (done (at (pc + 1) vm'))
    unfolding Forward
    next-Forward vm' = omega arith

    jump-Forward : Forward pc (jump pc ins.k vm)
    unfolding Forward
    jump-Forward = omega arith

    ruleset forward = (
      if-Forward, bind-Forward, assign_a-Forward, branch-Forward, kill-Forward, next-Forward,
      jump-Forward,
    )

    ld-Forward : (d : SeccompData) → Forward pc (ld d pc ins vm)
    unfolding ld
    ld-Forward d = search forward depth 12

    ldx-Forward : Forward pc (ldx pc ins vm)
    unfolding ldx
    ldx-Forward = search forward depth 12

    alu-Forward : Forward pc (alu pc ins vm)
    unfolding alu
    alu-Forward = assign_a-Forward _

    jmp-Forward : Forward pc (jmp pc ins vm)
    unfolding jmp
    jmp-Forward = search forward depth 12

    ret-Forward : Forward pc (ret ins vm)
    unfolding ret Forward
    ret-Forward = tt

    misc-Forward : Forward pc (misc pc ins vm)
    unfolding misc
    misc-Forward = search forward depth 12

    stores-Forward : Forward pc (st pc ins vm) × Forward pc (stx pc ins vm)
    unfolding st stx
    stores-Forward = (next-Forward _, next-Forward _)

    pub execute-Forward : (d : SeccompData) → Forward pc (execute d pc ins vm)
    unfolding execute
    execute-Forward d = if-Forward _ _ _ (ld-Forward d) (
        if-Forward _ _ _ ldx-Forward (
          if-Forward _ _ _ (stores-Forward.0) (
            if-Forward _ _ _ (stores-Forward.1) (
              if-Forward _ _ _ alu-Forward (
                if-Forward _ _ _ jmp-Forward
                  (if-Forward _ _ _ ret-Forward (if-Forward _ _ _ misc-Forward kill-Forward)))))))
