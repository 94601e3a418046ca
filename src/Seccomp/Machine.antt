-- ===== src/Seccomp/Machine.antt =====
-- The machine of src/seccomp.rs, one instruction at a time, and its loop.
pub mod Forward
pub mod Runs
use Prim.Native.Nat.{bit_and, bit_or, bit_xor}
use rustos.Prelude.{
  ℕ, zero, suc, ◌+◌, ◌-◌, ◌*◌, ◌/◌, ◌%◌, ◌^◌, List, replicate, Option, none, some, Bool, true,
  false, not, ◌&&◌, get_elem?, get_or, set, ltb, leb, ◌==◌, if◌then◌else◌, Run, done, panic, ◌>>=◌,
}
use rustos.Seccomp.Insn.{
  BpfInsn, SeccompData, load_word, class, size, mode, op, src, ret_kill_process,
}

-- The registers; the program and the data never change.
pub record Vm : Type 0 where
  pub a : ℕ
  pub x : ℕ
  pub mem : List ℕ

unfoldable pub new : Vm
new = record { a = 0; x = 0; mem = replicate 16 0 }

-- What an instruction does: the function returns, or the loop goes on at a position.
pub data Outcome : Type 0 where
  returned : ℕ → Outcome
  at : ℕ → Vm → Outcome

abbrev kill : Run Outcome
kill = done (returned ret_kill_process)

-- `.unwrap_or(0)`
abbrev or_zero : Option ℕ → ℕ
or_zero none = 0
or_zero (some v) = v

-- `self.mem[k % SCRATCH]`
abbrev scratch : Vm → ℕ → ℕ
scratch vm k = get_or vm.mem (k % 16) 0

abbrev set_a : ℕ → Vm → ℕ → Run Outcome
set_a pc vm v = done (at (pc + 1) (record vm { a = v }))

abbrev set_x : ℕ → Vm → ℕ → Run Outcome
set_x pc vm v = done (at (pc + 1) (record vm { x = v }))

abbrev set_mem : ℕ → Vm → ℕ → ℕ → Run Outcome
set_mem pc vm k v = done (at (pc + 1) (record vm { mem = set vm.mem (k % 16) v }))

-- The arm of a class for the instruction at `pc`.
ld : SeccompData → ℕ → BpfInsn → Vm → Run Outcome
ld d pc ins vm =
    if size ins.code == 0x00 && mode ins.code == 0x20
    then (load_word d ins.k >>= λ w. set_a pc vm (or_zero w))
    else if size ins.code == 0x00 && mode ins.code == 0x00
    then set_a pc vm ins.k
    else if size ins.code == 0x00 && mode ins.code == 0x80
    then set_a pc vm 64
    else if size ins.code == 0x00 && mode ins.code == 0x60
    then set_a pc vm (scratch vm ins.k)
    else kill

ldx : ℕ → BpfInsn → Vm → Run Outcome
ldx pc ins vm =
    if size ins.code == 0x00 && mode ins.code == 0x00
    then set_x pc vm ins.k
    else if size ins.code == 0x00 && mode ins.code == 0x60
    then set_x pc vm (scratch vm ins.k)
    else if size ins.code == 0x00 && mode ins.code == 0x80
    then set_x pc vm 64
    else kill

st : ℕ → BpfInsn → Vm → Run Outcome
st pc ins vm = set_mem pc vm ins.k vm.a

stx : ℕ → BpfInsn → Vm → Run Outcome
stx pc ins vm = set_mem pc vm ins.k vm.x

abbrev rhs_of : BpfInsn → Vm → ℕ
rhs_of ins vm = if src ins.code == 0x08 then vm.x else ins.k

-- The value of an operation on 32-bit registers; `none` is the return from inside the match.
alu_value : ℕ → ℕ → ℕ → Option ℕ
alu_value o a rhs =
    if o == 0x00
    then some ((a + rhs) % 2 ^ 32)
    else if o == 0x10
    then some ((a + 2 ^ 32 - rhs) % 2 ^ 32)
    else if o == 0x20
    then some ((a * rhs) % 2 ^ 32)
    else if o == 0x30
    then (if rhs == 0 then none else some (a / rhs))
    else if o == 0x90
    then (if rhs == 0 then none else some (a % rhs))
    else if o == 0x40
    then some (bit_or a rhs)
    else if o == 0x50
    then some (bit_and a rhs)
    else if o == 0xa0
    then some (bit_xor a rhs)
    else if o == 0x60
    then some ((a * 2 ^ (rhs % 32)) % 2 ^ 32)
    else if o == 0x70
    then some (a / 2 ^ (rhs % 32))
    else if o == 0x80
    then some ((2 ^ 32 - a) % 2 ^ 32)
    else none

abbrev assign_a : ℕ → Vm → Option ℕ → Run Outcome
assign_a pc vm none = kill
assign_a pc vm (some v) = set_a pc vm v

alu : ℕ → BpfInsn → Vm → Run Outcome
unfolding alu_value
alu pc ins vm = assign_a pc vm (alu_value (op ins.code) vm.a (rhs_of ins vm))

-- `pc.wrapping_add(1).wrapping_add(off)`
abbrev jump : ℕ → ℕ → Vm → Run Outcome
jump pc off vm = done (at (((pc + 1) % 2 ^ 64 + off) % 2 ^ 64) vm)

-- Whether a conditional jump is taken; `none` is an unknown operation.
take_jump : ℕ → ℕ → ℕ → Option Bool
take_jump o a rhs =
    if o == 0x10
    then some (a == rhs)
    else if o == 0x20
    then some (ltb rhs a)
    else if o == 0x30
    then some (leb rhs a)
    else if o == 0x40
    then some (not (bit_and a rhs == 0))
    else none

abbrev branch : ℕ → BpfInsn → Vm → Option Bool → Run Outcome
branch pc ins vm none = kill
branch pc ins vm (some taken) = jump pc (if taken then ins.jt else ins.jf) vm

jmp : ℕ → BpfInsn → Vm → Run Outcome
unfolding take_jump
jmp pc ins vm =
    if op ins.code == 0x00
    then jump pc ins.k vm
    else branch pc ins vm (take_jump (op ins.code) vm.a (rhs_of ins vm))

ret : BpfInsn → Vm → Run Outcome
ret ins vm = done (
    returned (if src ins.code == 0x08 then vm.x else if mode ins.code == 0x10 then vm.a else ins.k))

misc : ℕ → BpfInsn → Vm → Run Outcome
misc pc ins vm =
    if ins.code == 0x07
    then set_x pc vm vm.a
    else if ins.code == 0x87
    then set_a pc vm vm.x
    else kill

-- One round of the loop, after the fetch.
unfoldable pub execute : SeccompData → ℕ → BpfInsn → Vm → Run Outcome
unfolding ld ldx st stx alu jmp ret misc class size mode op src load_word
execute d pc ins vm =
    if class ins.code == 0x00
    then ld d pc ins vm
    else if class ins.code == 0x01
    then ldx pc ins vm
    else if class ins.code == 0x02
    then st pc ins vm
    else if class ins.code == 0x03
    then stx pc ins vm
    else if class ins.code == 0x04
    then alu pc ins vm
    else if class ins.code == 0x05
    then jmp pc ins vm
    else if class ins.code == 0x06
    then ret ins vm
    else if class ins.code == 0x07
    then misc pc ins vm
    else kill

-- The rest of a round, and what follows it.
abbrev resume : (ℕ → Vm → Run ℕ) → Run Outcome → Run ℕ
resume again panic = panic
resume again (done (returned v)) = done v
resume again (done (at pc vm)) = again pc vm

abbrev fetched : SeccompData → (ℕ → Vm → Run ℕ) → ℕ → Vm → Option BpfInsn → Run ℕ
fetched d again pc vm none = done ret_kill_process
fetched d again pc vm (some ins) = resume again (execute d pc ins vm)

-- The loop, with the rounds that are left; it ends at the step limit and past the program.
unfoldable pub run_from : List BpfInsn → SeccompData → ℕ → ℕ → Vm → Run ℕ
run_from program d zero pc vm = done ret_kill_process
run_from program d (suc steps) pc vm =
    fetched d (λ pc' vm'. run_from program d steps pc' vm') pc vm (get_elem? program pc)

unfoldable pub run : List BpfInsn → SeccompData → Run ℕ
unfolding run_from execute new
run program d = run_from program d 4096 0 new
