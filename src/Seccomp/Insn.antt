-- ===== src/Seccomp/Insn.antt =====
-- Instructions, the data that a filter reads, and the constants of src/seccomp.rs.
use Prim.Native.Nat.{bit_and}
use rustos.Prelude.{
  ℕ, zero, suc, ◌+◌, ◌*◌, ◌/◌, ◌%◌, ◌^◌, ◌<◌, List, [], ◌∷◌, ◌++◌, Option, none, some, get_or, ltb,
  if◌then◌else◌, Run, done, panic,
}

-- Fields of an opcode.
unfoldable pub class : ℕ → ℕ
class code = bit_and code 0x07

unfoldable pub size : ℕ → ℕ
size code = bit_and code 0x18

unfoldable pub mode : ℕ → ℕ
mode code = bit_and code 0xe0

unfoldable pub op : ℕ → ℕ
op code = bit_and code 0xf0

unfoldable pub src : ℕ → ℕ
src code = bit_and code 0x08

pub record BpfInsn : Type 0 where
  pub code : ℕ
  pub jt : ℕ
  pub jf : ℕ
  pub k : ℕ

-- `args` has six entries.
pub record SeccompData : Type 0 where
  pub nr : ℕ
  pub arch : ℕ
  pub instruction_pointer : ℕ
  pub args : List ℕ

-- The bytes of a little-endian integer of the given width.
abbrev le_bytes : ℕ → ℕ → List ℕ
le_bytes zero v = []
le_bytes (suc width) v = v % 256 ∷ le_bytes width (v / 256)

abbrev pub words : List ℕ → List ℕ
words [] = []
words (v ∷ vs) = le_bytes 8 v ++ words vs

-- The structure in memory.
data_bytes : SeccompData → List ℕ
data_bytes d =
    le_bytes 4 d.nr ++ le_bytes 4 d.arch ++ le_bytes 8 d.instruction_pointer ++ words d.args

from_le_bytes : List ℕ → ℕ
from_le_bytes [] = 0
from_le_bytes (b ∷ bs) = b + 256 * from_le_bytes bs

-- `off + 4` is a sum of `u32`s, which traps from 2 ^ 32.
unfoldable pub load_word : SeccompData → ℕ → Run (Option ℕ)
unfolding data_bytes from_le_bytes
load_word d off =
    let byte = λ (i : ℕ). get_or (data_bytes d) i 0 in
    if ltb (off + 4) (2 ^ 32)
    then (if ltb 64 (off + 4)
        then done none
        else done (
            some
              (from_le_bytes (byte off ∷ byte (off + 1) ∷ byte (off + 2) ∷ byte (off + 3) ∷ []))))
    else panic

abbrev pub ret_kill_process : ℕ
ret_kill_process = 0x8000_0000

abbrev pub ret_trap : ℕ
ret_trap = 0x0003_0000

abbrev pub ret_errno : ℕ
ret_errno = 0x0005_0000

abbrev pub ret_log : ℕ
ret_log = 0x7ffc_0000

abbrev pub ret_allow : ℕ
ret_allow = 0x7fff_0000

abbrev pub action_mask : ℕ
action_mask = 0xffff_0000

abbrev pub data_mask : ℕ
data_mask = 0x0000_ffff

-- Instructions whose fields have the widths of the type.
abbrev pub IsInsn : BpfInsn → Type 0
IsInsn i = (i.code < 2 ^ 16) × (i.jt < 2 ^ 8) × (i.jf < 2 ^ 8) × (i.k < 2 ^ 32)

abbrev pub IsProgram : List BpfInsn → Type 0
IsProgram [] = Unit
IsProgram (ins ∷ program) = IsInsn ins × IsProgram program
