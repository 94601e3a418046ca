-- ===== src/Filedesc.antt =====
-- src/syscall/filedesc.rs: `FileDescriptorTable`, with the table of pipes that a close reaches, and
-- `sys_pipe` of src/syscall/handler.rs, which fills it.
-- An index out of range panics; `usize` arithmetic panics on overflow, as in the debug profile that
-- build.sh builds.
pub mod Slots
pub mod Opening
pub mod Closing
pub mod Pipes
pub mod Sharing
pub mod Seeking
mod Tests
use Prim.Native.String.{String}
use rustos.Prelude.{
  ℕ, zero, suc, ◌+◌, ◌-◌, ◌^◌, ◌≡◌, Bool, true, false, not, ◌&&◌, ◌||◌, Option, none, some, List,
  [], Run, done, panic, ◌>>=◌, index, store, ltb, leb, ◌==◌, if◌then◌else◌, length, replicate, set,
  ℤ, pos, negsuc,
}
use rustos.Pipe.Table.{PipeTable, create, pipe_close_read, pipe_close_write}

-- MAX_OPEN_FILES
abbrev pub max_open_files : ℕ
max_open_files = 256

abbrev o_rdonly : ℕ
o_rdonly = 0

abbrev o_wronly : ℕ
o_wronly = 1

pub data FileKind : Type 0 where
  regular : FileKind
  pipe_read pipe_write : ℕ → FileKind

pub record OpenFile : Type 0 where
  pub path : String
  flags : ℕ
  pub offset : ℕ
  pub is_open : Bool
  pub kind : FileKind

-- `OpenFile::new`, `new_pipe_read`, `new_pipe_write`
pub new_file : String → ℕ → OpenFile
new_file path flags = record {
  path = path;
  flags = flags;
  offset = 0;
  is_open = true;
  kind = regular;
}

pub new_pipe_read : ℕ → OpenFile
new_pipe_read id = record {
  path = "[pipe]";
  flags = o_rdonly;
  offset = 0;
  is_open = true;
  kind = pipe_read id;
}

pub new_pipe_write : ℕ → OpenFile
new_pipe_write id = record {
  path = "[pipe]";
  flags = o_wronly;
  offset = 0;
  is_open = true;
  kind = pipe_write id;
}

pub record FdTable : Type 0 where
  pub files : List (Option OpenFile)

-- `with_stdio`: `resize_with` on the empty vector, then the three standard streams.
pub with_stdio : FdTable
with_stdio = record {
  files =
      set
        (set (set (replicate max_open_files none) 0 (some (new_file "/dev/stdin" o_rdonly))) 1
          (some (new_file "/dev/stdout" o_wronly)))
        2 (some (new_file "/dev/stderr" o_wronly));
}

-- The loop `for fd in 3..MAX_OPEN_FILES` up to the first free slot, for `rounds` numbers from `fd`.
pub first_free : ℕ → ℕ → List (Option OpenFile) → Run (Option ℕ)
first_free zero fd files = done none
first_free (suc rounds) fd files = do
  slot ← index files fd
  elim slot [ none ↦ done (some fd) | some f ↦ first_free rounds (fd + 1) files ]

-- What `open`, `dup` and the two pipe functions do with that loop.
pub install : FdTable → OpenFile → Run (Option ℕ × FdTable)
install t file = do
  found ← first_free (max_open_files - 3) 3 t.files
  elim found [
    | none ↦ done (none, t)
    | some fd ↦ (do files ← store t.files fd (some file); done (some fd, record { files = files }))
  ]

pub open_file : FdTable → String → ℕ → Run (Option ℕ × FdTable)
open_file t path flags = install t (new_file path flags)

pub open_pipe_read : FdTable → ℕ → Run (Option ℕ × FdTable)
open_pipe_read t id = install t (new_pipe_read id)

pub open_pipe_write : FdTable → ℕ → Run (Option ℕ × FdTable)
open_pipe_write t id = install t (new_pipe_write id)

-- `get`, and `get_mut` for its test
pub get : FdTable → ℕ → Run (Option OpenFile)
get t fd = if ltb fd max_open_files then index t.files fd else done none

pub is_valid : FdTable → ℕ → Run Bool
is_valid t fd =
    if leb max_open_files fd
    then done false
    else (do slot ← index t.files fd; elim slot [ none ↦ done false | some f ↦ done f.is_open ])

-- What the close of a file does to the pipes.
pub release : FileKind → PipeTable → PipeTable
release regular pipes = pipes
release (pipe_read id) pipes = pipe_close_read pipes id
release (pipe_write id) pipes = pipe_close_write pipes id

pub close_with_pipe_cleanup : FdTable → PipeTable → ℕ → Run (FdTable × PipeTable)
close_with_pipe_cleanup t pipes fd = if leb max_open_files fd then done (t, pipes) else (do
  slot ← index t.files fd
  files ← store t.files fd none
  elim slot [
    | none ↦ done (record { files = files }, pipes)
    | some f ↦ done (record { files = files }, release f.kind pipes)
  ])

pub close : FdTable → PipeTable → ℕ → Run (Bool × FdTable × PipeTable)
close t pipes fd = if ltb fd 3 || leb max_open_files fd then done (false, t, pipes) else (do
  slot ← index t.files fd
  elim slot [
    | none ↦ done (false, t, pipes)
    | some f ↦ (do (t', pipes') ← close_with_pipe_cleanup t pipes fd; done (true, t', pipes'))
  ])

-- The copy that `dup` and `dup2` store.
abbrev pub copy : OpenFile → OpenFile
copy f = record f { is_open = true }

pub dup : FdTable → ℕ → Run (Option ℕ × FdTable)
dup t old_fd = do
  valid ← is_valid t old_fd
  elim valid [
    | false ↦ done (none, t)
    | true ↦ (do
      slot ← index t.files old_fd
      elim slot [ none ↦ panic | some f ↦ install t (copy f) ])
  ]

-- `dup2` on two different descriptors in range, the first one open.
pub replace : FdTable → PipeTable → ℕ → ℕ → Run (Option ℕ × FdTable × PipeTable)
replace t pipes old_fd new_fd = do
  (t', pipes') ← close_with_pipe_cleanup t pipes new_fd
  slot ← index t'.files old_fd
  elim slot [
    | none ↦ panic
    | some f ↦ (do
      files ← store t'.files new_fd (some (copy f))
      done (some new_fd, record { files = files }, pipes'))
  ]

pub dup2 : FdTable → PipeTable → ℕ → ℕ → Run (Option ℕ × FdTable × PipeTable)
unfolding replace
dup2 t pipes old_fd new_fd = do
  valid ← is_valid t old_fd
  (if not valid || leb max_open_files new_fd
      then done (none, t, pipes)
      else if old_fd == new_fd
      then done (some new_fd, t, pipes)
      else replace t pipes old_fd new_fd)

-- `sys_pipe` from the second descriptor on.
pub open_writer : FdTable → PipeTable → ℕ → ℕ → Run (Option (ℕ × ℕ) × FdTable × PipeTable)
open_writer t pipes id read_fd = do
  (writer, t') ← open_pipe_write t id
  elim writer [
    | none ↦ (do
      (closed, without_reader, hung_up) ← close t' pipes read_fd
      done (none, without_reader, pipe_close_write hung_up id))
    | some write_fd ↦ done (some (read_fd, write_fd), t', pipes)
  ]

-- `sys_pipe` from the first descriptor on, with the answer of `create_pipe`.
pub open_ends : FdTable → Option ℕ × PipeTable → Run (Option (ℕ × ℕ) × FdTable × PipeTable)
unfolding open_writer
open_ends t (none, made) = done (none, t, made)
open_ends t (some id, made) = do
  (reader, t') ← open_pipe_read t id
  elim reader [
    | none ↦ done (none, t', pipe_close_write (pipe_close_read made id) id)
    | some read_fd ↦ open_writer t' made id read_fd
  ]

-- `sys_pipe` behind its test of the user pointer: the two descriptors that it writes there, if any.
pub sys_pipe : FdTable → PipeTable → Run (Option (ℕ × ℕ) × FdTable × PipeTable)
unfolding open_ends
sys_pipe t pipes = open_ends t (create pipes)

-- A step from `base`: a negation or a sum that overflows panics.
pub seek_from : ℕ → ℤ → Run (Option ℕ)
seek_from base (pos n) = if ltb (base + n) (2 ^ 64) then done (some (base + n)) else panic
seek_from base (negsuc n) =
    if leb (2 ^ 63) (suc n)
    then panic
    else if leb (suc n) base
    then done (some (base - suc n))
    else done none

pub new_offset : ℕ → ℤ → ℕ → ℕ → Run (Option ℕ)
new_offset zero (pos n) current file_size = done (some n)
new_offset zero (negsuc n) current file_size = done none
new_offset (suc zero) offset current file_size = seek_from current offset
new_offset (suc (suc zero)) offset current file_size = seek_from file_size offset
new_offset (suc (suc (suc whence))) offset current file_size = done none

pub lseek : FdTable → ℕ → ℤ → ℕ → ℕ → Run (Option ℕ × FdTable)
lseek t fd offset whence file_size = do
  slot ← index t.files fd
  elim slot [
    | none ↦ done (none, t)
    | some f ↦ (do
      target ← new_offset whence offset f.offset file_size
      elim target [
        | none ↦ done (none, t)
        | some n ↦ (do
          files ← store t.files fd (some (record f { offset = n }))
          done (some n, record { files = files }))
      ])
  ]
