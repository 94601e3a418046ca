-- ===== src/Pipe/Table.antt =====
-- src/syscall/pipe.rs, `struct PipeTable` and the functions on the global table. The table behind
-- `PIPE_TABLE` is passed on explicitly; each function holds its lock for the whole call.
pub mod Slots
pub mod Create
pub mod Invariant
pub mod Channel
pub mod Becomes
pub mod Transfers
pub mod Closes
pub mod Queries
use rustos.Prelude.{
  ℕ, suc, ◌+◌, ◌≤◌, ◌≡◌, Bool, true, false, not, ◌&&◌, Option, none, some, List, [], ◌∷◌, ◌++◌, Run,
  done, ◌>>=◌, Result, ok, err, length, get_elem?, set, ltb, ◌==◌, if◌then◌else◌,
}
use mathlib.Core.Option
use rustos.Pipe
use rustos.Pipe.{Pipe, pipe_buf_size}

-- MAX_PIPES
abbrev pub max_pipes : ℕ
max_pipes = 64

pub record PipeTable : Type 0 where
  pub pipes : List (Option Pipe)

pub data PipeError : Type 0 where
  invalid_pipe would_block broken_pipe : PipeError

pub new : PipeTable
new = record { pipes = [] }

-- The index of the first free slot: the loop of `create`.
pub find_free : List (Option Pipe) → Option ℕ
find_free [] = none
find_free (none ∷ slots) = some 0
find_free (some p ∷ slots) = Option.map suc (find_free slots)

pub create : PipeTable → Option ℕ × PipeTable
create t = elim (find_free t.pipes) [
  | some i ↦ (some i, record { pipes = set t.pipes i (some Pipe.new) })
  | none ↦
      if ltb (length t.pipes) max_pipes
      then (some (length t.pipes), record { pipes = t.pipes ++ some Pipe.new ∷ [] })
      else (none, t)
]

abbrev pub flatten {ℓ} : {A : Type ℓ} → Option (Option A) → Option A
flatten none = none
flatten (some o) = o

-- `get_mut`, and `pipes.get(id).and_then(|s| s.as_ref())`
pub get : PipeTable → ℕ → Option Pipe
get t id = flatten (get_elem? t.pipes id)

-- What is written through the reference that `get_mut` gives.
pub put : PipeTable → ℕ → Option Pipe → PipeTable
put t id slot = record { pipes = set t.pipes id slot }

pub cleanup : PipeTable → ℕ → PipeTable
cleanup t id = elim (get t id) [ none ↦ t | some p ↦ if Pipe.is_closed p then put t id none else t ]

pub pipe_read : PipeTable → ℕ → List ℕ → Run (Result ℕ PipeError × List ℕ × PipeTable)
pipe_read t id buf = elim (get t id) [
  | none ↦ done (err invalid_pipe, buf, t)
  | some p ↦
      if Pipe.available p == 0
      then (if Pipe.write_closed p then done (ok 0, buf, t) else done (err would_block, buf, t))
      else (do (n, buf', p') ← Pipe.read p buf; done (ok n, buf', put t id (some p')))
]

pub pipe_write : PipeTable → ℕ → List ℕ → Run (Result ℕ PipeError × PipeTable)
pipe_write t id bytes = elim (get t id) [
  | none ↦ done (err invalid_pipe, t)
  | some p ↦ if Pipe.read_closed p then done (err broken_pipe, t) else (do
    (written, p') ← Pipe.write p bytes
    done (
      if written == 0 && not (length bytes == 0) then err would_block else ok written,
      put t id (some p'),
    ))
]

pub pipe_bytes_available : PipeTable → ℕ → ℕ
pipe_bytes_available t id = elim (get t id) [ none ↦ 0 | some p ↦ Pipe.available p ]

pub pipe_writable : PipeTable → ℕ → Bool
pipe_writable t id = elim (get t id) [
  | some p ↦ ltb (Pipe.available p) pipe_buf_size && not (Pipe.read_closed p)
  | none ↦ false
]

pub pipe_write_closed : PipeTable → ℕ → Bool
pipe_write_closed t id = elim (get t id) [ none ↦ true | some p ↦ Pipe.write_closed p ]

pipe_read_closed : PipeTable → ℕ → Bool
pipe_read_closed t id = elim (get t id) [ none ↦ true | some p ↦ Pipe.read_closed p ]

-- `if let Some(pipe) = table.get_mut(id) { pipe.close_read(); }`
pub update : PipeTable → ℕ → (Pipe → Pipe) → PipeTable
update t id f = elim (get t id) [ none ↦ t | some p ↦ put t id (some (f p)) ]

pub pipe_close_read : PipeTable → ℕ → PipeTable
pipe_close_read t id = cleanup (update t id Pipe.close_read) id

pub pipe_close_write : PipeTable → ℕ → PipeTable
pipe_close_write t id = cleanup (update t id Pipe.close_write) id
