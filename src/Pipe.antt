-- ===== src/Pipe.antt =====
-- src/syscall/pipe.rs, `struct Pipe`: a byte ring of fixed size between a reader and a writer.
-- `none` of the source's slices becomes `panic`: an index out of range or a subtraction below 0.
pub mod Window
pub mod Reading
pub mod Writing
pub mod Fifo
pub mod Table
mod Tests
use rustos.Prelude.{
  ℕ, zero, suc, ◌+◌, ◌-◌, ◌%◌, ◌≤◌, ◌<◌, ◌≡◌, min, Bool, true, false, not, ◌&&◌, List, replicate,
  length, Run, done, ◌>>=◌, sub_checked, index, store,
}

-- PIPE_BUF_SIZE
abbrev pub pipe_buf_size : ℕ
pipe_buf_size = 4096

pub record Pipe : Type 0 where
  pub buffer : List ℕ
  pub read_pos : ℕ
  pub write_pos : ℕ
  pub count : ℕ
  pub read_open : Bool
  pub write_open : Bool

pub new : Pipe
new = record {
  buffer = replicate pipe_buf_size 0;
  read_pos = 0;
  write_pos = 0;
  count = 0;
  read_open = true;
  write_open = true;
}

-- The body of the loop in `read`, for `rounds` indices from `i` on.
pub read_loop : ℕ → ℕ → Pipe → List ℕ → Run (List ℕ × Pipe)
read_loop zero i p buf = done (buf, p)
read_loop (suc rounds) i p buf = do
  byte ← index p.buffer p.read_pos
  buf' ← store buf i byte
  read_loop rounds (i + 1) (record p { read_pos = (p.read_pos + 1) % pipe_buf_size }) buf'

-- The number of bytes read, the caller's slice and the pipe afterwards.
pub read : Pipe → List ℕ → Run (ℕ × List ℕ × Pipe)
read p buf = do
  let to_read = min (length buf) p.count
  (buf', p') ← read_loop to_read 0 p buf
  count ← sub_checked p'.count to_read
  done (to_read, buf', record p' { count = count })

pub write_loop : ℕ → ℕ → Pipe → List ℕ → Run Pipe
write_loop zero i p bytes = done p
write_loop (suc rounds) i p bytes = do
  byte ← index bytes i
  buffer ← store p.buffer p.write_pos byte
  write_loop rounds (i + 1)
      (record p { buffer = buffer; write_pos = (p.write_pos + 1) % pipe_buf_size }) bytes

pub write : Pipe → List ℕ → Run (ℕ × Pipe)
write p bytes = do
  available ← sub_checked pipe_buf_size p.count
  let to_write = min (length bytes) available
  p' ← write_loop to_write 0 p bytes
  done (to_write, record p' { count = p'.count + to_write })

pub available : Pipe → ℕ
available p = p.count

pub close_read : Pipe → Pipe
close_read p = record p { read_open = false }

pub close_write : Pipe → Pipe
close_write p = record p { write_open = false }

pub is_closed : Pipe → Bool
is_closed p = not p.read_open && not p.write_open

pub write_closed : Pipe → Bool
write_closed p = not p.write_open

pub read_closed : Pipe → Bool
read_closed p = not p.read_open

-- The positions lie in the buffer, and the writer is `count` bytes ahead of the reader.
pub record IsValid (p : Pipe) : Type 0 where
  pub sized : length p.buffer ≡ pipe_buf_size
  pub reads_inside : p.read_pos < pipe_buf_size
  pub fits : p.count ≤ pipe_buf_size
  pub ahead : p.write_pos ≡ (p.read_pos + p.count) % pipe_buf_size
