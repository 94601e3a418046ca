-- ===== src/Pipe/Table/Channel.antt =====
-- What a pipe promises: a channel that holds bytes, oldest first, with two ends that are open or
-- closed. `view` forgets the ring and the slots; the functions on channels specify the calls.
use rustos.Prelude.{
  ℕ, ◌-◌, ◌≡◌, ◌<◌, inl, inr, refl, Bool, true, false, not, ◌&&◌, Option, none, some, List, [],
  ◌++◌, length, min, take, drop, ◌==◌, ==_iff, if◌then◌else◌, Bool-cases, Result, ok, err,
}
use mathlib.Core.Option
use rustos.Pipe
use rustos.Pipe.{Pipe, pipe_buf_size}
use rustos.Pipe.Window.{contents}
use rustos.Pipe.Table.{PipeTable, PipeError, invalid_pipe, would_block, broken_pipe, get, put}
use rustos.Pipe.Table.Slots.{get-put}

pub record Channel : Type 0 where
  pub bytes : List ℕ
  pub read_open : Bool
  pub write_open : Bool

unfoldable pub channel : Pipe → Channel
channel p = record { bytes = contents p; read_open = p.read_open; write_open = p.write_open }

unfoldable pub view : PipeTable → ℕ → Option Channel
view t id = Option.map channel (get t id)

-- A reader waits for an empty channel while it may still be written to.
unfoldable pub receive : Option Channel → List ℕ → Result ℕ PipeError × List ℕ × Option Channel
receive none buf = (err invalid_pipe, buf, none)
receive (some c) buf =
    if length c.bytes == 0 then (if c.write_open then err would_block else ok 0, buf, some c) else (
      ok (min (length buf) (length c.bytes)),
      take (length buf) c.bytes ++ drop (length c.bytes) buf,
      some (record c { bytes = drop (length buf) c.bytes }),
    )

-- A writer fails once nobody can read, and waits for a full channel.
unfoldable pub send : Option Channel → List ℕ → Result ℕ PipeError × Option Channel
send none bytes = (err invalid_pipe, none)
send (some c) bytes =
    if c.read_open
    then (
      if min (length bytes) (pipe_buf_size - length c.bytes) == 0 && not (length bytes == 0)
          then err would_block
          else ok (min (length bytes) (pipe_buf_size - length c.bytes)),
      some (record c { bytes = c.bytes ++ take (pipe_buf_size - length c.bytes) bytes }),
    )
    else (err broken_pipe, some c)

-- The channel goes with its second end.
unfoldable pub hang_up_reader : Option Channel → Option Channel
hang_up_reader none = none
hang_up_reader (some c) = if c.write_open then some (record c { read_open = false }) else none

unfoldable pub hang_up_writer : Option Channel → Option Channel
hang_up_writer none = none
hang_up_writer (some c) = if c.read_open then some (record c { write_open = false }) else none

pub view-put :
    (t : PipeTable) (id j : ℕ) (o : Option Pipe)
    → id < length t.pipes
    → view (put t id o) j ≡ (if id == j then Option.map channel o else view t j)
unfolding view
view-put t id j o h = elim (Bool-cases (id == j)) [
  | inl same ↦ rw (get-put t id j o h, same)
  | inr other ↦ rw (get-put t id j o h, other)
]

-- A call that leaves a slot as it is.
pub view_kept :
    (t : PipeTable) (id j : ℕ) (o : Option Channel)
    → view t id ≡ o
    → view t j ≡ (if id == j then o else view t j)
view_kept t id j o h = elim (Bool-cases (id == j)) [
  | inl same ↦ rw (same, ← (==_iff id j).0 same) h
  | inr other ↦ rw other
]

-- A new channel.
abbrev pub fresh : Channel
fresh = record { bytes = []; read_open = true; write_open = true }

pub channel-new : channel Pipe.new ≡ fresh
unfolding channel contents Pipe.Window.window Pipe.new
channel-new = refl
