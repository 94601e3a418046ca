-- ===== src/Pipe/Table/Queries.antt =====
-- The queries that poll(2) asks of a pipe tell what a call would do.
use rustos.Prelude.{
  ℕ, ◌≡◌, ◌↔◌, ◌≢◌, refl, inl, inr, Option, true, ◌||◌, List, [], ◌∷◌, arith, ltb, Option-cases, ok,
  err,
}
use rustos.Pipe
use rustos.Pipe.{Pipe, pipe_buf_size}
use rustos.Pipe.Window.{length-contents}
use rustos.Pipe.Table.{
  PipeTable, would_block, get, pipe_bytes_available, pipe_writable, pipe_write_closed,
}
use rustos.Pipe.Table.Channel.{Channel, channel, view, receive, send, hang_up_writer}

-- `pipe_writable` holds just when a write of one byte would take it.
pipe_writable-send :
    (t : PipeTable) (id byte : ℕ)
    → (pipe_writable t id ≡ true) ↔ ((send (view t id) (byte ∷ [])).0 ≡ ok 1)
unfolding pipe_writable send view channel Pipe.available Pipe.read_closed
pipe_writable-send t id byte = elim (Option-cases (get t id)) [
  | inl h ↦ rw (h, pipe_writable) (λ w. cc, λ w. cc)
  | inr (p, h) ↦ rw (h, pipe_writable, length-contents p) (λ w. ground arith, λ w. ground arith)
]

-- There are bytes to read or the write end is closed (or there is no pipe), as poll(2) asks, just
-- when a read gets an answer other than "would block".
readable-receive :
    (t : PipeTable) (id : ℕ) (buf : List ℕ)
    → ((ltb 0 (pipe_bytes_available t id) || pipe_write_closed t id) ≡ true)
      ↔ ((receive (view t id) buf).0 ≢ err would_block)
unfolding pipe_bytes_available pipe_write_closed receive view channel Pipe.available
    Pipe.write_closed
readable-receive t id buf = elim (Option-cases (get t id)) [
  | inl h ↦ rw (h, pipe_bytes_available, pipe_write_closed) (λ w e. cc, λ w. refl)
  | inr (p, h) ↦
      rw (h, pipe_bytes_available, pipe_write_closed, length-contents p)
        (λ w. ground arith, λ w. ground arith)
]

-- Once its writer has hung up, a channel reads as closed.
pub pipe_write_closed_hung_up :
    (t : PipeTable) (id : ℕ) (c : Option Channel)
    → view t id ≡ hang_up_writer c
    → pipe_write_closed t id ≡ true
unfolding pipe_write_closed view hang_up_writer channel Pipe.write_closed
pipe_write_closed_hung_up t id c e = elim (Option-cases (get t id)) [
  | inl h ↦ rw (h, pipe_write_closed)
  | inr (p, h) ↦ rw (h, pipe_write_closed) (ground (arith, e))
]
