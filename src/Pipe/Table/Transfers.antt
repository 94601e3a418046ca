-- ===== src/Pipe/Table/Transfers.antt =====
-- `pipe_read` and `pipe_write` refine `receive` and `send`: from a valid table they do not panic,
-- and give the specified result.
use rustos.Prelude.{
  ℕ, ◌≡◌, refl, inl, inr, Bool, true, false, not, Option, none, some, List, arith, ◌==◌,
  if◌then◌else◌, Bool-cases, Option-cases, Result, ok, err, Run, done, subst,
}
use rustos.Pipe
use rustos.Pipe.{Pipe, pipe_buf_size}
use rustos.Pipe.Window.{length-contents}
use rustos.Pipe.Reading.{read_lem}
use rustos.Pipe.Writing.{write_lem}
use rustos.Pipe.Table.{PipeTable, PipeError, would_block, get, put, pipe_read, pipe_write}
use rustos.Pipe.Table.Invariant.{IsValid}
use rustos.Pipe.Table.Channel.{Channel, channel, view, receive, send}
use rustos.Pipe.Table.Becomes.{
  Becomes, kept-Becomes, view-none, view-some, kept_some-Becomes, put-Becomes, IsLive-of_get,
}

abbrev Reads : PipeTable → ℕ → List ℕ → Option Channel → Type 0
Reads t id buf c =
    (t' : PipeTable) × (pipe_read t id buf ≡ done ((receive c buf).0, (receive c buf).1, t'))
    × Becomes t id (receive c buf).2 t'

-- The reply to a read of an empty pipe.
empty_reply :
    (open_still : Bool) (buf : List ℕ) (t : PipeTable)
    → ◌≡◌ {A = Run (Result ℕ PipeError × List ℕ × PipeTable)}
        (if not open_still then done (ok 0, buf, t) else done (err would_block, buf, t))
        (done (if open_still then err would_block else ok 0, buf, t))
empty_reply true buf t = refl
empty_reply false buf t = refl

pipe_read_found :
    (t : PipeTable) (id : ℕ) (buf : List ℕ) (p : Pipe)
    → IsValid t
    → get t id ≡ some p
    → Reads t id buf (some (channel p))
unfolding pipe_read receive channel Pipe.available Pipe.write_closed Pipe.is_closed
pipe_read_found t id buf p v h = elim (Bool-cases (p.count == 0)) [
  | inl empty ↦
      rw (length-contents p, empty)
        (t, rw (h, pipe_read, empty) (empty_reply p.write_open buf t), kept_some-Becomes t id p v h)
  | inr filled ↦
      let (valid, open_still) = IsLive-of_get t id p v h in
      let (p', e, valid', c, r, w) = read_lem p buf valid in
      rw (length-contents p, filled)
        (
          put t id (some p'),
          rw (h, pipe_read, filled, e, length-contents p),
          put-Becomes t id p p' _ v h (valid', rw (r, w) open_still) (ground (arith, c, r, w)),
        )
]

-- From a valid table `pipe_read` does not panic and leaves the table valid. Its answer, the caller's
-- slice and the pipe afterwards are those that `receive` gives for the channel that the pipe stands
-- for: a missing pipe is an error; an empty one reads as the end of the stream if its write end is
-- closed and else would block; otherwise the oldest bytes are taken, as many as the slice has room
-- for. No other pipe changes.
pub pipe_read-receive :
    (t : PipeTable) (id : ℕ) (buf : List ℕ) → IsValid t → Reads t id buf (view t id)
unfolding pipe_read receive
pipe_read-receive t id buf v = elim (Option-cases (get t id)) [
  | inl h ↦
      let gone : view t id ≡ none = view-none t id h in
      rw gone (t, rw (h, pipe_read), rw (← gone) (kept-Becomes t id v))
  | inr (p, h) ↦ rw (view-some t id p h) (pipe_read_found t id buf p v h)
]

abbrev Writes : PipeTable → ℕ → List ℕ → Option Channel → Type 0
Writes t id bytes c =
    (t' : PipeTable) × (pipe_write t id bytes ≡ done ((send c bytes).0, t'))
    × Becomes t id (send c bytes).1 t'

pipe_write_found :
    (t : PipeTable) (id : ℕ) (bytes : List ℕ) (p : Pipe)
    → IsValid t
    → get t id ≡ some p
    → (r : Bool) → p.read_open ≡ r
    → Writes t id bytes (some (record (channel p) { read_open = r }))
unfolding pipe_write send channel Pipe.read_closed Pipe.is_closed
pipe_write_found t id bytes p v h false shut =
    let e : channel p ≡ record (channel p) { read_open = false } = ground (arith, shut) in
    (
      t,
      rw (h, pipe_write, shut),
      subst (λ c. Becomes t id (some c) t) e (kept_some-Becomes t id p v h),
    )
pipe_write_found t id bytes p v h true open_still =
    let (valid, live) = IsLive-of_get t id p v h in
    let (p', e, valid', c, r, w) = write_lem p bytes valid in
    (
      put t id (some p'),
      rw (h, pipe_write, e, open_still),
      put-Becomes t id p p' _ v h (valid', rw (r, w) live) (ground (arith, c, r, w)),
    )

-- From a valid table `pipe_write` does not panic and leaves the table valid. Its answer and the pipe
-- afterwards are those that `send` gives for the channel that the pipe stands for: a missing pipe or
-- one whose read end is closed is an error; otherwise the first bytes are appended, as many as there
-- is room for, and the call would block if there were bytes to write and none fits. No other pipe
-- changes.
pub pipe_write-send :
    (t : PipeTable) (id : ℕ) (bytes : List ℕ) → IsValid t → Writes t id bytes (view t id)
unfolding pipe_write send channel
pipe_write-send t id bytes v = elim (Option-cases (get t id)) [
  | inl h ↦
      let gone : view t id ≡ none = view-none t id h in
      rw gone (t, rw (h, pipe_write), rw (← gone) (kept-Becomes t id v))
  | inr (p, h) ↦ rw (view-some t id p h) (pipe_write_found t id bytes p v h p.read_open refl)
]
