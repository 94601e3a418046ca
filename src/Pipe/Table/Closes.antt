-- ===== src/Pipe/Table/Closes.antt =====
-- `pipe_close_read` and `pipe_close_write` refine the hang-ups of a channel.
use rustos.Prelude.{
  ℕ, ◌≡◌, refl, sym, inl, inr, Bool, true, false, not, ◌&&◌, Option, none, some, arith, ◌==◌,
  if◌then◌else◌, Bool-cases, Option-cases, subst,
}
use mathlib.Core.Option
use rustos.Pipe
use rustos.Pipe.{Pipe, pipe_buf_size}
use rustos.Pipe.Window.{contents}
use rustos.Pipe.Table.{PipeTable, get, update, cleanup, pipe_close_read, pipe_close_write}
use rustos.Pipe.Table.Slots.{get-close, close_missing, remains, length-close}
use rustos.Pipe.Table.Invariant.{IsValid, IsLive, if-IsLive}
use rustos.Pipe.Table.Channel.{channel, view, hang_up_reader, hang_up_writer}
use rustos.Pipe.Table.Becomes.{Becomes, kept-Becomes, view-none, view-some, IsLive-of_get}

remains-IsLive : (p : Pipe) → Pipe.IsValid p → IsLive (remains p)
remains-IsLive p v = elim (Bool-cases (Pipe.is_closed p)) [
  | inl closed ↦ rw closed tt
  | inr live ↦ rw live (v, live)
]

close-Becomes :
    (t : PipeTable) (id : ℕ) (f : Pipe → Pipe) (p : Pipe)
    → IsValid t
    → get t id ≡ some p
    → Pipe.IsValid (f p)
    → Becomes t id (Option.map channel (remains (f p))) (cleanup (update t id f) id)
unfolding view
close-Becomes t id f p v h valid = record {
  valid = record {
    sized = omega (arith, v.sized, length-close t id f);
    live = λ j.
        subst IsLive (sym (get-close t id j f p h))
          (if-IsLive (id == j) (remains (f p)) (get t j) (remains-IsLive (f p) valid) (v.live j));
  };
  views = λ j. rw (get-close t id j f p h) (map_if (id == j) (remains (f p)) (get t j));
}
  where
    map_if :
        (b : Bool) (o o' : Option Pipe)
        → Option.map channel (if b then o else o')
          ≡ (if b then Option.map channel o else Option.map channel o')
    map_if true o o' = refl
    map_if false o o' = refl

reader_leaves :
    (writer : Bool) (p : Pipe)
    → Option.map channel (if not false && not writer then none else some p)
      ≡ (if writer then some (channel p) else none)
reader_leaves true p = refl
reader_leaves false p = refl

writer_leaves :
    (reader : Bool) (p : Pipe)
    → Option.map channel (if not reader && not false then none else some p)
      ≡ (if reader then some (channel p) else none)
writer_leaves true p = refl
writer_leaves false p = refl

-- From a valid table `pipe_close_read` leaves a valid table in which the read end of this pipe is
-- closed, or the pipe is gone if its write end was closed already. No other pipe changes.
pub pipe_close_read-hang_up_reader :
    (t : PipeTable) (id : ℕ)
    → IsValid t
    → Becomes t id (hang_up_reader (view t id)) (pipe_close_read t id)
unfolding pipe_close_read hang_up_reader Pipe.close_read Pipe.is_closed channel contents
pipe_close_read-hang_up_reader t id v = elim (Option-cases (get t id)) [
  | inl h ↦
      let gone : view t id ≡ none = view-none t id h in
      rw (gone, close_missing t id Pipe.close_read h) (rw (← gone) (kept-Becomes t id v))
  | inr (p, h) ↦
      let valid : Pipe.IsValid p = (IsLive-of_get t id p v h).0 in
      let e : Option.map channel (remains (Pipe.close_read p)) ≡ hang_up_reader (some (channel p)) =
        reader_leaves p.write_open (Pipe.close_read p) in
      rw (view-some t id p h, ← e)
        (close-Becomes t id Pipe.close_read p v h (record {
          sized = valid.sized;
          reads_inside = valid.reads_inside;
          fits = valid.fits;
          ahead = valid.ahead;
        }))
]

-- From a valid table `pipe_close_write` leaves a valid table in which the write end of this pipe is
-- closed, or the pipe is gone if its read end was closed already. No other pipe changes.
pub pipe_close_write-hang_up_writer :
    (t : PipeTable) (id : ℕ)
    → IsValid t
    → Becomes t id (hang_up_writer (view t id)) (pipe_close_write t id)
unfolding pipe_close_write hang_up_writer Pipe.close_write Pipe.is_closed channel contents
pipe_close_write-hang_up_writer t id v = elim (Option-cases (get t id)) [
  | inl h ↦
      let gone : view t id ≡ none = view-none t id h in
      rw (gone, close_missing t id Pipe.close_write h) (rw (← gone) (kept-Becomes t id v))
  | inr (p, h) ↦
      let valid : Pipe.IsValid p = (IsLive-of_get t id p v h).0 in
      let e : Option.map channel (remains (Pipe.close_write p))
          ≡ hang_up_writer (some (channel p)) =
        writer_leaves p.read_open (Pipe.close_write p) in
      rw (view-some t id p h, ← e)
        (close-Becomes t id Pipe.close_write p v h (record {
          sized = valid.sized;
          reads_inside = valid.reads_inside;
          fits = valid.fits;
          ahead = valid.ahead;
        }))
]
