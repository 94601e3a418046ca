-- ===== src/Filedesc/Sharing.antt =====
-- A duplicate of a pipe end is no second reference to it: src/syscall/pipe.rs counts no references,
-- so the close of either descriptor closes the end for both.
use rustos.Prelude.{
  ℕ, ◌≤◌, ◌<◌, ◌≡◌, refl, ◌∙◌, subst, true, false, Option, none, some, arith, ◌==◌, ==_false_iff,
  ==-refl, done, leb,
}
use rustos.Pipe.Table.{PipeTable, pipe_close_write, pipe_write_closed}
use rustos.Pipe.Table.Invariant as PipesInvariant
use rustos.Pipe.Table.Closes.{pipe_close_write-hang_up_writer}
use rustos.Pipe.Table.Channel.{view, hang_up_writer}
use rustos.Pipe.Table.Becomes.{Becomes}
use rustos.Pipe.Table.Queries.{pipe_write_closed_hung_up}
use rustos.Filedesc.{FdTable, OpenFile, pipe_write, max_open_files, release, close, dup}
use rustos.Filedesc.Slots.{file, IsValid}
use rustos.Filedesc.Opening.{Dups, Installs, dup-Dups}
use rustos.Filedesc.Closing.{close-Closes}

-- The duplicate of an open descriptor, where a descriptor is free.
dup_found :
    (t : FdTable) (fd free : ℕ) (f : OpenFile) (r : Option ℕ) (t' : FdTable)
    → Installs t f r t'
    → 3 ≤ free
    → free < max_open_files
    → file t free ≡ none
    → (new_fd : ℕ) × (r ≡ some new_fd) × Installs t f (some new_fd) t'
dup_found t fd free f none t' l a b e = absurd (l.1 free a b e)
dup_found t fd free f (some new_fd) t' l a b e = (new_fd, refl, l)

-- In valid tables, where a descriptor from 3 on is free: `dup` of a descriptor of the write end of a
-- pipe, and then `close` of the duplicate, leave the original descriptor open on that pipe and the
-- pipe's write end closed.
pub dup-close-write_closed :
    (t : FdTable) (pipes : PipeTable) (fd free id : ℕ) (f : OpenFile)
    → IsValid t
    → PipesInvariant.IsValid pipes
    → file t fd ≡ some f
    → f.kind ≡ pipe_write id
    → 3 ≤ free
    → free < max_open_files
    → file t free ≡ none
    → (new_fd : ℕ) × (t' t'' : FdTable) × (pipes' : PipeTable) × (dup t fd ≡ done (some new_fd, t'))
      × (close t' pipes new_fd ≡ done (true, t'', pipes'))
      × (file t'' fd ≡ some f)
      × (pipe_write_closed pipes' id ≡ true)
unfolding release
dup-close-write_closed t pipes fd free id f v pv e kind a b none_free =
    let dups : Dups t fd (some f) = subst (Dups t fd) e (dup-Dups t fd v) in
    let (r, t', run, v', l) = dups in
    let (new_fd, r_is, k) = dup_found t fd free f r t' l a b none_free in
    let copied : file t' new_fd ≡ some f = rw (k.4 new_fd, ==-refl new_fd) in
    let ((closed, t'', pipes'), run', c) = close-Closes t' pipes new_fd v' in
    let low : leb 3 new_fd ≡ true = ground (arith, k.0) in
    let closed_so : closed ≡ true = c.0 ∙ rw (copied, low) in
    let hung : pipes' ≡ pipe_close_write pipes id = c.3 ∙ rw (closed_so, copied, kind) in
    let other : (new_fd == fd) ≡ false = (==_false_iff new_fd fd).1 (λ same. cc (same, k.2, e)) in
    let becomes : Becomes pipes id (hang_up_writer (view pipes id)) (pipe_close_write pipes id) =
      pipe_close_write-hang_up_writer pipes id pv in
    let seen : view (pipe_close_write pipes id) id ≡ hang_up_writer (view pipes id) =
      rw (==-refl id) at (becomes.views id) in
    (
      new_fd,
      t',
      t'',
      pipes',
      rw (← r_is) run,
      rw (← closed_so) run',
      c.2 fd ∙ rw (closed_so, other, k.4 fd, other) e,
      rw hung (pipe_write_closed_hung_up (pipe_close_write pipes id) id (view pipes id) seen),
    )
