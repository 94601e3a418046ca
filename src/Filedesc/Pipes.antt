-- ===== src/Filedesc/Pipes.antt =====
-- `sys_pipe`: both descriptors or nothing; and what a duplicate of a pipe end shares.
use rustos.Prelude.{
  ℕ, ◌≡◌, ◌≢◌, refl, sym, ◌∙◌, ap, inl, inr, true, false, Option, none, some, arith, ◌==◌, ==_iff,
  ==_false_iff, ==-refl, if◌then◌else◌, Bool-cases, done, Run, leb,
}
use rustos.Pipe.Table.{PipeTable, create, pipe_close_read, pipe_close_write}
use rustos.Pipe.Table.Create.{Creates, create-Creates}
use rustos.Pipe.Table.Invariant as PipesInvariant
use rustos.Pipe.Table.Channel.{view, hang_up_reader, hang_up_writer, fresh, channel-new}
use rustos.Pipe.Table.Becomes.{Becomes, view-none}
use rustos.Pipe.Table.Invariant.{create-IsValid}
use rustos.Pipe.Table.Closes.{pipe_close_read-hang_up_reader, pipe_close_write-hang_up_writer}
use rustos.Filedesc.{
  FdTable, new_pipe_read, new_pipe_write, open_pipe_read, open_pipe_write, release, open_writer,
  open_ends, sys_pipe,
}
use rustos.Filedesc.Slots.{file, IsValid}
use rustos.Filedesc.Opening.{Installs, install_lem}
use rustos.Filedesc.Closing.{close-Closes}

view-create :
    (t t' : PipeTable) (id j : ℕ)
    → Creates t (some id, t')
    → view t' j ≡ (if id == j then some fresh else view t j)
unfolding view
view-create t t' id j c = elim (Bool-cases (id == j)) [
  | inl e ↦ rw (c.3 j, e, channel-new)
  | inr e ↦ rw (c.3 j, e)
]

-- Both ends of a fresh pipe closed, the read end first: the pipe is gone.
both_closed :
    (pipes : PipeTable) (id : ℕ)
    → PipesInvariant.IsValid pipes
    → view pipes id ≡ some fresh
    → Becomes pipes id none (pipe_close_write (pipe_close_read pipes id) id)
unfolding hang_up_reader hang_up_writer
both_closed pipes id v h =
    let half : PipeTable = pipe_close_read pipes id in
    let first : Becomes pipes id (hang_up_reader (view pipes id)) half =
      pipe_close_read-hang_up_reader pipes id v in
    let second : Becomes half id (hang_up_writer (view half id)) (pipe_close_write half id) =
      pipe_close_write-hang_up_writer half id first.valid in
    let left : view half id ≡ some (record fresh { read_open = false }) =
      rw (first.views id, ==-refl id, h) in
    record {
      valid = second.valid;
      views = λ j. elim (Bool-cases (id == j)) [
        | inl e ↦ rw (second.views j, e, left)
        | inr e ↦ rw (second.views j, e, first.views j, e)
      ];
    }

-- What `sys_pipe` leaves: two new descriptors for the two ends of a new pipe, or the descriptors
-- and the pipes as they were.
abbrev pub Piped : FdTable → PipeTable → Option (ℕ × ℕ) → FdTable → PipeTable → Type 0
Piped t pipes none t' pipes' =
    ((j : ℕ) → file t' j ≡ file t j) × ((id : ℕ) → view pipes' id ≡ view pipes id)
Piped t pipes (some (read_fd, write_fd)) t' pipes' =
    (id : ℕ) × (view pipes id ≡ none)
    × ((j : ℕ) → view pipes' j ≡ (if id == j then some fresh else view pipes j))
    × (file t read_fd ≡ none)
    × (file t write_fd ≡ none)
    × (read_fd ≢ write_fd)
    × ((j : ℕ)
        → file t' j ≡ (
            if write_fd == j
            then some (new_pipe_write id)
            else if read_fd == j
            then some (new_pipe_read id)
            else file t j))

abbrev Runs : FdTable → PipeTable → Run (Option (ℕ × ℕ) × FdTable × PipeTable) → Type 0
Runs t pipes run =
    (r : Option (ℕ × ℕ)) × (t' : FdTable) × (pipes' : PipeTable) × (run ≡ done (r, t', pipes'))
    × IsValid t'
    × PipesInvariant.IsValid pipes'
    × Piped t pipes r t' pipes'

-- A slot set and reset, where there was nothing before.
undone :
    {A : Type 0} (f : ℕ → Option A) (k j : ℕ) (a : A)
    → f k ≡ none
    → (if k == j then none else if k == j then some a else f j) ≡ f j
undone f k j a h = elim (Bool-cases (k == j)) [
  | inl e ↦ rw (e, ← (==_iff k j).0 e, h)
  | inr e ↦ rw e
]

gone_again :
    {A : Type 0} (f : ℕ → Option A) (k j : ℕ) → f k ≡ none → (if k == j then none else f j) ≡ f j
gone_again f k j h = elim (Bool-cases (k == j)) [
  | inl e ↦ rw (e, ← (==_iff k j).0 e, h)
  | inr e ↦ rw e
]

module _ (t : FdTable) (pipes made : PipeTable) (id : ℕ) (v : IsValid t)
    (pv : PipesInvariant.IsValid made) (absent : view pipes id ≡ none)
    (c : (j : ℕ) → view made j ≡ (if id == j then some fresh else view pipes j)) where
  -- No descriptor for the read end.
  no_reader :
      (t' : FdTable)
      → IsValid t'
      → t' ≡ t
      → Runs t pipes (done (none, t', pipe_close_write (pipe_close_read made id) id))
  no_reader t' v' same =
      let closed : Becomes made id none (pipe_close_write (pipe_close_read made id) id) =
        both_closed made id pv (rw (c id, ==-refl id)) in
      (
        none,
        t',
        _,
        refl,
        v',
        closed.valid,
        (
          (λ j. ap (λ u. file u j) same),
          λ j. rw (closed.views j, c j) (undone (view pipes) id j fresh absent),
        ),
      )

  -- The second descriptor, behind the first one.
  opened_writer :
      (read_fd : ℕ) (t' : FdTable)
      → IsValid t'
      → Installs t (new_pipe_read id) (some read_fd) t'
      → (w : Option ℕ) (t'' : FdTable) → IsValid t''
      → open_pipe_write t' id ≡ done (w, t'')
      → Installs t' (new_pipe_write id) w t''
      → Runs t pipes (open_writer t' made id read_fd)
  unfolding open_writer release new_pipe_read
  opened_writer read_fd t' v' l none t'' v'' run k =
      let ((closed, without_reader, hung_up), run_close, cl) = close-Closes t'' made read_fd v'' in
      let reader : file t'' read_fd ≡ some (new_pipe_read id) =
        rw k.0 (rw (l.4 read_fd, ==-refl read_fd)) in
      let low : leb 3 read_fd ≡ true = ground (arith, l.0) in
      let done_so : closed ≡ true = cl.0 ∙ rw (reader, low) in
      let hung : hung_up ≡ pipe_close_read made id = cl.3 ∙ rw (done_so, reader) in
      let gone : Becomes made id none (pipe_close_write (pipe_close_read made id) id) =
        both_closed made id pv (rw (c id, ==-refl id)) in
      (
        none,
        without_reader,
        pipe_close_write (pipe_close_read made id) id,
        rw (run, run_close, hung),
        cl.1,
        gone.valid,
        (
          λ j. rw (cl.2 j, done_so, k.0, l.4 j) (undone (file t) read_fd j (new_pipe_read id) l.2),
          λ j. rw (gone.views j, c j) (undone (view pipes) id j fresh absent),
        ),
      )
  opened_writer read_fd t' v' l (some write_fd) t'' v'' run k =
      let reader : file t' read_fd ≡ some (new_pipe_read id) = rw (l.4 read_fd, ==-refl read_fd) in
      let different : read_fd ≢ write_fd = λ e. cc (k.2, reader, e) in
      let before : file t' write_fd ≡ file t write_fd =
        rw ((==_false_iff read_fd write_fd).1 different) at (l.4 write_fd) in
      (
        some (read_fd, write_fd),
        t'',
        made,
        rw run,
        v'',
        pv,
        (id, absent, c, l.2, sym before ∙ k.2, different, λ j. k.4 j ∙ rw (l.4 j)),
      )

  opened_reader :
      (r : Option ℕ) (t' : FdTable)
      → IsValid t'
      → Installs t (new_pipe_read id) r t'
      → Runs t pipes (elim r [
        | none ↦ done (none, t', pipe_close_write (pipe_close_read made id) id)
        | some read_fd ↦ open_writer t' made id read_fd
      ])
  unfolding open_pipe_write new_pipe_write
  opened_reader none t' v' l = no_reader t' v' l.0
  opened_reader (some read_fd) t' v' l =
      let (w, t'', run, v'', k) = install_lem t' (new_pipe_write id) v' refl in
      opened_writer read_fd t' v' l w t'' v'' run k

created :
    (t : FdTable) (pipes : PipeTable) (r : Option ℕ × PipeTable)
    → IsValid t
    → PipesInvariant.IsValid r.1
    → Creates pipes r
    → Runs t pipes (open_ends t r)
unfolding open_ends open_pipe_read new_pipe_read
created t pipes (none, made) v mv c =
    (none, t, made, refl, v, mv, (λ j. refl, λ j. ap (λ u. view u j) c.0))
created t pipes (some id, made) v mv c =
    let (r, t', run, v', l) = install_lem t (new_pipe_read id) v refl in
    rw run (
      opened_reader t pipes made id v mv (view-none pipes id c.0)
        (λ j. view-create pipes made id j c) r t' v' l)

-- From a valid descriptor table and a valid pipe table `sys_pipe` does not panic and leaves both
-- valid. Either it opens two different descriptors that were free, the one for the read end and the
-- other for the write end of one new and empty pipe, and changes nothing else; or it opens nothing,
-- and every descriptor and every pipe is as before.
pub sys_pipe-Piped :
    (t : FdTable) (pipes : PipeTable)
    → IsValid t
    → PipesInvariant.IsValid pipes
    → (r : Option (ℕ × ℕ)) × (t' : FdTable) × (pipes' : PipeTable) × (sys_pipe t pipes
        ≡ done (r, t', pipes'))
      × IsValid t'
      × PipesInvariant.IsValid pipes'
      × Piped t pipes r t' pipes'
unfolding sys_pipe
sys_pipe-Piped t pipes v pv =
    created t pipes (create pipes) v (create-IsValid pipes pv) (create-Creates pipes)
