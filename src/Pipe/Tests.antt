-- ===== src/Pipe/Tests.antt =====
-- Runs of the pipe and of the pipe table at concrete inputs, and the theorems at such inputs.
use rustos.Prelude.{◌≡◌, refl, true, List, [], ◌∷◌, ◌++◌, done, arith, replicate}
use rustos.Pipe
use rustos.Pipe.{Pipe, pipe_buf_size, IsValid, read, write, new}
use rustos.Pipe.Window.{contents}
use rustos.Pipe.Fifo.{Op, reads, writes, run, fifo_run, run-fifo_run}
use rustos.Pipe.Table
use rustos.Pipe.Table.{
  PipeTable, create, pipe_read, pipe_write, pipe_close_read, pipe_close_write, pipe_bytes_available,
  pipe_write_closed, pipe_writable, would_block,
}
use rustos.Pipe.Table.Invariant.{new-IsValid, pipe_new-IsLive, create-IsValid}
use rustos.Pipe.Table.Channel.{view, receive, send}
use rustos.Pipe.Table.Create.{Creates, create-Creates}
use rustos.Pipe.Table.Becomes.{Becomes}
use rustos.Pipe.Table.Transfers.{pipe_read-receive, pipe_write-send}

-- Two bytes wait, the first at the last cell of the ring and the second at the first one.
abbrev wrapped : Pipe
wrapped = record {
  buffer = 8 ∷ replicate 4094 0 ++ 7 ∷ [];
  read_pos = 4095;
  write_pos = 1;
  count = 2;
  read_open = true;
  write_open = true;
}

wrapped-IsValid : IsValid wrapped
wrapped-IsValid = record {
  sized = refl;
  reads_inside = omega arith;
  fits = omega arith;
  ahead = refl;
}

wrapped-contents : contents wrapped ≡ 7 ∷ 8 ∷ []
unfolding contents Pipe.Window.window
wrapped-contents = refl

read-wrapped :
    read wrapped (0 ∷ 0 ∷ 0 ∷ [])
    ≡ done (2, 7 ∷ 8 ∷ 0 ∷ [], record wrapped { read_pos = 1; count = 0 })
unfolding read Pipe.read_loop
read-wrapped = refl

abbrev two_calls : List Op
two_calls = writes (1 ∷ 2 ∷ 3 ∷ []) ∷ reads (0 ∷ 0 ∷ []) ∷ []

run-fifo_run_example :
    (p' : Pipe) × (run wrapped two_calls ≡ done ((fifo_run (contents wrapped) two_calls).0, p'))
    × IsValid p'
    × (contents p' ≡ (fifo_run (contents wrapped) two_calls).1)
run-fifo_run_example = run-fifo_run wrapped two_calls wrapped-IsValid

-- A table with one fresh pipe, number 0.
abbrev one_pipe : PipeTable
one_pipe = (create Table.new).1

one_pipe-IsValid : Table.Invariant.IsValid one_pipe
one_pipe-IsValid = create-IsValid Table.new new-IsValid

pipe_read-receive_example :
    (t' : PipeTable) × (pipe_read one_pipe 0 (5 ∷ 6 ∷ [])
      ≡ done (
        (receive (view one_pipe 0) (5 ∷ 6 ∷ [])).0,
        (receive (view one_pipe 0) (5 ∷ 6 ∷ [])).1,
        t',
      ))
    × Becomes one_pipe 0 (receive (view one_pipe 0) (5 ∷ 6 ∷ [])).2 t'
pipe_read-receive_example = pipe_read-receive one_pipe 0 (5 ∷ 6 ∷ []) one_pipe-IsValid

pipe_write-send_example :
    (t' : PipeTable) × (pipe_write one_pipe 0 (5 ∷ 6 ∷ [])
      ≡ done ((send (view one_pipe 0) (5 ∷ 6 ∷ [])).0, t'))
    × Becomes one_pipe 0 (send (view one_pipe 0) (5 ∷ 6 ∷ [])).1 t'
pipe_write-send_example = pipe_write-send one_pipe 0 (5 ∷ 6 ∷ []) one_pipe-IsValid

create-Creates_example : Creates one_pipe (create one_pipe)
create-Creates_example = create-Creates one_pipe
