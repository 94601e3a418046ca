-- ===== src/Filedesc/Tests.antt =====
-- Runs of the descriptor table at concrete inputs, and the theorems at such inputs.
use rustos.Prelude.{negsuc, ℕ, ◌≡◌, refl, true, some, done, arith, Option, Bool}
use rustos.Pipe.Table
use rustos.Pipe.Table.{PipeTable, create, pipe_write_closed}
use rustos.Pipe.Table.Invariant as PipesInvariant
use rustos.Pipe.Table.Invariant.{new-IsValid, create-IsValid}
use rustos.Filedesc
use rustos.Filedesc.{
  FdTable, OpenFile, with_stdio, new_file, new_pipe_write, pipe_write, install, dup, dup2, close,
  sys_pipe, lseek, open_file,
}
use rustos.Filedesc.Slots.{file, IsValid, put, put-IsValid, with_stdio-IsValid}
use rustos.Filedesc.Opening.{Dups, dup-Dups}
use rustos.Filedesc.Closing.{Closes, close-Closes, Dup2s, dup2-Dup2s}
use rustos.Filedesc.Pipes.{Piped, sys_pipe-Piped}
use rustos.Filedesc.Seeking.{seek_target, base_of, Moved, lseek-seek_target}
use rustos.Filedesc.Sharing.{dup-close-write_closed}

abbrev notes : OpenFile
notes = record (new_file "/notes" 0) { offset = 10 }

abbrev writer : OpenFile
writer = new_pipe_write 0

-- Descriptor 3 is a file and descriptor 4 the write end of pipe 0.
abbrev table : FdTable
table = put (put with_stdio 3 (some notes)) 4 (some writer)

abbrev pipes : PipeTable
pipes = (create Table.new).1

table-IsValid : IsValid table
unfolding new_file new_pipe_write
table-IsValid =
    put-IsValid (put with_stdio 3 (some notes)) 4 (some writer)
      (put-IsValid with_stdio 3 (some notes) with_stdio-IsValid (omega arith) refl) (omega arith)
      refl

pipes-IsValid : PipesInvariant.IsValid pipes
pipes-IsValid = create-IsValid Table.new new-IsValid

file_4 : file table 4 ≡ some writer
unfolding file with_stdio
file_4 = refl

dup_gives_5 : dup table 3 ≡ done (some 5, put table 5 (some notes))
unfolding dup with_stdio Filedesc.is_valid install Filedesc.first_free new_file
dup_gives_5 = refl

dup-Dups_example : Dups table 4 (file table 4)
dup-Dups_example = dup-Dups table 4 table-IsValid

close-Closes_example :
    (r : Bool × FdTable × PipeTable) × (close table pipes 4 ≡ done r) × Closes table pipes 4 r
close-Closes_example = close-Closes table pipes 4 table-IsValid

dup2-Dup2s_example :
    (r : Option ℕ × FdTable × PipeTable) × (dup2 table pipes 3 4 ≡ done r) × Dup2s table pipes 3 4 r
dup2-Dup2s_example = dup2-Dup2s table pipes 3 4 table-IsValid

sys_pipe-Piped_example :
    (r : Option (ℕ × ℕ)) × (t' : FdTable) × (pipes' : PipeTable) × (sys_pipe table pipes
      ≡ done (r, t', pipes'))
    × IsValid t'
    × PipesInvariant.IsValid pipes'
    × Piped table pipes r t' pipes'
sys_pipe-Piped_example = sys_pipe-Piped table pipes table-IsValid pipes-IsValid

-- Four bytes back from offset 10.
lseek-seek_target_example :
    (t' : FdTable) × (lseek table 3 (negsuc 3) 1 100
      ≡ done (seek_target (base_of 1 10 100) (negsuc 3), t'))
    × IsValid t'
    × Moved table 3 notes (seek_target (base_of 1 10 100) (negsuc 3)) t'
unfolding file with_stdio new_file
lseek-seek_target_example =
    lseek-seek_target table 3 notes (negsuc 3) 1 100 100 table-IsValid refl (omega arith)
      (omega arith) (omega arith)

dup-close-write_closed_example :
    (new_fd : ℕ) × (t' t'' : FdTable) × (pipes' : PipeTable) × (dup table 4
      ≡ done (some new_fd, t'))
    × (close t' pipes new_fd ≡ done (true, t'', pipes'))
    × (file t'' 4 ≡ some writer)
    × (pipe_write_closed pipes' 0 ≡ true)
unfolding file with_stdio new_pipe_write
dup-close-write_closed_example =
    dup-close-write_closed table pipes 4 5 0 writer table-IsValid pipes-IsValid refl refl
      (omega arith) (omega arith) refl
