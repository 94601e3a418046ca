-- ===== src/Pipe/Table/Invariant.antt =====
-- The invariant of the table: at most `max_pipes` slots, each pipe well formed and still open at
-- one end at least, so that a slot is freed by the close of the second end.
use rustos.Prelude.{
  ℕ, ◌≤◌, ◌<◌, ◌≡◌, refl, Bool, true, false, Option, none, some, arith, length, ◌==◌, if◌then◌else◌,
  length-replicate, subst, sym,
}
use rustos.Pipe
use rustos.Pipe.{Pipe, pipe_buf_size}
use rustos.Pipe.Table.{PipeTable, max_pipes, new, get, put, create}
use rustos.Pipe.Table.Slots.{get-put, length-put}
use rustos.Pipe.Table.Create.{Creates, create-Creates}

abbrev pub IsLive : Option Pipe → Type 0
IsLive none = Unit
IsLive (some p) = Pipe.IsValid p × (Pipe.is_closed p ≡ false)

pub record IsValid (t : PipeTable) : Type 0 where
  pub sized : length t.pipes ≤ max_pipes
  pub live : (id : ℕ) → IsLive (get t id)

pub new-IsValid : IsValid new
unfolding new get
new-IsValid = record { sized = omega arith; live = λ id. tt }

pub pipe_new-IsLive : IsLive (some Pipe.new)
unfolding Pipe.new Pipe.is_closed
pipe_new-IsLive = (
  record {
    sized = length-replicate {A = ℕ} pipe_buf_size 0;
    reads_inside = omega arith;
    fits = omega arith;
    ahead = refl;
  },
  refl,
)

-- A choice between two live slots is live.
pub if-IsLive :
    (b : Bool) (o o' : Option Pipe) → IsLive o → IsLive o' → IsLive (if b then o else o')
if-IsLive true o o' h h' = h
if-IsLive false o o' h h' = h'

pub put-IsValid :
    (t : PipeTable) (id : ℕ) (o : Option Pipe)
    → IsValid t
    → id < length t.pipes
    → IsLive o
    → IsValid (put t id o)
put-IsValid t id o v h l = record {
  sized = omega (arith, v.sized, length-put t id o);
  live =
      λ j. subst IsLive (sym (get-put t id j o h)) (if-IsLive (id == j) o (get t j) l (v.live j));
}

create_cases-IsValid :
    (t : PipeTable) (r : Option ℕ × PipeTable) → IsValid t → Creates t r → IsValid r.1
create_cases-IsValid t (none, t') v c = subst IsValid (sym c.0) v
create_cases-IsValid t (some id, t') v c = record {
  sized = omega (arith, v.sized, c.2);
  live = λ j.
      subst IsLive (sym (c.3 j))
        (if-IsLive (id == j) (some Pipe.new) (get t j) pipe_new-IsLive (v.live j));
}

pub create-IsValid : (t : PipeTable) → IsValid t → IsValid (create t).1
create-IsValid t v = create_cases-IsValid t (create t) v (create-Creates t)
