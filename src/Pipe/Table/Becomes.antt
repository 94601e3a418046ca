-- ===== src/Pipe/Table/Becomes.antt =====
-- The form of the refinement of src/syscall/pipe.rs: a call leaves a valid table, changes its own
-- channel as specified and no other.
use rustos.Prelude.{ℕ, ◌≡◌, refl, Option, none, some, ◌==◌, if◌then◌else◌, subst}
use rustos.Pipe.{Pipe}
use rustos.Pipe.Table.{PipeTable, get, put}
use rustos.Pipe.Table.Slots.{get-some-lt}
use rustos.Pipe.Table.Invariant.{IsValid, IsLive, put-IsValid}
use rustos.Pipe.Table.Channel.{Channel, channel, view, view-put, view_kept}

-- A valid table whose channels are those of `t`, but for `c` at `id`.
pub record Becomes (t : PipeTable) (id : ℕ) (c : Option Channel) (t' : PipeTable) : Type 0 where
  pub valid : IsValid t'
  pub views : (j : ℕ) → view t' j ≡ (if id == j then c else view t j)

pub kept-Becomes : (t : PipeTable) (id : ℕ) → IsValid t → Becomes t id (view t id) t
kept-Becomes t id v = record { valid = v; views = λ j. view_kept t id j (view t id) refl }

pub view-none : (t : PipeTable) (id : ℕ) → get t id ≡ none → view t id ≡ none
unfolding view
view-none t id h = rw h

pub view-some :
    (t : PipeTable) (id : ℕ) (p : Pipe) → get t id ≡ some p → view t id ≡ some (channel p)
unfolding view
view-some t id p h = rw h

pub kept_some-Becomes :
    (t : PipeTable) (id : ℕ) (p : Pipe)
    → IsValid t
    → get t id ≡ some p
    → Becomes t id (some (channel p)) t
kept_some-Becomes t id p v h = rw (← view-some t id p h) (kept-Becomes t id v)

pub put-Becomes :
    (t : PipeTable) (id : ℕ) (p p' : Pipe) (c : Channel)
    → IsValid t
    → get t id ≡ some p
    → IsLive (some p')
    → channel p' ≡ c
    → Becomes t id (some c) (put t id (some p'))
put-Becomes t id p p' c v h l e = record {
  valid = put-IsValid t id (some p') v (get-some-lt t id p h) l;
  views = λ j. rw (← e) (view-put t id j (some p') (get-some-lt t id p h));
}

-- The pipe in a slot of a valid table is live.
pub IsLive-of_get :
    (t : PipeTable) (id : ℕ) (p : Pipe) → IsValid t → get t id ≡ some p → IsLive (some p)
IsLive-of_get t id p v h = subst IsLive h (v.live id)
