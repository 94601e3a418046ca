-- ===== src/Pipe/Table/Slots.antt =====
-- What the operations on a slot of the table show at each slot.
use rustos.Prelude.{
  ℕ, ◌<◌, ◌≡◌, ◌∙◌, inl, inr, ap, Option, none, some, arith, length, get_elem?, ◌==◌, ==_iff,
  ==_false_iff, ==-refl, if◌then◌else◌, Bool-cases, Option-cases, get_elem?-set_self,
  get_elem?-set_ne, get_elem?-lt, length-set,
}
use rustos.Pipe
use rustos.Pipe.{Pipe}
use rustos.Pipe.Table.{PipeTable, flatten, get, put, update, cleanup}

pub get-some-lt : (t : PipeTable) (id : ℕ) (p : Pipe) → get t id ≡ some p → id < length t.pipes
unfolding get
get-some-lt t id p h = elim (Option-cases (get_elem? t.pipes id)) [
  | inl e ↦ absurd (cc e)
  | inr (o, e) ↦ get_elem?-lt t.pipes id o e
]

pub get-put :
    (t : PipeTable) (id j : ℕ) (o : Option Pipe)
    → id < length t.pipes
    → get (put t id o) j ≡ (if id == j then o else get t j)
unfolding get put
get-put t id j o h = elim (Bool-cases (id == j)) [
  | inl same ↦
      let e : id ≡ j = (==_iff id j).0 same in
      rw same (rw (← e) (ap flatten (get_elem?-set_self t.pipes id o h)))
  | inr other ↦
      rw other (ap flatten (get_elem?-set_ne t.pipes id j o ((==_false_iff id j).0 other)))
]

pub length-put :
    (t : PipeTable) (id : ℕ) (o : Option Pipe) → length (put t id o).pipes ≡ length t.pipes
unfolding put
length-put t id o = length-set t.pipes id o

-- What a close leaves in the slot of a pipe: nothing, once both ends are closed.
abbrev pub remains : Pipe → Option Pipe
remains p = if Pipe.is_closed p then none else some p

update_found :
    (t : PipeTable) (id : ℕ) (f : Pipe → Pipe) (p : Pipe)
    → get t id ≡ some p
    → update t id f ≡ put t id (some (f p))
unfolding update
update_found t id f p h = rw (h, update)

cleanup_found :
    (t : PipeTable) (id : ℕ) (p : Pipe)
    → get t id ≡ some p
    → cleanup t id ≡ (if Pipe.is_closed p then put t id none else t)
unfolding cleanup
cleanup_found t id p h = rw (h, cleanup)

get-put_self :
    (t : PipeTable) (id : ℕ) (o : Option Pipe) → id < length t.pipes → get (put t id o) id ≡ o
get-put_self t id o h = rw (get-put t id id o h, ==-refl id)

-- A close acts on its own slot, and only if there is a pipe.
pub get-close :
    (t : PipeTable) (id j : ℕ) (f : Pipe → Pipe) (p : Pipe)
    → get t id ≡ some p
    → get (cleanup (update t id f) id) j ≡ (if id == j then remains (f p) else get t j)
get-close t id j f p h =
    let inside : id < length t.pipes = get-some-lt t id p h in
    let u : PipeTable = put t id (some (f p)) in
    let found : get u id ≡ some (f p) = get-put_self t id (some (f p)) inside in
    rw (update_found t id f p h, cleanup_found u id (f p) found)
      (elim (Bool-cases (Pipe.is_closed (f p))) [
        | inl closed ↦ rw closed (
            ground (
              arith,
              get-put u id j none (omega (arith, length-put t id (some (f p)))),
              get-put t id j (some (f p)) inside,
            ))
        | inr still_open ↦ rw still_open (get-put t id j (some (f p)) inside)
      ])

pub close_missing :
    (t : PipeTable) (id : ℕ) (f : Pipe → Pipe) → get t id ≡ none → cleanup (update t id f) id ≡ t
unfolding update cleanup
close_missing t id f h = ground arith

length-update :
    (t : PipeTable) (id : ℕ) (f : Pipe → Pipe) → length (update t id f).pipes ≡ length t.pipes
unfolding update
length-update t id f = elim (Option-cases (get t id)) [
  | inl h ↦ rw (h, update)
  | inr (p, h) ↦ rw (h, update) (length-put t id (some (f p)))
]

length-cleanup : (t : PipeTable) (id : ℕ) → length (cleanup t id).pipes ≡ length t.pipes
unfolding cleanup
length-cleanup t id = elim (Option-cases (get t id)) [
  | inl h ↦ rw (h, cleanup)
  | inr (p, h) ↦ rw (h, cleanup) (ground (arith, length-put t id none))
]

pub length-close :
    (t : PipeTable) (id : ℕ) (f : Pipe → Pipe)
    → length (cleanup (update t id f) id).pipes ≡ length t.pipes
length-close t id f = length-cleanup (update t id f) id ∙ length-update t id f
