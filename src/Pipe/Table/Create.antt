-- ===== src/Pipe/Table/Create.antt =====
-- `PipeTable::create`: a free slot is reused, a new one is added only if there is none.
use rustos.Prelude.{
  ℕ, zero, suc, ◌≤◌, ◌<◌, ◌≡◌, refl, sym, subst, ◌∙◌, inl, inr, ap, Option, none, some, List, [],
  ◌∷◌, ◌++◌, arith, length, get_elem?, ltb, ◌==◌, ==_iff, ==_false_iff, if◌then◌else◌, max, ltb→lt,
  Bool-cases, Option-cases, get_elem?-ge, get_elem?-append_left, get_elem?-append_last,
  length-append, length-set,
}
use mathlib.Core.Option
use native.Mathlib.Decide.{dec_lt}
use rustos.Pipe
use rustos.Pipe.{Pipe}
use rustos.Pipe.Table.{PipeTable, max_pipes, find_free, create, flatten, get, put}
use rustos.Pipe.Table.Slots.{get-put}

-- What `find_free` says of the slots.
abbrev Finds : List (Option Pipe) → Option ℕ → Type 0
Finds slots none = (i : ℕ) → i < length slots → (p : Pipe) × (get_elem? slots i ≡ some (some p))
Finds slots (some i) = (i < length slots) × (get_elem? slots i ≡ some none)

all_taken-cons :
    (p : Pipe) (slots : List (Option Pipe))
    → Finds slots none
    → (i : ℕ) → i < length (some p ∷ slots)
    → (q : Pipe) × (get_elem? (some p ∷ slots) i ≡ some (some q))
all_taken-cons p slots h zero lt = (p, refl)
all_taken-cons p slots h (suc i) lt = h i (omega arith)

Finds-cons :
    (p : Pipe) (slots : List (Option Pipe)) (r : Option ℕ)
    → Finds slots r
    → Finds (some p ∷ slots) (Option.map suc r)
Finds-cons p slots none h = all_taken-cons p slots h
Finds-cons p slots (some i) h = (omega arith, h.1)

find_free-Finds : (slots : List (Option Pipe)) → Finds slots (find_free slots)
unfolding find_free
find_free-Finds [] = λ i h. elim h [ ]
find_free-Finds (none ∷ slots) = (omega arith, refl)
find_free-Finds (some p ∷ slots) = Finds-cons p slots (find_free slots) (find_free-Finds slots)

-- What `create` gives on a table: a slot that held no pipe, or a full table.
abbrev pub Creates : PipeTable → Option ℕ × PipeTable → Type 0
Creates t (none, t') =
    (t' ≡ t)
    × (max_pipes ≤ length t.pipes)
    × ((id : ℕ) → id < length t.pipes → (p : Pipe) × (get t id ≡ some p))
Creates t (some id, t') =
    (get t id ≡ none)
    × (id < length t'.pipes)
    × (length t'.pipes ≤ max (length t.pipes) max_pipes)
    × ((j : ℕ) → get t' j ≡ (if id == j then some Pipe.new else get t j))

get-push :
    (t : PipeTable) (o : Option Pipe) (j : ℕ)
    → get (record { pipes = t.pipes ++ o ∷ [] }) j ≡ (if length t.pipes == j then o else get t j)
unfolding get
get-push t o j = elim (Bool-cases (length t.pipes == j)) [
  | inl here ↦ rw here (ap flatten (get_elem?-append_last t.pipes o j (sym ((==_iff _ j).0 here))))
  | inr other ↦
      rw other (ap flatten (elsewhere (dec_lt j (length t.pipes)) ((==_false_iff _ j).0 other)))
]
  where
    elsewhere :
        Dec (j < length t.pipes)
        → ¬ (length t.pipes ≡ j)
        → get_elem? (t.pipes ++ o ∷ []) j ≡ get_elem? t.pipes j
    elsewhere (yes h) ne = get_elem?-append_left t.pipes (o ∷ []) j h
    elsewhere (no h) ne =
        get_elem?-ge (t.pipes ++ o ∷ []) j (omega (arith, length-append t.pipes (o ∷ [])))
        ∙ sym (get_elem?-ge t.pipes j (omega arith))

-- A new slot is added while the table is below its limit.
grow-Creates :
    (t : PipeTable)
    → Finds t.pipes none
    → Creates t (
        if ltb (length t.pipes) max_pipes
        then (some (length t.pipes), record { pipes = t.pipes ++ some Pipe.new ∷ [] })
        else (none, t))
unfolding get
grow-Creates t taken = elim (Bool-cases (ltb (length t.pipes) max_pipes)) [
  | inl room ↦ rw room (
    ap flatten (get_elem?-ge t.pipes (length t.pipes) (omega arith)),
    omega (arith, length-append t.pipes (some Pipe.new ∷ [])),
    omega (arith, ltb→lt _ _ room, length-append t.pipes (some Pipe.new ∷ [])),
    get-push t (some Pipe.new),
  )
  | inr full ↦ rw full (refl, ground arith, λ id h. let (p, e) = taken id h in (p, ap flatten e))
]

-- `create` hands out the number of a slot that held no pipe, puts a fresh pipe there, and changes
-- no other slot, the table growing up to `max_pipes` slots at most; it fails, changing nothing, only
-- if there are `max_pipes` slots or more and each one holds a pipe.
pub create-Creates : (t : PipeTable) → Creates t (create t)
unfolding create get put
create-Creates t = elim (Option-cases (find_free t.pipes)) [
  | inl e ↦ rw (e, create) (grow-Creates t (subst (Finds t.pipes) e (find_free-Finds t.pipes)))
  | inr (i, e) ↦
      let (inside, free) = subst (Finds t.pipes) e (find_free-Finds t.pipes) in
      rw (e, create)
        (
          ap flatten free,
          omega (arith, length-set t.pipes i (some Pipe.new)),
          omega (arith, length-set t.pipes i (some Pipe.new)),
          λ j. get-put t i j (some Pipe.new) inside,
        )
]
