-- ===== src/Filedesc/Slots.antt =====
-- A well-formed descriptor table, and its slots.
use rustos.Prelude.{
  ℕ, ◌≤◌, ◌<◌, ◌≡◌, refl, sym, ◌∙◌, inl, inr, true, Option, none, some, arith, length, get_or, set,
  ◌==◌, ==_iff, ==_false_iff, if◌then◌else◌, Bool-cases, index, done, index_in_range,
  store_in_range, store, get_or-set_self, get_or-ge, subst, get_or-replicate, get_or-set_ne,
  length-set, length-replicate, replicate,
}
use native.Mathlib.Decide.{dec_lt}
use rustos.Filedesc.{FdTable, OpenFile, max_open_files, with_stdio, new_file}

-- The file behind a descriptor.
unfoldable pub file : FdTable → ℕ → Option OpenFile
file t fd = get_or t.files fd none

-- A full table of `max_open_files` slots, each empty or with an open file.
pub record IsValid (t : FdTable) : Type 0 where
  pub sized : length t.files ≡ max_open_files
  pub opened : (fd : ℕ) (f : OpenFile) → file t fd ≡ some f → f.is_open ≡ true

abbrev pub put : FdTable → ℕ → Option OpenFile → FdTable
put t fd o = record { files = set t.files fd o }

pub index-file :
    (t : FdTable) (fd : ℕ) → IsValid t → fd < max_open_files → index t.files fd ≡ done (file t fd)
unfolding file
index-file t fd v h = index_in_range t.files fd none (omega (arith, v.sized))

pub store_file :
    (t : FdTable) (fd : ℕ) (o : Option OpenFile)
    → IsValid t
    → fd < max_open_files
    → store t.files fd o ≡ done (set t.files fd o)
store_file t fd o v h = store_in_range t.files fd o (omega (arith, v.sized))

pub file_out_of_range : (t : FdTable) (fd : ℕ) → IsValid t → max_open_files ≤ fd → file t fd ≡ none
unfolding file
file_out_of_range t fd v h = get_or-ge t.files fd none (omega (arith, v.sized))

pub file-lt :
    (t : FdTable) (fd : ℕ) (f : OpenFile) → IsValid t → file t fd ≡ some f → fd < max_open_files
file-lt t fd f v e = elim (dec_lt fd max_open_files) [
  | yes h ↦ h
  | no h ↦ absurd (cc (file_out_of_range t fd v (omega arith)))
]

pub file-put :
    (t : FdTable) (fd j : ℕ) (o : Option OpenFile)
    → IsValid t
    → fd < max_open_files
    → file (put t fd o) j ≡ (if fd == j then o else file t j)
unfolding file
file-put t fd j o v h = elim (Bool-cases (fd == j)) [
  | inl same ↦
      rw (same, ← (==_iff fd j).0 same) (get_or-set_self t.files fd o none (omega (arith, v.sized)))
  | inr other ↦ rw other (get_or-set_ne t.files fd j o none ((==_false_iff fd j).0 other))
]

-- A slot that is empty or holds an open file.
abbrev IsOpened : Option OpenFile → Type 0
IsOpened none = Unit
IsOpened (some f) = f.is_open ≡ true

slot_opened :
    (t : FdTable) (fd j : ℕ) (o : Option OpenFile) (f : OpenFile)
    → IsValid t
    → IsOpened o
    → (if fd == j then o else file t j) ≡ some f
    → f.is_open ≡ true
slot_opened t fd j o f v p e = elim (Bool-cases (fd == j)) [
  | inl same ↦ subst IsOpened {y = some f} (ground (arith, e)) p
  | inr other ↦ v.opened j f (ground (arith, e))
]

pub put-IsValid :
    (t : FdTable) (fd : ℕ) (o : Option OpenFile)
    → IsValid t
    → fd < max_open_files
    → IsOpened o
    → IsValid (put t fd o)
put-IsValid t fd o v h p = record {
  sized = omega (arith, v.sized, length-set t.files fd o);
  opened = λ j f e. slot_opened t fd j o f v p (sym (file-put t fd j o v h) ∙ e);
}

abbrev blank : FdTable
blank = record { files = replicate max_open_files none }

blank-IsValid : IsValid blank
unfolding file
blank-IsValid = record {
  sized = length-replicate {A = Option OpenFile} max_open_files none;
  opened = λ fd f e. absurd (cc (get_or-replicate {A = Option OpenFile} max_open_files fd none));
}

pub with_stdio-IsValid : IsValid with_stdio
unfolding with_stdio new_file
with_stdio-IsValid =
    put-IsValid (put (put blank 0 _) 1 _) 2 _
      (put-IsValid (put blank 0 _) 1 _ (put-IsValid blank 0 _ blank-IsValid (omega arith) refl)
        (omega arith) refl)
      (omega arith) refl
