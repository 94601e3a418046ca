-- ===== src/Filedesc/Opening.antt =====
-- The lowest free descriptor is taken: `open`, `dup` and the pipe functions of the table.
use rustos.Prelude.{
  ℕ, zero, suc, ◌+◌, ◌-◌, ◌≤◌, ◌<◌, ◌≡◌, ◌≢◌, refl, inl, inr, Bool, true, false, Option, none, some,
  List, arith, length, get_or, ◌==◌, if◌then◌else◌, Option-cases, done, index_in_range, leb,
}
use native.Mathlib.Decide.{dec_lt}
use rustos.Filedesc.{FdTable, OpenFile, max_open_files, first_free, install, is_valid, dup, copy}
use rustos.Filedesc.Slots.{
  file, IsValid, put, put-IsValid, file-put, index-file, store_file, file_out_of_range, file-lt,
}

-- `r` is the first free slot of `files` from `lo` up to `hi`, if there is one.
abbrev Lowest : ℕ → ℕ → List (Option OpenFile) → Option ℕ → Type 0
Lowest lo hi files none = (j : ℕ) → lo ≤ j → j < hi → get_or files j none ≢ none
Lowest lo hi files (some k) =
    (lo ≤ k)
    × (k < hi)
    × (get_or files k none ≡ none)
    × ((j : ℕ) → lo ≤ j → j < k → get_or files j none ≢ none)

taken_from :
    (lo lo' j : ℕ) (files : List (Option OpenFile)) (f : OpenFile)
    → lo' ≡ suc lo
    → get_or files lo none ≡ some f
    → (lo' ≤ j → get_or files j none ≢ none)
    → lo ≤ j
    → get_or files j none ≢ none
taken_from lo lo' j files f e t rest a n = elim (dec_lt lo j) [
  | yes below ↦ rest (omega arith) n
  | no same ↦ let e' : lo ≡ j = omega arith in cc
]

Lowest-step :
    (lo lo' hi : ℕ) (files : List (Option OpenFile)) (r : Option ℕ) (f : OpenFile)
    → lo' ≡ suc lo
    → get_or files lo none ≡ some f
    → Lowest lo' hi files r
    → Lowest lo hi files r
Lowest-step lo lo' hi files none f e t l =
    λ j a b. taken_from lo lo' j files f e t (λ a'. l j a' b) a
Lowest-step lo lo' hi files (some k) f e t l =
    (omega (arith, l.0), l.1, l.2, λ j a b. taken_from lo lo' j files f e t (λ a'. l.3 j a' b) a)

first_free_lem :
    (rounds fd hi : ℕ) (files : List (Option OpenFile))
    → hi ≡ fd + rounds
    → hi ≤ length files
    → (r : Option ℕ) × (first_free rounds fd files ≡ done r) × Lowest fd hi files r
unfolding first_free
first_free_lem zero fd hi files e h = (none, refl, λ j a b. absurd (omega arith))
first_free_lem (suc rounds) fd hi files e h = elim (Option-cases (get_or files fd none)) [
  | inl free ↦ (
    some fd,
    rw (index_in_range files fd none (omega arith), free),
    (omega arith, omega arith, free, λ j a b. absurd (omega arith)),
  )
  | inr (f, taken) ↦
      let (r, run, lowest) = first_free_lem rounds (fd + 1) hi files (omega arith) h in
      (
        r,
        rw (index_in_range files fd none (omega arith), taken) run,
        Lowest-step fd (fd + 1) hi files r f (omega arith) taken lowest,
      )
]

-- A new file takes the lowest free descriptor from 3 on, or the table is full from there on.
abbrev pub Installs : FdTable → OpenFile → Option ℕ → FdTable → Type 0
Installs t f none t' = (t' ≡ t) × ((j : ℕ) → 3 ≤ j → j < max_open_files → file t j ≢ none)
Installs t f (some fd) t' =
    (3 ≤ fd)
    × (fd < max_open_files)
    × (file t fd ≡ none)
    × ((j : ℕ) → 3 ≤ j → j < fd → file t j ≢ none)
    × ((j : ℕ) → file t' j ≡ (if fd == j then some f else file t j))

abbrev Installed : FdTable → OpenFile → Type 0
Installed t f =
    (r : Option ℕ) × (t' : FdTable) × (install t f ≡ done (r, t')) × IsValid t' × Installs t f r t'

install_found :
    (t : FdTable) (f : OpenFile) (r : Option ℕ)
    → IsValid t
    → f.is_open ≡ true
    → first_free (max_open_files - 3) 3 t.files ≡ done r
    → Lowest 3 max_open_files t.files r
    → Installed t f
unfolding install file
install_found t f none v o run l = (none, t, rw run, v, (refl, l))
install_found t f (some fd) v o run l = (
  some fd,
  put t fd (some f),
  rw (run, store_file t fd (some f) v l.1),
  put-IsValid t fd (some f) v l.1 o,
  (l.0, l.1, l.2, l.3, λ j. file-put t fd j (some f) v l.1),
)

-- Opening a file in a valid descriptor table does not panic and leaves the table valid. The file
-- takes the lowest free descriptor from 3 on and no other descriptor changes; if none is free,
-- nothing changes.
pub install_lem : (t : FdTable) (f : OpenFile) → IsValid t → f.is_open ≡ true → Installed t f
install_lem t f v o =
    let (r, run, l) =
      first_free_lem (max_open_files - 3) 3 max_open_files t.files refl (omega (arith, v.sized)) in
    install_found t f r v o run l

abbrev pub is_some {ℓ} : {A : Type ℓ} → Option A → Bool
is_some none = false
is_some (some a) = true

pub is_valid_lem : (t : FdTable) (fd : ℕ) → IsValid t → is_valid t fd ≡ done (is_some (file t fd))
unfolding is_valid
is_valid_lem t fd v = elim (dec_lt fd max_open_files) [
  | yes h ↦
      let below : leb max_open_files fd ≡ false = ground arith in
      rw (below, index-file t fd v h)
        (elim (Option-cases (file t fd)) [ inl e ↦ rw e | inr (f, e) ↦ rw (e, v.opened fd f e) ])
  | no h ↦
      let above : leb max_open_files fd ≡ true = ground arith in
      rw (above, file_out_of_range t fd v (omega arith))
]

-- What `dup` does, by the file behind its argument.
abbrev pub Dups : FdTable → ℕ → Option OpenFile → Type 0
Dups t old_fd none = dup t old_fd ≡ done (none, t)
Dups t old_fd (some f) =
    (r : Option ℕ) × (t' : FdTable) × (dup t old_fd ≡ done (r, t')) × IsValid t' × Installs t f r t'

-- On a valid table `dup` does not panic. It fails on a descriptor that is not open, changing
-- nothing; otherwise a copy of the file, at the same offset, takes the lowest free descriptor from 3
-- on, or nothing changes if none is free. The table stays valid.
pub dup-Dups : (t : FdTable) (old_fd : ℕ) → IsValid t → Dups t old_fd (file t old_fd)
unfolding dup
dup-Dups t old_fd v = elim (Option-cases (file t old_fd)) [
  | inl e ↦ rw e (rw (is_valid_lem t old_fd v, e))
  | inr (f, e) ↦
      let o : f.is_open ≡ true = v.opened old_fd f e in
      let same : copy f ≡ f = ground arith in
      let (r, t', run, v', l) = install_lem t f v o in
      rw e (
        r,
        t',
        rw (is_valid_lem t old_fd v, e, index-file t old_fd v (file-lt t old_fd f v e), e, same)
            run,
        v',
        l,
      )
]
