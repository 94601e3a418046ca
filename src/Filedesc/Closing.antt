-- ===== src/Filedesc/Closing.antt =====
-- `close` and `dup2`: what they do to the descriptors and to the pipes.
use rustos.Prelude.{
  ℕ, ◌<◌, ◌≡◌, ◌≢◌, refl, inl, inr, Bool, true, false, not, ◌&&◌, ◌||◌, Option, none, some, arith,
  ◌==◌, ==_iff, ==_false_iff, if◌then◌else◌, Bool-cases, Option-cases, done, ltb, leb,
}
use native.Mathlib.Decide.{dec_lt}
use rustos.Pipe.Table.{PipeTable}
use rustos.Filedesc.{
  FdTable, OpenFile, max_open_files, copy, release, close_with_pipe_cleanup, close, replace, dup2,
}
use rustos.Filedesc.Slots.{
  file, IsValid, put, put-IsValid, file-put, index-file, store_file, file_out_of_range, file-lt,
}
use rustos.Filedesc.Opening.{is_valid_lem, is_some}

-- The pipes after the file of a slot, if any, is closed.
abbrev released : Option OpenFile → PipeTable → PipeTable
released none pipes = pipes
released (some f) pipes = release f.kind pipes

close_with_pipe_cleanup_lem :
    (t : FdTable) (pipes : PipeTable) (fd : ℕ)
    → IsValid t
    → fd < max_open_files
    → close_with_pipe_cleanup t pipes fd ≡ done (put t fd none, released (file t fd) pipes)
unfolding close_with_pipe_cleanup
close_with_pipe_cleanup_lem t pipes fd v h =
    let below : leb max_open_files fd ≡ false = ground arith in
    rw (below, index-file t fd v h, store_file t fd none v h)
      (elim (Option-cases (file t fd)) [ inl e ↦ rw e | inr (f, e) ↦ rw e ])

-- What `close` answers and leaves behind.
abbrev pub Closes : FdTable → PipeTable → ℕ → Bool × FdTable × PipeTable → Type 0
Closes t pipes fd (closed, t', pipes') =
    (closed ≡ (leb 3 fd && is_some (file t fd)))
    × IsValid t'
    × ((j : ℕ) → file t' j ≡ (if closed && (fd == j) then none else file t j))
    × (pipes' ≡ (if closed then released (file t fd) pipes else pipes))

not_closable :
    (t : FdTable) (fd : ℕ)
    → IsValid t
    → (ltb fd 3 || leb max_open_files fd) ≡ true
    → false ≡ (leb 3 fd && is_some (file t fd))
not_closable t fd v outside = elim (dec_lt fd 3) [
  | yes h ↦ ground arith
  | no h ↦ rw (file_out_of_range t fd v (ground arith)) (ground arith)
]

-- On a valid table `close` does not panic and leaves the table valid. Closing one of the standard
-- streams, a number out of range or a descriptor that is not open fails and changes nothing. Any
-- other close frees just that descriptor, and closes the end of a pipe that was behind it.
pub close-Closes :
    (t : FdTable) (pipes : PipeTable) (fd : ℕ)
    → IsValid t
    → (r : Bool × FdTable × PipeTable) × (close t pipes fd ≡ done r) × Closes t pipes fd r
unfolding close
close-Closes t pipes fd v = elim (Bool-cases (ltb fd 3 || leb max_open_files fd)) [
  | inl outside ↦ ((false, t, pipes), rw outside, (not_closable t fd v outside, v, λ j. refl, refl))
  | inr inside ↦
      let h : fd < max_open_files = ground arith in
      elim (Option-cases (file t fd)) [
        | inl e ↦ (
          (false, t, pipes),
          rw (inside, index-file t fd v h, e),
          (rw e (ground arith), v, λ j. refl, refl),
        )
        | inr (f, e) ↦ (
          (true, put t fd none, released (file t fd) pipes),
          rw (inside, index-file t fd v h, e, close_with_pipe_cleanup_lem t pipes fd v h, e),
          (rw e (ground arith), put-IsValid t fd none v h tt, λ j. file-put t fd j none v h, refl),
        )
      ]
]

-- What `dup2` answers and leaves behind.
abbrev pub Dup2s : FdTable → PipeTable → ℕ → ℕ → Option ℕ × FdTable × PipeTable → Type 0
Dup2s t pipes old_fd new_fd (r, t', pipes') =
    let usable = is_some (file t old_fd) && ltb new_fd max_open_files in
    (r ≡ (if usable then some new_fd else none))
    × IsValid t'
    × ((j : ℕ) → file t' j ≡ (if usable && (new_fd == j) then file t old_fd else file t j))
    × (pipes'
        ≡ (if usable && not (old_fd == new_fd) then released (file t new_fd) pipes else pipes))

replace_lem :
    (t : FdTable) (pipes : PipeTable) (old_fd new_fd : ℕ) (f : OpenFile)
    → IsValid t
    → file t old_fd ≡ some f
    → new_fd < max_open_files
    → old_fd ≢ new_fd
    → replace t pipes old_fd new_fd
      ≡ done (some new_fd, put (put t new_fd none) new_fd (some f), released (file t new_fd) pipes)
unfolding replace
replace_lem t pipes old_fd new_fd f v e h ne =
    let closed : FdTable = put t new_fd none in
    let v' : IsValid closed = put-IsValid t new_fd none v h tt in
    let other : (new_fd == old_fd) ≡ false = ground arith in
    let o : f.is_open ≡ true = v.opened old_fd f e in
    let same : copy f ≡ f = ground arith in
    rw (
      close_with_pipe_cleanup_lem t pipes new_fd v h,
      index-file closed old_fd v' (file-lt t old_fd f v e),
      file-put t new_fd old_fd none v h,
      other,
      e,
      same,
      store_file closed new_fd (some f) v' h,
    )

same_file :
    (t : FdTable) (old_fd new_fd j : ℕ) (f : OpenFile)
    → old_fd ≡ new_fd
    → file t old_fd ≡ some f
    → file t j ≡ (if new_fd == j then some f else file t j)
same_file t old_fd new_fd j f same e = elim (Bool-cases (new_fd == j)) [
  | inl here ↦ rw (here, ← (==_iff new_fd j).0 here, ← same) e
  | inr other ↦ rw other
]

-- On a valid table `dup2` does not panic and leaves the table valid. Unless the first descriptor is
-- open and the second in range it fails and changes nothing. Otherwise the second one holds a copy
-- of the first one's file, at its offset; if the two differ, a pipe end that was behind the second
-- one is closed. No other descriptor changes.
pub dup2-Dup2s :
    (t : FdTable) (pipes : PipeTable) (old_fd new_fd : ℕ)
    → IsValid t
    → (r : Option ℕ × FdTable × PipeTable) × (dup2 t pipes old_fd new_fd ≡ done r)
      × Dup2s t pipes old_fd new_fd r
unfolding dup2
dup2-Dup2s t pipes old_fd new_fd v = elim (Option-cases (file t old_fd)) [
  | inl e ↦ rw e ((none, t, pipes), rw (is_valid_lem t old_fd v, e), (refl, v, λ j. refl, refl))
  | inr (f, e) ↦ elim (Bool-cases (leb max_open_files new_fd)) [
    | inl far ↦
        let outside : ltb new_fd max_open_files ≡ false = ground arith in
        rw (e, outside)
          ((none, t, pipes), rw (is_valid_lem t old_fd v, e, far), (refl, v, λ j. refl, refl))
    | inr near ↦
        let inside : ltb new_fd max_open_files ≡ true = ground arith in
        elim (Bool-cases (old_fd == new_fd)) [
          | inl same ↦
              rw (e, inside, same)
                (
                  (some new_fd, t, pipes),
                  rw (is_valid_lem t old_fd v, e, near),
                  (
                    refl,
                    v,
                    λ j. same_file t old_fd new_fd j f ((==_iff old_fd new_fd).0 same) e,
                    refl,
                  ),
                )
          | inr other ↦
              let h : new_fd < max_open_files = ground arith in
              rw (e, inside, other)
                (
                  (
                    some new_fd,
                    put (put t new_fd none) new_fd (some f),
                    released (file t new_fd) pipes,
                  ),
                  rw (is_valid_lem t old_fd v, e, near)
                      (replace_lem t pipes old_fd new_fd f v e h
                        ((==_false_iff old_fd new_fd).0 other)),
                  (
                    refl,
                    put-IsValid (put t new_fd none) new_fd (some f)
                        (put-IsValid t new_fd none v h tt) h (v.opened old_fd f e),
                    λ j. ground (
                      arith,
                      file-put (put t new_fd none) new_fd j (some f)
                          (put-IsValid t new_fd none v h tt) h,
                      file-put t new_fd j none v h,
                    ),
                    refl,
                  ),
                )
        ]
  ]
]
