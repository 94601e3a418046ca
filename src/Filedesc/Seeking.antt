-- ===== src/Filedesc/Seeking.antt =====
-- `lseek`: the new offset is the base plus the signed offset, or the call changes nothing.
use rustos.Prelude.{
  ℤ, pos, negsuc, ℕ, zero, suc, ◌+◌, ◌-◌, ◌^◌, ◌≤◌, ◌<◌, ◌≡◌, refl, inl, inr, Option, none, some,
  arith, ◌==◌, if◌then◌else◌, Option-cases, done, leb,
}
use rustos.Filedesc.{FdTable, OpenFile, max_open_files, seek_from, new_offset, lseek}
use rustos.Filedesc.Slots.{
  file, IsValid, put, put-IsValid, file-put, index-file, store_file, file-lt,
}

-- base + offset, if it is not negative
pub target : ℕ → ℤ → Option ℕ
target base (pos n) = some (base + n)
target base (negsuc n) = if leb (suc n) base then some (base - suc n) else none

-- Where SEEK_SET (0), SEEK_CUR (1) and SEEK_END (2) count from.
pub base_of : ℕ → ℕ → ℕ → Option ℕ
base_of zero current file_size = some 0
base_of (suc zero) current file_size = some current
base_of (suc (suc zero)) current file_size = some file_size
base_of (suc (suc (suc whence))) current file_size = none

pub seek_target : Option ℕ → ℤ → Option ℕ
seek_target none offset = none
seek_target (some base) offset = target base offset

-- An `isize` other than its minimum, and a sum with each base below 2^64.
abbrev pub Fits : ℤ → ℕ → Type 0
Fits (pos n) bound = bound + n < 2 ^ 64
Fits (negsuc n) bound = suc n < 2 ^ 63

seek_from_lem :
    (base bound : ℕ) (offset : ℤ)
    → Fits offset bound
    → base ≤ bound
    → seek_from base offset ≡ done (target base offset)
unfolding seek_from target
seek_from_lem base bound (pos n) h b = ground arith
seek_from_lem base bound (negsuc n) h b = ground arith

new_offset_lem :
    (whence : ℕ) (offset : ℤ) (current file_size bound : ℕ)
    → Fits offset bound
    → current ≤ bound
    → file_size ≤ bound
    → new_offset whence offset current file_size
      ≡ done (seek_target (base_of whence current file_size) offset)
unfolding new_offset base_of seek_target
new_offset_lem zero (pos n) current file_size bound h c s = unfold target in (ground arith)
new_offset_lem zero (negsuc n) current file_size bound h c s = unfold target in (ground arith)
new_offset_lem (suc zero) offset current file_size bound h c s =
    seek_from_lem current bound offset h c
new_offset_lem (suc (suc zero)) offset current file_size bound h c s =
    seek_from_lem file_size bound offset h s
new_offset_lem (suc (suc (suc whence))) offset current file_size bound h c s = refl

-- The table in which the file behind a descriptor has a new offset, if there is one.
abbrev pub Moved : FdTable → ℕ → OpenFile → Option ℕ → FdTable → Type 0
Moved t fd f none t' = t' ≡ t
Moved t fd f (some n) t' =
    (j : ℕ) → file t' j ≡ (if fd == j then some (record f { offset = n }) else file t j)

-- `lseek` on an open descriptor of a valid table does not panic, where the signed offset is not
-- negative and its sums with the file's offset and with its size fit in 64 bits, or it is negative
-- and not `isize::MIN`. It answers the base that `whence` names
-- plus the signed offset and makes that the file's offset, changing nothing else; where the sum is
-- negative or `whence` is unknown, it fails and changes nothing.
pub lseek-seek_target :
    (t : FdTable) (fd : ℕ) (f : OpenFile) (offset : ℤ) (whence file_size bound : ℕ)
    → IsValid t
    → file t fd ≡ some f
    → Fits offset bound
    → f.offset ≤ bound
    → file_size ≤ bound
    → (t' : FdTable) × (lseek t fd offset whence file_size
        ≡ done (seek_target (base_of whence f.offset file_size) offset, t'))
      × IsValid t'
      × Moved t fd f (seek_target (base_of whence f.offset file_size) offset) t'
unfolding lseek
lseek-seek_target t fd f offset whence file_size bound v e h o s =
    let inside : fd < max_open_files = file-lt t fd f v e in
    let step : new_offset whence offset f.offset file_size
        ≡ done (seek_target (base_of whence f.offset file_size) offset) =
      new_offset_lem whence offset f.offset file_size bound h o s in
    elim (Option-cases (seek_target (base_of whence f.offset file_size) offset)) [
      | inl nowhere ↦ rw nowhere (t, rw (index-file t fd v inside, e, step, nowhere), v, refl)
      | inr (n, there) ↦ rw there (
        put t fd (some (record f { offset = n })),
        rw (
          index-file t fd v inside,
          e,
          step,
          there,
          store_file t fd (some (record f { offset = n })) v inside,
        ),
        put-IsValid t fd _ v inside (v.opened fd f e),
        λ j. file-put t fd j _ v inside,
      )
    ]
