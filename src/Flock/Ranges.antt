-- ===== src/Flock/Ranges.antt =====
-- src/flock.rs, byte-range locks: `ByteLock` and `ByteLockTable`. Offsets are u64 values.
pub mod Agreement
pub mod Exclusion
use Prim.Native.String.{String}
use rustos.Prelude.{
  ℕ, ◌+◌, ◌-◌, ◌^◌, min, Bool, true, false, not, ◌&&◌, ◌||◌, Option, none, some, List, [], ◌∷◌,
  ◌++◌, length, ◌==◌, ltb, if◌then◌else◌, Result, ok, err,
}
use rustos.Prelude.Maps
use rustos.Prelude.Maps.{Map, string_eq}
use rustos.Flock.{LockKind, LockError, would_block, is_exclusive}

-- u64::MAX
abbrev u64_max : ℕ
u64_max = 2 ^ 64 - 1

pub record ByteLock : Type 0 where
  pub owner : ℕ
  pub start : ℕ
  pub len : ℕ
  pub kind : LockKind

pub record ByteLockTable : Type 0 where
  pub by_path : Map String (List ByteLock)

unfoldable pub new : ByteLockTable
new = record { by_path = Maps.empty }

abbrev saturating_add : ℕ → ℕ → ℕ
saturating_add a b = min u64_max (a + b)

-- The first byte behind a range; a length of 0 reaches to the end of the file.
abbrev range_end : ℕ → ℕ → ℕ
range_end start len = if len == 0 then u64_max else saturating_add start len

unfoldable pub ranges_overlap : ℕ → ℕ → ℕ → ℕ → Bool
ranges_overlap a_start a_len b_start b_len =
    ltb a_start (range_end b_start b_len) && ltb b_start (range_end a_start a_len)

-- One round of the loop of `try_lock`: the existing lock is in the way.
unfoldable pub conflicts : ByteLock → ByteLock → Bool
conflicts existing lock =
    if existing.owner == lock.owner
    then false
    else ranges_overlap existing.start existing.len lock.start lock.len
      && (is_exclusive existing.kind || is_exclusive lock.kind)

unfoldable pub any_conflict : List ByteLock → ByteLock → Bool
any_conflict [] lock = false
any_conflict (existing ∷ rest) lock = conflicts existing lock || any_conflict rest lock

abbrev pub or_default : Option (List ByteLock) → List ByteLock
or_default none = []
or_default (some ls) = ls

unfoldable pub locks_on : ByteLockTable → String → List ByteLock
locks_on t path = or_default (Maps.find t.by_path path)

unfoldable pub try_lock :
    ByteLockTable → String → ByteLock → Result (Unit {0}) LockError × ByteLockTable
try_lock t path lock =
    let entry = locks_on t path in
    if any_conflict entry lock
    then (err would_block, record { by_path = Maps.insert t.by_path path entry })
    else (ok tt, record { by_path = Maps.insert t.by_path path (entry ++ lock ∷ []) })

-- `retain(|l| !(l.owner == owner && l.start == start && l.len == len))`
pub without : List ByteLock → ℕ → ℕ → ℕ → List ByteLock
without [] owner start len = []
without (l ∷ ls) owner start len =
    if l.owner == owner && l.start == start && l.len == len
    then without ls owner start len
    else l ∷ without ls owner start len

abbrev pub is_empty : List ByteLock → Bool
is_empty [] = true
is_empty (l ∷ ls) = false

pub unlock : ByteLockTable → String → ℕ → ℕ → ℕ → ℕ × ByteLockTable
unlock t path owner start len = elim (Maps.find t.by_path path) [
  | none ↦ (0, t)
  | some ls ↦
      let kept = without ls owner start len in
      (
        length ls - length kept,
        (if is_empty kept
            then record { by_path = Maps.remove t.by_path path }
            else record { by_path = Maps.insert t.by_path path kept }),
      )
]
