-- ===== src/Flock.antt =====
-- src/flock.rs, advisory locks on whole files: `LockTable` and `flock`. The table behind `LOCKS`
-- is passed on explicitly; a path is a text.
pub mod Holders
pub mod Table
pub mod Effects
pub mod Ranges
mod Tests
use Prim.Native.Nat.{bit_and}
use Prim.Native.String.{String}
use rustos.Prelude.{
  ℕ, Bool, true, false, not, ◌&&◌, ◌||◌, Option, none, some, List, [], ◌∷◌, ◌++◌, length, ◌==◌,
  if◌then◌else◌, Result, ok, err,
}
use rustos.Prelude.Maps
use rustos.Prelude.Maps.{Map, string_eq}

abbrev pub lock_sh : ℕ
lock_sh = 1

abbrev pub lock_ex : ℕ
lock_ex = 2

abbrev pub lock_un : ℕ
lock_un = 8

pub data LockKind : Type 0 where
  shared exclusive : LockKind

pub record LockHolder : Type 0 where
  pub owner : ℕ
  pub kind : LockKind

-- The message of an `Err`.
pub data LockError : Type 0 where
  would_block invalid_op : LockError

pub record LockTable : Type 0 where
  pub locks : Map String (List LockHolder)

pub new : LockTable
new = record { locks = Maps.empty }

abbrev pub is_exclusive : LockKind → Bool
is_exclusive shared = false
is_exclusive exclusive = true

-- One test of `any`: another owner's lock is in the way.
abbrev pub blocks : ℕ → LockKind → LockHolder → Bool
blocks owner shared h = not (h.owner == owner) && is_exclusive h.kind
blocks owner exclusive h = not (h.owner == owner)

pub would_conflict : List LockHolder → ℕ → LockKind → Bool
would_conflict [] owner kind = false
would_conflict (h ∷ hs) owner kind = blocks owner kind h || would_conflict hs owner kind

-- Replaces the lock of the first holder with this owner, or adds one at the end.
pub grant : List LockHolder → ℕ → LockKind → List LockHolder
grant [] owner kind = record { owner = owner; kind = kind } ∷ []
grant (h ∷ hs) owner kind =
    if h.owner == owner then record h { kind = kind } ∷ hs else h ∷ grant hs owner kind

-- `holders.retain(|h| h.owner != owner)`
pub drop_owner : List LockHolder → ℕ → List LockHolder
drop_owner [] owner = []
drop_owner (h ∷ hs) owner =
    if h.owner == owner then drop_owner hs owner else h ∷ drop_owner hs owner

abbrev pub or_default : Option (List LockHolder) → List LockHolder
or_default none = []
or_default (some hs) = hs

-- `holders`: what is held on a path.
pub holders : LockTable → String → List LockHolder
holders t path = or_default (Maps.find t.locks path)

-- The entry is made before the test, and stays when the test fails.
pub try_lock : LockTable → String → ℕ → LockKind → Result (Unit {0}) LockError × LockTable
try_lock t path owner kind =
    let entry = holders t path in
    if would_conflict entry owner kind
    then (err would_block, record { locks = Maps.insert t.locks path entry })
    else (ok tt, record { locks = Maps.insert t.locks path (grant entry owner kind) })

abbrev pub is_empty : List LockHolder → Bool
is_empty [] = true
is_empty (h ∷ hs) = false

pub unlock : LockTable → String → ℕ → Bool × LockTable
unlock t path owner = elim (Maps.find t.locks path) [
  | none ↦ (false, t)
  | some hs ↦
      let kept = drop_owner hs owner in
      (
        not (length kept == length hs),
        (if is_empty kept
            then record { locks = Maps.remove t.locks path }
            else record { locks = Maps.insert t.locks path kept }),
      )
]

-- `op & LOCK_X != 0`
abbrev pub has_flag : ℕ → ℕ → Bool
has_flag op flag = not (bit_and op flag == 0)

-- LOCK_NB is read and not used: no call waits.
pub flock : LockTable → String → ℕ → ℕ → Result (Unit {0}) LockError × LockTable
flock t path owner op =
    if has_flag op lock_un
    then (ok tt, (unlock t path owner).1)
    else if has_flag op lock_ex
    then try_lock t path owner exclusive
    else if has_flag op lock_sh
    then try_lock t path owner shared
    else (err invalid_op, t)
