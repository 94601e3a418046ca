-- ===== src/Flock/Tests.antt =====
-- Runs of the lock tables at concrete inputs, and the theorems at such inputs.
use rustos.Prelude.{◌≡◌, ◌↔◌, refl, some, List, [], ◌∷◌, arith, ok, get_elem?, inl, inr}
use rustos.Prelude.Maps
use rustos.Flock
use rustos.Flock.{
  LockTable, LockKind, shared, exclusive, new, try_lock, unlock, flock, would_block, holders,
}
use rustos.Flock.Holders.{All, Fits}
use rustos.Flock.Table.{Call, run, holds, flock_exclusion, try_lock_granted_iff}
use rustos.Flock.Ranges
use rustos.Flock.Ranges.{ByteLock, locks_on}
use rustos.Flock.Ranges.Exclusion.{byte_exclusion}
use rustos.Flock.Ranges.Exclusion as Exclusion

-- Two owners share "/a"; the second one's request for an exclusive lock is refused.
abbrev calls : List Call
calls = ("/a", 1, 1) ∷ ("/a", 2, 5) ∷ ("/a", 2, 2) ∷ []

abbrev locked : LockTable
locked = run new calls

held_1 : holds locked "/a" 1 ≡ some shared
unfolding run flock try_lock Flock.would_conflict Flock.grant holders Maps.find Maps.insert
    Flock.Holders.held new unlock Maps.empty
held_1 = refl

held_2 : holds locked "/a" 2 ≡ some shared
unfolding run flock try_lock Flock.would_conflict Flock.grant holders Maps.find Maps.insert
    Flock.Holders.held new unlock Maps.empty
held_2 = refl

flock_exclusion_example : (shared ≡ shared) × (shared ≡ shared)
flock_exclusion_example = flock_exclusion calls "/a" 1 2 shared shared (omega arith) held_1 held_2

try_lock_granted_iff_example :
    ((try_lock locked "/a" 2 exclusive).0 ≡ ok tt) ↔ All (Fits 2 exclusive) (holders locked "/a")
try_lock_granted_iff_example = try_lock_granted_iff locked "/a" 2 exclusive

abbrev head_lock : ByteLock
head_lock = record { owner = 1; start = 0; len = 10; kind = shared }

-- To the end of the file.
abbrev tail_lock : ByteLock
tail_lock = record { owner = 2; start = 5; len = 0; kind = shared }

abbrev range_calls : List Exclusion.Call
range_calls = Exclusion.locks "/a" head_lock ∷ Exclusion.locks "/a" tail_lock ∷ []

first_lock : get_elem? (locks_on (Exclusion.run Ranges.new range_calls) "/a") 0 ≡ some head_lock
unfolding Exclusion.run Ranges.try_lock Ranges.any_conflict Ranges.conflicts Ranges.ranges_overlap
    locks_on Ranges.new Maps.find Maps.insert Maps.empty
first_lock = refl

second_lock : get_elem? (locks_on (Exclusion.run Ranges.new range_calls) "/a") 1 ≡ some tail_lock
unfolding Exclusion.run Ranges.try_lock Ranges.any_conflict Ranges.conflicts Ranges.ranges_overlap
    locks_on Ranges.new Maps.find Maps.insert Maps.empty
second_lock = refl

byte_exclusion_example : (shared ≡ shared) × (shared ≡ shared)
byte_exclusion_example =
    byte_exclusion range_calls "/a" 0 1 head_lock tail_lock 7 first_lock second_lock (omega arith)
      (omega arith) (omega arith, inr (omega arith)) (omega arith, inl refl)
