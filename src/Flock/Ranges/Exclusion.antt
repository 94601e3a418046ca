-- ===== src/Flock/Ranges/Exclusion.antt =====
-- No byte of a file is locked by two owners of which one holds it exclusively.
use Prim.Native.String.{String}
use rustos.Prelude.{
  ℕ, ◌-◌, ◌^◌, ◌<◌, ◌≡◌, ◌≢◌, subst, inl, inr, Bool, true, false, some, List, [], ◌∷◌, ◌++◌, arith,
  if◌then◌else◌, Bool-cases, Option-cases, get_elem?,
}
use rustos.Prelude.Maps
use rustos.Prelude.Maps.{string_eq, find-insert, find-remove, find-empty}
use rustos.Flock.{shared}
use rustos.Flock.Ranges.{
  ByteLock, ByteLockTable, new, any_conflict, or_default, locks_on, try_lock, without, is_empty,
  unlock,
}
use rustos.Flock.Ranges.Agreement.{AllAgree, Covers, AllAgree-push, AllAgree-without, Agree_of_get}

abbrev IsValid : ByteLockTable → Type 0
IsValid t = (path : String) → AllAgree (locks_on t path)

if-AllAgree :
    (b : Bool) (ls ls' : List ByteLock)
    → AllAgree ls
    → AllAgree ls'
    → AllAgree (if b then ls else ls')
if-AllAgree true ls ls' a a' = a
if-AllAgree false ls ls' a a' = a'

locks_on-insert :
    (t : ByteLockTable) (path path' : String) (ls : List ByteLock)
    → locks_on (record { by_path = Maps.insert t.by_path path ls }) path'
      ≡ (if string_eq.beq path path' then ls else locks_on t path')
unfolding locks_on
locks_on-insert t path path' ls = ground (arith, find-insert t.by_path path path' ls)

insert-IsValid :
    (t : ByteLockTable) (path : String) (ls : List ByteLock)
    → IsValid t
    → AllAgree ls
    → IsValid (record { by_path = Maps.insert t.by_path path ls })
insert-IsValid t path ls v a path' =
    rw (locks_on-insert t path path' ls)
      (if-AllAgree (string_eq.beq path path') ls (locks_on t path') a (v path'))

try_lock-IsValid :
    (t : ByteLockTable) (path : String) (lock : ByteLock)
    → IsValid t
    → IsValid (try_lock t path lock).1
unfolding try_lock
try_lock-IsValid t path lock v = elim (Bool-cases (any_conflict (locks_on t path) lock)) [
  | inl e ↦ rw e (insert-IsValid t path (locks_on t path) v (v path))
  | inr e ↦ rw e (
      insert-IsValid t path (locks_on t path ++ lock ∷ []) v
        (AllAgree-push (locks_on t path) lock e (v path)))
]

remove-IsValid :
    (t : ByteLockTable) (path : String)
    → IsValid t
    → IsValid (record { by_path = Maps.remove t.by_path path })
unfolding locks_on
remove-IsValid t path v path' = elim (Bool-cases (string_eq.beq path path')) [
  | inl e ↦ rw (find-remove t.by_path path path', e) tt
  | inr e ↦ rw (find-remove t.by_path path path', e) (v path')
]

unlock-IsValid :
    (t : ByteLockTable) (path : String) (owner start len : ℕ)
    → IsValid t
    → IsValid (unlock t path owner start len).1
unfolding unlock locks_on
unlock-IsValid t path owner start len v = elim (Option-cases (Maps.find t.by_path path)) [
  | inl h ↦ rw (h, unlock) v
  | inr (ls, h) ↦
      let agree : AllAgree ls = subst (λ o. AllAgree (or_default o)) h (v path) in
      rw (h, unlock)
        (elim (Bool-cases (is_empty (without ls owner start len))) [
          | inl e ↦ rw e (remove-IsValid t path v)
          | inr e ↦ rw e (
              insert-IsValid t path (without ls owner start len) v
                (AllAgree-without ls owner start len agree))
        ])
]

pub data Call : Type 0 where
  locks : String → ByteLock → Call
  unlocks : String → ℕ → ℕ → ℕ → Call

unfoldable pub run : ByteLockTable → List Call → ByteLockTable
run t [] = t
run t (locks path lock ∷ calls) = run (try_lock t path lock).1 calls
run t (unlocks path owner start len ∷ calls) = run (unlock t path owner start len).1 calls

run-IsValid : (t : ByteLockTable) (calls : List Call) → IsValid t → IsValid (run t calls)
unfolding run
run-IsValid t [] v = v
run-IsValid t (locks path lock ∷ calls) v =
    run-IsValid (try_lock t path lock).1 calls (try_lock-IsValid t path lock v)
run-IsValid t (unlocks path owner start len ∷ calls) v =
    run-IsValid (unlock t path owner start len).1 calls (unlock-IsValid t path owner start len v)

new-IsValid : IsValid new
unfolding new locks_on
new-IsValid path = rw (find-empty path) tt

-- After any sequence of byte-range lock and unlock calls, a byte other than the one at
-- the offset `u64::MAX` that two locks of different owners on one path both cover, where a length of
-- 0 means every byte from the start on, is locked shared by both.
pub byte_exclusion :
    (calls : List Call) (path : String) (i j : ℕ) (l m : ByteLock) (byte : ℕ)
    → get_elem? (locks_on (run new calls) path) i ≡ some l
    → get_elem? (locks_on (run new calls) path) j ≡ some m
    → l.owner ≢ m.owner
    → byte < 2 ^ 64 - 1
    → Covers l byte
    → Covers m byte
    → (l.kind ≡ shared) × (m.kind ≡ shared)
byte_exclusion calls path i j l m byte e e' ne b c d =
    Agree_of_get (locks_on (run new calls) path) i j l m (run-IsValid new calls new-IsValid path) e
      e' byte b c d ne
