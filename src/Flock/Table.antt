-- ===== src/Flock/Table.antt =====
-- The lock table of src/flock.rs: the holders of a path after each change of the table, and mutual
-- exclusion in every table that calls of `flock` can reach.
use Prim.Native.String.{String}
use rustos.Prelude.{
  ℕ, ◌≡◌, ◌≢◌, ◌↔◌, refl, inl, inr, Bool, true, false, Option, none, some, List, [], ◌∷◌, arith,
  if◌then◌else◌, Bool-cases, Option-cases, ok,
}
use rustos.Prelude.Maps
use rustos.Prelude.Maps.{Map, string_eq, find-insert, find-remove, find-empty}
use rustos.Flock.{
  LockKind, shared, exclusive, LockHolder, LockTable, new, would_conflict, grant, drop_owner,
  holders, or_default, is_empty, try_lock, unlock, flock, has_flag, lock_un, lock_ex, lock_sh,
}
use rustos.Flock.Holders.{
  All, IsCompatible, Fits, held, drop_owner-IsCompatible, All-Fits, would_conflict-Fits,
  grant-IsCompatible, held_by_two,
}

-- The comparison of paths.
abbrev pub same_path : String → String → Bool
same_path p q = string_eq.beq p q

-- What an owner holds on a path.
abbrev pub holds : LockTable → String → ℕ → Option LockKind
holds t path owner = held (holders t path) owner

abbrev pub IsValid : LockTable → Type 0
IsValid t = (path : String) → IsCompatible (holders t path)

pub holders-insert :
    (t : LockTable) (path path' : String) (hs : List LockHolder)
    → holders (record { locks = Maps.insert t.locks path hs }) path'
      ≡ (if same_path path path' then hs else holders t path')
unfolding holders
holders-insert t path path' hs = ground (arith, find-insert t.locks path path' hs)

pub holders_found :
    (t : LockTable) (path : String) (o : Option (List LockHolder))
    → Maps.find t.locks path ≡ o
    → holders t path ≡ or_default o
unfolding holders
holders_found t path o h = rw h

-- Without its entry a path has no holders.
holders-remove :
    (t : LockTable) (path path' : String)
    → holders (record { locks = Maps.remove t.locks path }) path'
      ≡ (if same_path path path' then [] else holders t path')
unfolding holders
holders-remove t path path' = ground (arith, find-remove t.locks path path')

is_empty-nil : (hs : List LockHolder) → is_empty hs ≡ true → hs ≡ []
is_empty-nil [] h = refl
is_empty-nil (x ∷ hs) h = cc

-- A value at one key that is there already.
pub kept_at :
    (t : LockTable) (path path' : String) (hs : List LockHolder)
    → holders t path ≡ hs
    → holders t path' ≡ (if same_path path path' then hs else holders t path')
kept_at t path path' hs h = elim (Bool-cases (same_path path path')) [
  | inl e ↦ rw (e, ← (string_eq.beq_iff path path').0 e) h
  | inr e ↦ rw e
]

-- Releasing drops the owner from the path's holders, and does nothing else.
pub holders-unlock :
    (t : LockTable) (path path' : String) (owner : ℕ)
    → holders (unlock t path owner).1 path'
      ≡ (if same_path path path' then drop_owner (holders t path) owner else holders t path')
unfolding unlock drop_owner
holders-unlock t path path' owner = elim (Option-cases (Maps.find t.locks path)) [
  | inl h ↦
      let gone : holders t path ≡ [] = holders_found t path none h in
      rw (h, unlock, gone) (kept_at t path path' [] gone)
  | inr (hs, h) ↦
      let found : holders t path ≡ hs = holders_found t path (some hs) h in
      rw (h, unlock, found)
        (elim (Bool-cases (is_empty (drop_owner hs owner))) [
          | inl e ↦ rw (e, is_empty-nil (drop_owner hs owner) e) (holders-remove t path path')
          | inr e ↦ rw e (holders-insert t path path' (drop_owner hs owner))
        ])
]

if-IsCompatible :
    (b : Bool) (hs hs' : List LockHolder)
    → IsCompatible hs
    → IsCompatible hs'
    → IsCompatible (if b then hs else hs')
if-IsCompatible true hs hs' c c' = c
if-IsCompatible false hs hs' c c' = c'

unlock-IsValid :
    (t : LockTable) (path : String) (owner : ℕ) → IsValid t → IsValid (unlock t path owner).1
unlock-IsValid t path owner v path' = rw (holders-unlock t path path' owner) (
    if-IsCompatible (same_path path path') _ _
      (drop_owner-IsCompatible (holders t path) owner (v path)) (v path'))

try_lock-IsValid :
    (t : LockTable) (path : String) (owner : ℕ) (kind : LockKind)
    → IsValid t
    → IsValid (try_lock t path owner kind).1
unfolding try_lock
try_lock-IsValid t path owner kind v path' =
    elim (Bool-cases (would_conflict (holders t path) owner kind)) [
      | inl e ↦
          rw (e, holders-insert t path path' (holders t path))
            (if-IsCompatible (same_path path path') _ _ (v path) (v path'))
      | inr e ↦
          rw (e, holders-insert t path path' (grant (holders t path) owner kind))
            (if-IsCompatible (same_path path path') _ _
              (grant-IsCompatible (holders t path) owner kind
                (All-Fits (holders t path) owner kind e) (v path))
              (v path'))
    ]

-- No call of `flock` breaks the compatibility of the locks.
flock-IsValid :
    (t : LockTable) (path : String) (owner op : ℕ) → IsValid t → IsValid (flock t path owner op).1
unfolding flock
flock-IsValid t path owner op v = elim (Bool-cases (has_flag op lock_un)) [
  | inl u ↦ rw u (unlock-IsValid t path owner v)
  | inr u ↦ rw u (elim (Bool-cases (has_flag op lock_ex)) [
    | inl x ↦ rw x (try_lock-IsValid t path owner exclusive v)
    | inr x ↦ rw x (elim (Bool-cases (has_flag op lock_sh)) [
      | inl s ↦ rw s (try_lock-IsValid t path owner shared v)
      | inr s ↦ rw s v
    ])
  ])
]

-- A call: a path, the caller and the operation's flags.
abbrev pub Call : Type 0
Call = String × ℕ × ℕ

unfoldable pub run : LockTable → List Call → LockTable
run t [] = t
run t ((path, owner, op) ∷ calls) = run (flock t path owner op).1 calls

run-IsValid : (t : LockTable) (calls : List Call) → IsValid t → IsValid (run t calls)
unfolding run
run-IsValid t [] v = v
run-IsValid t ((path, owner, op) ∷ calls) v =
    run-IsValid (flock t path owner op).1 calls (flock-IsValid t path owner op v)

new-IsValid : IsValid new
unfolding new holders
new-IsValid path = rw (find-empty path) tt

-- After any sequence of `flock` calls, two different owners that both hold a lock on a path both
-- hold it shared: an exclusive lock excludes every other lock.
pub flock_exclusion :
    (calls : List Call) (path : String) (a b : ℕ) (kind kind' : LockKind)
    → a ≢ b
    → holds (run new calls) path a ≡ some kind
    → holds (run new calls) path b ≡ some kind'
    → (kind ≡ shared) × (kind' ≡ shared)
flock_exclusion calls path a b kind kind' =
    held_by_two (holders (run new calls) path) a b kind kind'
      (run-IsValid new calls new-IsValid path)

-- A request is granted just when, for each lock that another owner holds on the path, that lock and
-- the one asked for are both shared.
pub try_lock_granted_iff :
    (t : LockTable) (path : String) (owner : ℕ) (kind : LockKind)
    → ((try_lock t path owner kind).0 ≡ ok tt) ↔ All (Fits owner kind) (holders t path)
unfolding try_lock
try_lock_granted_iff t path owner kind =
    elim (Bool-cases (would_conflict (holders t path) owner kind)) [
      | inl e ↦
          rw e (λ c. cc, λ f. ground (arith, would_conflict-Fits (holders t path) owner kind f))
      | inr e ↦ rw e (λ c. All-Fits (holders t path) owner kind e, λ f. refl)
    ]
