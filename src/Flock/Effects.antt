-- ===== src/Flock/Effects.antt =====
-- Each call of src/flock.rs on the lock table: its effect on what every owner holds on every path.
use Prim.Native.String.{String}
use rustos.Prelude.{
  ℕ, ◌≡◌, ◌≢◌, ◌↔◌, refl, sym, ap, ◌⊎◌, inl, inr, Bool, true, false, ◌&&◌, none, some, List, Result,
  arith, ◌==◌, if◌then◌else◌, Bool-cases, Option-cases, ok, err,
}
use rustos.Prelude.Maps
use rustos.Prelude.Maps.{Map, string_eq, find-insert, find-remove, find-empty}
use rustos.Flock.{LockKind, LockHolder, LockTable, would_conflict, grant, holders, try_lock, unlock}
use rustos.Flock.Holders.{held, held-grant, held-drop_owner, held-nil, drop_owner_shortens}
use rustos.Flock.Table.{same_path, holds, holders-insert, holders-unlock, kept_at, holders_found}

abbrev is_ok {ℓ} : {A E : Type ℓ} → Result A E → Bool
is_ok (ok a) = true
is_ok (err e) = false

-- A granted request gives the owner just the lock asked for on this path, in place of any it had
-- there; a refused one changes nothing. What others hold, and what is held on other paths, stays.
try_lock-holds :
    (t : LockTable) (path path' : String) (owner other : ℕ) (kind : LockKind)
    → holds (try_lock t path owner kind).1 path' other ≡ (
        if is_ok (try_lock t path owner kind).0 && (same_path path path' && (owner == other))
        then some kind
        else holds t path' other)
unfolding try_lock
try_lock-holds t path path' owner other kind =
    let hs : List LockHolder = holders t path in
    elim (Bool-cases (would_conflict hs owner kind)) [
      | inl e ↦
          rw (e, holders-insert t path path' hs)
            (ap (λ l. held l other) (sym (kept_at t path path' hs refl)))
      | inr e ↦ rw e (granted (Bool-cases (same_path path path')))
    ]
  where
    granted :
        (same_path path path' ≡ true) ⊎ (same_path path path' ≡ false)
        → holds
            (record { locks = Maps.insert t.locks path (grant (holders t path) owner kind) })
            path'
            other
          ≡ (if same_path path path' && (owner == other) then some kind else holds t path' other)
    granted (inl s) = rw (
      holders-insert t path path' (grant (holders t path) owner kind),
      s,
      held-grant (holders t path) owner other kind,
      (string_eq.beq_iff path path').0 s,
    )
    granted (inr s) = rw (holders-insert t path path' (grant (holders t path) owner kind), s)

-- `unlock` takes the owner's lock on this path away; what others hold, and what is held on other
-- paths, stays.
unlock-holds :
    (t : LockTable) (path path' : String) (owner other : ℕ)
    → holds (unlock t path owner).1 path' other
      ≡ (if same_path path path' && (owner == other) then none else holds t path' other)
unlock-holds t path path' owner other = elim (Bool-cases (same_path path path')) [
  | inl e ↦ rw (
    holders-unlock t path path' owner,
    e,
    held-drop_owner (holders t path) owner other,
    (string_eq.beq_iff path path').0 e,
  )
  | inr e ↦ rw (holders-unlock t path path' owner, e)
]

-- `unlock` answers `true` just when the owner held a lock on the path.
unlock_answer :
    (t : LockTable) (path : String) (owner : ℕ)
    → ((unlock t path owner).0 ≡ true) ↔ (holds t path owner ≢ none)
unfolding unlock
unlock_answer t path owner = elim (Option-cases (Maps.find t.locks path)) [
  | inl h ↦ rw (h, unlock, holders_found t path none h) (λ e. cc, λ n. absurd (n (held-nil owner)))
  | inr (hs, h) ↦
      let (to, from) = drop_owner_shortens hs owner in
      rw (h, unlock, holders_found t path (some hs) h)
        (λ e. to (ground arith), λ n. ground (arith, from n))
]
