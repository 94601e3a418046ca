-- ===== src/Flock/Holders.antt =====
-- The locks on one file: what granting and dropping do to them, and that holders stay compatible.
use rustos.Prelude.{
  ℕ, ◌≤◌, ◌≡◌, ◌≢◌, ◌↔◌, refl, sym, inl, inr, false, Option, none, some, List, [], ◌∷◌, arith,
  length, ◌==◌, ==_iff, ==_false_iff, if◌then◌else◌, Bool-cases,
}
use rustos.Flock.{
  LockKind, shared, exclusive, LockHolder, blocks, would_conflict, grant, drop_owner,
}

abbrev pub All {ℓ} : (LockHolder → Type ℓ) → List LockHolder → Type ℓ
All P [] = Unit
All P (h ∷ hs) = P h × All P hs

-- Two locks of one file: different owners, and none of the two exclusive.
abbrev Compatible : LockHolder → LockHolder → Type 0
Compatible h h' = (h.owner ≢ h'.owner) × (h.kind ≡ shared) × (h'.kind ≡ shared)

abbrev pub IsCompatible : List LockHolder → Type 0
IsCompatible [] = Unit
IsCompatible (h ∷ hs) = All (Compatible h) hs × IsCompatible hs

-- The lock that an owner holds, if any.
unfoldable pub held : List LockHolder → ℕ → Option LockKind
held [] owner = none
held (h ∷ hs) owner = if h.owner == owner then some h.kind else held hs owner

pub held-nil : (owner : ℕ) → held [] owner ≡ none
unfolding held
held-nil owner = refl

pub held-grant :
    (hs : List LockHolder) (owner other : ℕ) (kind : LockKind)
    → held (grant hs owner kind) other ≡ (if owner == other then some kind else held hs other)
unfolding held grant
held-grant [] owner other kind = ground arith
held-grant (h ∷ hs) owner other kind = ground (arith, held-grant hs owner other kind)

pub held-drop_owner :
    (hs : List LockHolder) (owner other : ℕ)
    → held (drop_owner hs owner) other ≡ (if owner == other then none else held hs other)
unfolding held drop_owner
held-drop_owner [] owner other = ground arith
held-drop_owner (h ∷ hs) owner other = ground (arith, held-drop_owner hs owner other)

All-drop_owner {ℓ} :
    (P : LockHolder → Type ℓ) (hs : List LockHolder) (owner : ℕ)
    → All P hs
    → All P (drop_owner hs owner)
unfolding drop_owner
All-drop_owner P [] owner a = tt
All-drop_owner P (h ∷ hs) owner a = elim (Bool-cases (h.owner == owner)) [
  | inl e ↦ rw e (All-drop_owner P hs owner a.1)
  | inr e ↦ rw e (a.0, All-drop_owner P hs owner a.1)
]

pub drop_owner-IsCompatible :
    (hs : List LockHolder) (owner : ℕ) → IsCompatible hs → IsCompatible (drop_owner hs owner)
unfolding drop_owner
drop_owner-IsCompatible [] owner c = tt
drop_owner-IsCompatible (h ∷ hs) owner c = elim (Bool-cases (h.owner == owner)) [
  | inl e ↦ rw e (drop_owner-IsCompatible hs owner c.1)
  | inr e ↦ rw e (All-drop_owner (Compatible h) hs owner c.0, drop_owner-IsCompatible hs owner c.1)
]

-- A lock that may be granted beside a holder: the holder is the owner, or both are shared.
abbrev pub Fits : ℕ → LockKind → LockHolder → Type 0
Fits owner kind h = (h.owner ≢ owner) → (kind ≡ shared) × (h.kind ≡ shared)

Fits-blocks :
    (owner : ℕ) (kind : LockKind) (h : LockHolder) → blocks owner kind h ≡ false → Fits owner kind h
Fits-blocks owner shared h b ne = (refl, ground arith)
Fits-blocks owner exclusive h b ne = ground arith

pub All-Fits :
    (hs : List LockHolder) (owner : ℕ) (kind : LockKind)
    → would_conflict hs owner kind ≡ false
    → All (Fits owner kind) hs
unfolding would_conflict
All-Fits [] owner kind e = tt
All-Fits (h ∷ hs) owner kind e =
    (Fits-blocks owner kind h (ground arith), All-Fits hs owner kind (ground arith))

blocks-Fits :
    (owner : ℕ) (kind : LockKind) (h : LockHolder) → Fits owner kind h → blocks owner kind h ≡ false
blocks-Fits owner kind h f = elim (Bool-cases (h.owner == owner)) [
  | inl e ↦ ground arith
  | inr e ↦ ground (arith, f ((==_false_iff h.owner owner).0 e))
]

pub would_conflict-Fits :
    (hs : List LockHolder) (owner : ℕ) (kind : LockKind)
    → All (Fits owner kind) hs
    → would_conflict hs owner kind ≡ false
unfolding would_conflict
would_conflict-Fits [] owner kind a = refl
would_conflict-Fits (h ∷ hs) owner kind a =
    rw (blocks-Fits owner kind h a.0, would_conflict-Fits hs owner kind a.1)

-- The owner's new lock in the place of its old one.
All-replaced :
    (h : LockHolder) (kind : LockKind) (hs : List LockHolder)
    → All (Fits h.owner kind) hs
    → All (Compatible h) hs
    → All (Compatible (record h { kind = kind })) hs
All-replaced h kind [] f a = tt
All-replaced h kind (g ∷ hs) f a =
    let (k, g_kind) = f.0 (λ e. a.0.0 (sym e)) in
    ((a.0.0, k, g_kind), All-replaced h kind hs f.1 a.1)

All-grant :
    (h : LockHolder) (owner : ℕ) (kind : LockKind) (hs : List LockHolder)
    → Compatible h (record { owner = owner; kind = kind })
    → All (Compatible h) hs
    → All (Compatible h) (grant hs owner kind)
unfolding grant
All-grant h owner kind [] c a = (c, tt)
All-grant h owner kind (g ∷ hs) c a = elim (Bool-cases (g.owner == owner)) [
  | inl e ↦ rw e ((a.0.0, c.1, c.2), a.1)
  | inr e ↦ rw e (a.0, All-grant h owner kind hs c a.1)
]

pub grant-IsCompatible :
    (hs : List LockHolder) (owner : ℕ) (kind : LockKind)
    → All (Fits owner kind) hs
    → IsCompatible hs
    → IsCompatible (grant hs owner kind)
unfolding grant
grant-IsCompatible [] owner kind f c = (tt, tt)
grant-IsCompatible (h ∷ hs) owner kind f c = elim (Bool-cases (h.owner == owner)) [
  | inl e ↦ rw e (All-replaced h kind hs (rw ((==_iff h.owner owner).0 e) f.1) c.0, c.1)
  | inr e ↦
      let ne : h.owner ≢ owner = (==_false_iff h.owner owner).0 e in
      let (k, h_kind) = f.0 ne in
      rw e (All-grant h owner kind hs (ne, h_kind, k) c.0, grant-IsCompatible hs owner kind f.1 c.1)
]

-- Where every lock beside `h` is compatible with it, another owner's lock is a shared one.
held_beside :
    (h : LockHolder) (hs : List LockHolder) (owner : ℕ) (kind : LockKind)
    → All (Compatible h) hs
    → held hs owner ≡ some kind
    → (h.kind ≡ shared) × (kind ≡ shared)
unfolding held
held_beside h [] owner kind a e = cc
held_beside h (g ∷ hs) owner kind a e = elim (Bool-cases (g.owner == owner)) [
  | inl same ↦ ground (arith, a.0.1, a.0.2)
  | inr other ↦ held_beside h hs owner kind a.1 (ground arith)
]

-- Two owners hold locks of one file at once only if both locks are shared.
pub held_by_two :
    (hs : List LockHolder) (a b : ℕ) (kind kind' : LockKind)
    → IsCompatible hs
    → a ≢ b
    → held hs a ≡ some kind
    → held hs b ≡ some kind'
    → (kind ≡ shared) × (kind' ≡ shared)
unfolding held
held_by_two [] a b kind kind' c ne ha hb = cc
held_by_two (h ∷ hs) a b kind kind' c ne ha hb = elim (Bool-cases (h.owner == a)) [
  | inl first ↦ let (hk, k) = held_beside h hs b kind' c.0 (ground arith) in (ground arith, k)
  | inr e ↦ elim (Bool-cases (h.owner == b)) [
    | inl second ↦ let (hk, k) = held_beside h hs a kind c.0 (ground arith) in (k, ground arith)
    | inr e' ↦ held_by_two hs a b kind kind' c.1 ne (ground arith) (ground arith)
  ]
]

length-drop_owner : (hs : List LockHolder) (owner : ℕ) → length (drop_owner hs owner) ≤ length hs
unfolding drop_owner
length-drop_owner [] owner = omega arith
length-drop_owner (h ∷ hs) owner = ground (arith, length-drop_owner hs owner)

-- Dropping shortens the list just when the owner held something.
pub drop_owner_shortens :
    (hs : List LockHolder) (owner : ℕ)
    → (length (drop_owner hs owner) == length hs ≡ false) ↔ (held hs owner ≢ none)
unfolding drop_owner held
drop_owner_shortens [] owner = (λ e. cc, λ n. absurd (n refl))
drop_owner_shortens (h ∷ hs) owner = elim (Bool-cases (h.owner == owner)) [
  | inl e ↦ rw e (λ _ n. cc, λ n. ground (arith, length-drop_owner hs owner))
  | inr e ↦ rw e (
    λ s n. (drop_owner_shortens hs owner).0 (ground arith) n,
    λ n. ground (arith, (drop_owner_shortens hs owner).1 n),
  )
]
