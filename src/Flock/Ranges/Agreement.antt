-- ===== src/Flock/Ranges/Agreement.antt =====
-- Byte-range locks that agree: where two owners' ranges meet, both are shared.
use rustos.Prelude.{
  ℕ, ◌+◌, ◌-◌, ◌^◌, ◌⊎◌, ◌≤◌, ◌<◌, ◌≡◌, ◌≢◌, zero, suc, subst, refl, sym, inl, inr, false, ◌&&◌,
  some, List, [], ◌∷◌, ◌++◌, arith, ◌==◌, Bool-cases, get_elem?,
}
use rustos.Prelude.Maps.{string_eq}
use rustos.Flock.{LockKind, shared, exclusive, is_exclusive}
use rustos.Flock.Ranges.{ByteLock, ranges_overlap, conflicts, any_conflict, without}

abbrev pub All : (ByteLock → Type 0) → List ByteLock → Type 0
All P [] = Unit
All P (l ∷ ls) = P l × All P ls

-- The byte at an offset lies in the range of a lock, which has no end if its length is 0.
abbrev pub Covers : ByteLock → ℕ → Type 0
Covers l byte = (l.start ≤ byte) × ((l.len ≡ 0) ⊎ (byte < l.start + l.len))

-- Two locks agree on each byte that both cover, unless they have one owner. The last offset,
-- `u64::MAX`, is behind every range of the code.
abbrev Agree : ByteLock → ByteLock → Type 0
Agree l m =
    (byte : ℕ)
    → byte < 2 ^ 64 - 1
    → Covers l byte
    → Covers m byte
    → l.owner ≢ m.owner
    → (l.kind ≡ shared) × (m.kind ≡ shared)

abbrev pub AllAgree : List ByteLock → Type 0
AllAgree [] = Unit
AllAgree (l ∷ ls) = All (Agree l) ls × AllAgree ls

not_exclusive : (k : LockKind) → is_exclusive k ≡ false → k ≡ shared
not_exclusive shared h = refl
not_exclusive exclusive h = cc

Agree-of_no_conflict : (l m : ByteLock) → conflicts l m ≡ false → Agree l m
unfolding conflicts ranges_overlap
Agree-of_no_conflict l m h byte b (lo, c) (lo', d) ne = elim c [
  | inl e ↦ elim d [
    | inl e' ↦ ground (arith, e, e', not_exclusive l.kind, not_exclusive m.kind)
    | inr e' ↦ ground (arith, e, e', not_exclusive l.kind, not_exclusive m.kind)
  ]
  | inr e ↦ elim d [
    | inl e' ↦ ground (arith, e, e', not_exclusive l.kind, not_exclusive m.kind)
    | inr e' ↦ ground (arith, e, e', not_exclusive l.kind, not_exclusive m.kind)
  ]
]

All-push :
    (P : ByteLock → Type 0) (ls : List ByteLock) (lock : ByteLock)
    → All P ls
    → P lock
    → All P (ls ++ lock ∷ [])
All-push P [] lock a p = (p, tt)
All-push P (l ∷ ls) lock a p = (a.0, All-push P ls lock a.1 p)

pub AllAgree-push :
    (ls : List ByteLock) (lock : ByteLock)
    → any_conflict ls lock ≡ false
    → AllAgree ls
    → AllAgree (ls ++ lock ∷ [])
unfolding any_conflict
AllAgree-push [] lock h a = (tt, tt)
AllAgree-push (l ∷ ls) lock h a = (
  All-push (Agree l) ls lock a.0 (Agree-of_no_conflict l lock (ground arith)),
  AllAgree-push ls lock (ground arith) a.1,
)

All-without :
    (P : ByteLock → Type 0) (ls : List ByteLock) (owner start len : ℕ)
    → All P ls
    → All P (without ls owner start len)
unfolding without
All-without P [] owner start len a = tt
All-without P (l ∷ ls) owner start len a =
    elim (Bool-cases (l.owner == owner && l.start == start && l.len == len)) [
      | inl e ↦ rw e (All-without P ls owner start len a.1)
      | inr e ↦ rw e (a.0, All-without P ls owner start len a.1)
    ]

pub AllAgree-without :
    (ls : List ByteLock) (owner start len : ℕ) → AllAgree ls → AllAgree (without ls owner start len)
unfolding without
AllAgree-without [] owner start len a = tt
AllAgree-without (l ∷ ls) owner start len a =
    elim (Bool-cases (l.owner == owner && l.start == start && l.len == len)) [
      | inl e ↦ rw e (AllAgree-without ls owner start len a.1)
      | inr e ↦
          rw e
            (All-without (Agree l) ls owner start len a.0, AllAgree-without ls owner start len a.1)
    ]

All-get :
    (P : ByteLock → Type 0) (ls : List ByteLock) (i : ℕ) (m : ByteLock)
    → All P ls
    → get_elem? ls i ≡ some m
    → P m
All-get P [] i m a e = cc
All-get P (l ∷ ls) zero m a e = let here : l ≡ m = cc in subst P here a.0
All-get P (l ∷ ls) (suc i) m a e = All-get P ls i m a.1 e

pub Agree_of_get :
    (ls : List ByteLock) (i j : ℕ) (l m : ByteLock)
    → AllAgree ls
    → get_elem? ls i ≡ some l
    → get_elem? ls j ≡ some m
    → (byte : ℕ) → byte < 2 ^ 64 - 1
    → Covers l byte
    → Covers m byte
    → l.owner ≢ m.owner
    → (l.kind ≡ shared) × (m.kind ≡ shared)
Agree_of_get [] i j l m a e e' byte b c d ne = cc
Agree_of_get (x ∷ ls) zero zero l m a e e' byte b c d ne = absurd (ne (ground arith))
Agree_of_get (x ∷ ls) zero (suc j) l m a e e' byte b c d ne =
    let x_is : x ≡ l = cc in
    (subst (λ y. Agree y m) x_is (All-get (Agree x) ls j m a.0 e')) byte b c d ne
Agree_of_get (x ∷ ls) (suc i) zero l m a e e' byte b c d ne =
    let x_is : x ≡ m = cc in
    let (k, k') =
      (subst (λ y. Agree y l) x_is (All-get (Agree x) ls i l a.0 e)) byte b d c (λ o. ne (sym o)) in
    (k', k)
Agree_of_get (x ∷ ls) (suc i) (suc j) l m a e e' byte b c d ne =
    Agree_of_get ls i j l m a.1 e e' byte b c d ne
