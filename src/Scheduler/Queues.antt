-- ===== src/Scheduler/Queues.antt =====
-- The ready queue after a push and after a removal.
use rustos.Prelude.{
  ℕ, ◌≡◌, refl, Bool, true, false, ◌||◌, List, [], ◌∷◌, ◌++◌, ◌==◌, if◌then◌else◌, Bool-cases, inl,
  inr, arith,
}
use rustos.Scheduler.{contains, without}
use rustos.Scheduler.Pick.{NoRepeat}

pub contains-append :
    (q : List ℕ) (pid p : ℕ) → contains (q ++ pid ∷ []) p ≡ contains q p || (pid == p)
unfolding contains
contains-append [] pid p = elim (Bool-cases (pid == p)) [ inl e ↦ rw e refl | inr e ↦ rw e refl ]
contains-append (x ∷ q) pid p = elim (Bool-cases (x == p)) [
  | inl e ↦ rw e refl
  | inr e ↦ rw e (contains-append q pid p)
]

pub or_false : (a b : Bool) → a || b ≡ false → (a ≡ false) × (b ≡ false)
or_false true b h = cc
or_false false b h = (refl, h)

pub NoRepeat-append :
    (q : List ℕ) (pid : ℕ) → NoRepeat q → contains q pid ≡ false → NoRepeat (q ++ pid ∷ [])
unfolding contains
NoRepeat-append [] pid u h = (refl, tt)
NoRepeat-append (x ∷ q) pid u h =
    let parts = or_false (x == pid) (contains q pid) h in
    let apart : (pid == x) ≡ false = ground (arith, parts.0) in
    (rw (contains-append q pid x, u.0, apart) refl, NoRepeat-append q pid u.1 parts.1)

pub contains-without :
    (q : List ℕ) (pid p : ℕ) → contains (without q pid) p ≡ true → contains q p ≡ true
unfolding contains without
contains-without [] pid p h = h
contains-without (x ∷ q) pid p h = elim (Bool-cases (x == p)) [
  | inl e ↦ rw e refl
  | inr e ↦ elim (Bool-cases (x == pid)) [
    | inl c ↦ rw e (contains-without q pid p (dropped c h))
    | inr c ↦ rw e (contains-without q pid p (passed c e h))
  ]
]
  where
    dropped :
        x == pid ≡ true
        → contains (if x == pid then without q pid else x ∷ without q pid) p ≡ true
        → contains (without q pid) p ≡ true
    dropped c = rw c (λ m. m)

    passed :
        x == pid ≡ false
        → x == p ≡ false
        → contains (if x == pid then without q pid else x ∷ without q pid) p ≡ true
        → contains (without q pid) p ≡ true
    passed c e = rw (c, e) (λ m. m)

not_without : (q : List ℕ) (pid p : ℕ) → contains q p ≡ false → contains (without q pid) p ≡ false
not_without q pid p h = elim (Bool-cases (contains (without q pid) p)) [
  | inl e ↦ absurd (differ h (contains-without q pid p e))
  | inr e ↦ e
]
  where
    differ : {c : Bool} → c ≡ false → c ≡ true → ⊥
    differ c d = cc

pub NoRepeat-without : (q : List ℕ) (pid : ℕ) → NoRepeat q → NoRepeat (without q pid)
unfolding without
NoRepeat-without [] pid u = tt
NoRepeat-without (x ∷ q) pid u = elim (Bool-cases (x == pid)) [
  | inl e ↦ rw e (NoRepeat-without q pid u.1)
  | inr e ↦ rw e (not_without q pid x u.0, NoRepeat-without q pid u.1)
]
