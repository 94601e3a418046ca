-- ===== src/Scheduler/Shares.antt =====
-- How much processor time the weights and the slices give to a process.
use rustos.Prelude.{
  ℕ, zero, suc, ◌*◌, ◌/◌, ◌≤◌, ◌<◌, ◌≤ℤ◌, ◌≡◌, refl, Bool, true, false, List, [], ◌∷◌, max, leb,
  arith, ℤ, pos, negsuc, get_or, length, if◌then◌else◌, Bool-cases, inl, inr,
}
use native.Mathlib.Nat.{
  le-div_iff_mul-le, mul-le-mul_left, div-mul-le_self, div-le_self, mul-div-le,
}
use rustos.Scheduler.{nice_weights, nice_index, vtick_for_nice, slice_for}

-- No weight is above the one before it, and the last is positive.
abbrev descends : List ℕ → Bool
descends [] = true
descends (w ∷ []) = leb 1 w
descends (w ∷ v ∷ ws) = if leb v w then descends (v ∷ ws) else false

if_true : (b : Bool) {x : Bool} → (if b then x else false) ≡ true → (b ≡ true) × (x ≡ true)
if_true true h = (refl, h)
if_true false h = cc

second : (b : Bool) {x : Bool} → (if b then x else false) ≡ true → x ≡ true
second b h = (if_true b h).1

first_largest : (w : ℕ) (ws : List ℕ) (i : ℕ) → descends (w ∷ ws) ≡ true → get_or (w ∷ ws) i 0 ≤ w
first_largest w ws zero h = omega arith
first_largest w [] (suc i) h = omega arith
first_largest w (v ∷ ws) (suc i) h =
    let p : (leb v w ≡ true) × (descends (v ∷ ws) ≡ true) = if_true (leb v w) h in
    let le : v ≤ w = ground (arith, p.0) in omega (arith, le, first_largest v ws i p.1)

-- In such a list no weight at an index is above one at a smaller index, or zero.
get_or-descends :
    (ws : List ℕ) (i j : ℕ)
    → descends ws ≡ true
    → i ≤ j
    → j < length ws
    → (get_or ws j 0 ≤ get_or ws i 0) × (1 ≤ get_or ws j 0)
get_or-descends [] i j h le lt = absurd (omega arith)
get_or-descends (w ∷ []) zero zero h le lt = (omega arith, ground (arith, h))
get_or-descends (w ∷ []) i (suc j) h le lt = absurd (omega arith)
get_or-descends (w ∷ []) (suc i) zero h le lt = absurd (omega arith)
get_or-descends (w ∷ v ∷ ws) (suc i) zero h le lt = absurd (omega arith)
get_or-descends (w ∷ v ∷ ws) zero zero h le lt =
    let p : (leb v w ≡ true) × (descends (v ∷ ws) ≡ true) = if_true (leb v w) h in
    let below : v ≤ w = ground (arith, p.0) in
    (
      omega arith,
      omega (arith, below, (get_or-descends (v ∷ ws) 0 0 p.1 (omega arith) (omega arith)).1),
    )
get_or-descends (w ∷ v ∷ ws) zero (suc j) h le lt = (
  first_largest w (v ∷ ws) (suc j) h,
  (get_or-descends (v ∷ ws) j j (second (leb v w) h) (omega arith) (omega (arith, lt))).1,
)
get_or-descends (w ∷ v ∷ ws) (suc i) (suc j) h le lt =
    get_or-descends (v ∷ ws) i j (second (leb v w) h) (omega (arith, le)) (omega (arith, lt))

-- Dividing by less gives no less.
div_antitone : (n a b : ℕ) → b ≤ a → 1 ≤ b → n / a ≤ n / b
div_antitone n a b le p =
    (le-div_iff_mul-le {k = b} {x = n / a} {y = n} p).1
      (omega (arith, mul-le-mul_left (n / a) le, div-mul-le_self n a))

abbrev weight_at : ℕ → ℕ
weight_at i = get_or nice_weights i 0

-- The virtual run time of a tick by the index of the weight.
tick_at :
    (i j : ℕ)
    → i ≤ j
    → j < 40
    → (11 ≤ 1048576 / weight_at i)
      × (1048576 / weight_at i ≤ 1048576 / weight_at j)
      × (1048576 / weight_at j ≤ 69905)
tick_at i j h lt =
    let first = get_or-descends nice_weights 0 i refl (omega arith) (omega (arith, h, lt)) in
    let both = get_or-descends nice_weights i j refl h (omega (arith, lt)) in
    let last = get_or-descends nice_weights j 39 refl (omega (arith, lt)) (omega arith) in
    (
      div_antitone 1048576 88761 (weight_at i) first.0 first.1,
      div_antitone 1048576 (weight_at i) (weight_at j) both.0 both.1,
      div_antitone 1048576 (weight_at j) 15 last.0 (omega arith),
    )

nice_index-le : (a b : ℤ) → a ≤ℤ b → nice_index a ≤ nice_index b
nice_index-le (pos n) (pos m) h = omega (arith, h)
nice_index-le (pos n) (negsuc m) h = absurd (omega (arith, h))
nice_index-le (negsuc n) (pos m) h = omega arith
nice_index-le (negsuc n) (negsuc m) h = omega (arith, h)

nice_index-lt : (a : ℤ) → nice_index a < 40
nice_index-lt (pos n) = omega arith
nice_index-lt (negsuc n) = omega arith

-- A process with a greater nice value pays no less virtual run time for a tick; none pays less than
-- 11 units nor more than 69905.
pub vtick_for_nice-order :
    (a b : ℤ)
    → a ≤ℤ b
    → (11 ≤ vtick_for_nice a) × (vtick_for_nice a ≤ vtick_for_nice b) × (vtick_for_nice b ≤ 69905)
unfolding vtick_for_nice
vtick_for_nice-order a b h =
    tick_at (nice_index a) (nice_index b) (nice_index-le a b h) (nice_index-lt b)

-- A slice has 2 to 16 ticks, and a slice for each of the runnable processes takes 16 ticks together,
-- or 2 for each process if that is more.
slice_for_bounds :
    (n : ℕ) → (2 ≤ slice_for n) × (slice_for n ≤ 16) × (n * slice_for n ≤ max 16 (2 * n))
unfolding slice_for
slice_for_bounds n =
    let d = 16 / max n 1 in
    let small : d ≤ 16 = div-le_self 16 (max n 1) in
    (
      omega arith,
      omega (arith, small),
      elim (Bool-cases (leb d 2)) [
        | inl e ↦ let same : max d 2 ≡ 2 = ground (arith, e) in rw same (omega arith)
        | inr e ↦ let same : max d 2 ≡ d = ground (arith, e) in rw same (product n)
      ],
    )
  where
    product : (n : ℕ) → n * (16 / max n 1) ≤ max 16 (2 * n)
    product zero = omega arith
    product (suc n) =
        let same : max (suc n) 1 ≡ suc n = omega arith in
        let le : suc n * (16 / suc n) ≤ 16 = mul-div-le 16 (suc n) in rw same (omega (arith, le))
