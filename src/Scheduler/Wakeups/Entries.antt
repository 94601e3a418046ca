-- ===== src/Scheduler/Wakeups/Entries.antt =====
-- Entries of the queue of the sleepers, counted by weights, and the removal of one of them.
use rustos.Prelude.{
  ℕ, zero, suc, ◌+◌, ◌-◌, ◌≤◌, ◌<◌, ◌≡◌, refl, sym, ap, subst, ◌∙◌, true, false, none, some, List,
  [], ◌∷◌, leb, length, get_elem?, get_elem?-lt, get_elem?-eq-get_or, get_elem?-set_ne, length-set,
  length-take, get_or, set, take, Bool-cases, inl, inr, arith,
}
use rustos.Scheduler.{SleepEntry}
use rustos.Scheduler.Sleeping.{swap_remove}

-- The sum of the weights of the entries.
abbrev pub total : (SleepEntry → ℕ) → List SleepEntry → ℕ
total w [] = 0
total w (x ∷ xs) = w x + total w xs

total-set :
    (w : SleepEntry → ℕ) (xs : List SleepEntry) (i : ℕ) (x v : SleepEntry)
    → get_elem? xs i ≡ some x
    → total w (set xs i v) + w x ≡ total w xs + w v
total-set w [] i x v e = cc
total-set w (y ∷ ys) zero x v e = let same : y ≡ x = cc in omega (arith, ap w same)
total-set w (y ∷ ys) (suc i) x v e = omega (arith, total-set w ys i x v e)

total-take :
    (w : SleepEntry → ℕ) (xs : List SleepEntry) (n : ℕ) (x : SleepEntry)
    → length xs ≡ suc n
    → total w xs ≡ total w (take n xs) + w (get_or xs n x)
total-take w [] n x h = absurd (omega arith)
total-take w (y ∷ []) zero x h = omega arith
total-take w (y ∷ z ∷ ys) zero x h = absurd (omega arith)
total-take w (y ∷ ys) (suc n) x h = omega (arith, total-take w ys n x (omega (arith, h)))

set_ge : (xs : List SleepEntry) (i : ℕ) (v : SleepEntry) → length xs ≤ i → set xs i v ≡ xs
set_ge [] i v h = refl
set_ge (x ∷ xs) zero v h = absurd (omega arith)
set_ge (x ∷ xs) (suc i) v h = ap (λ (l : List SleepEntry). x ∷ l) (set_ge xs i v (omega arith))

get-take : (xs : List SleepEntry) (n k : ℕ) → k < n → get_elem? (take n xs) k ≡ get_elem? xs k
get-take xs zero k h = absurd (omega arith)
get-take [] (suc n) k h = refl
get-take (x ∷ xs) (suc n) zero h = refl
get-take (x ∷ xs) (suc n) (suc k) h = get-take xs n k (omega arith)

-- A removal takes one entry away and no other.
pub total-swap_remove :
    (w : SleepEntry → ℕ) (xs : List SleepEntry) (i : ℕ) (x : SleepEntry)
    → get_elem? xs i ≡ some x
    → total w xs ≡ w x + total w (swap_remove xs i x)
total-swap_remove w xs i x e =
    let n = length xs - 1 in
    let inside : i < length xs = get_elem?-lt xs i x e in
    let all = total-take w xs n x (omega (arith, inside)) in
    elim (Bool-cases (leb n i)) [
      | inl last ↦
          let le : n ≤ i = ground (arith, last) in
          let at : get_or xs n x ≡ x = last_is n (omega (arith, le, inside)) e in
          rw (set_ge (take n xs) i (get_or xs n x) (omega (arith, length-take n xs, le)))
            (omega (arith, all, ap w at))
      | inr before ↦
          let lt : i < n = ground (arith, before) in
          omega (arith, all, total-set w (take n xs) i x (get_or xs n x) (get-take xs n i lt ∙ e))
    ]
  where
    last_is : (n : ℕ) → i ≡ n → get_elem? xs i ≡ some x → get_or xs n x ≡ x
    last_is n h e =
        let at : get_elem? xs n ≡ some x = subst (λ (k : ℕ). get_elem? xs k ≡ some x) h e in
        let got = get_elem?-eq-get_or xs n x (get_elem?-lt xs n x at) in cc

-- No entry of the first `i` is due.
abbrev pub Passed : ℕ → List SleepEntry → ℕ → Type 0
Passed now xs i =
    (k : ℕ) (x : SleepEntry) → k < i → get_elem? xs k ≡ some x → leb x.wake_tick now ≡ false

pub Passed-suc :
    (now : ℕ) (xs : List SleepEntry) (i : ℕ) (x : SleepEntry)
    → Passed now xs i
    → get_elem? xs i ≡ some x
    → leb x.wake_tick now ≡ false
    → Passed now xs (suc i)
Passed-suc now xs i x h e late k y lt at = elim (Bool-cases (leb i k)) [
  | inl le ↦
      let here : k ≡ i = same le in
      let same_entry : x ≡ y = found (subst (λ (n : ℕ). get_elem? xs n ≡ some y) here at) in
      subst (λ z. leb z.wake_tick now ≡ false) same_entry late
  | inr gt ↦ h k y (ground (arith, gt)) at
]
  where
    same : leb i k ≡ true → k ≡ i
    same le = ground (arith, le, lt)

    found : get_elem? xs i ≡ some y → x ≡ y
    found at = cc

pub Passed-swap_remove :
    (now : ℕ) (xs : List SleepEntry) (i : ℕ) (x : SleepEntry)
    → Passed now xs i
    → get_elem? xs i ≡ some x
    → Passed now (swap_remove xs i x) i
Passed-swap_remove now xs i x h e k y lt at =
    let n = length xs - 1 in
    let inside : i < length xs = get_elem?-lt xs i x e in
    let same : get_elem? (swap_remove xs i x) k ≡ get_elem? xs k =
      get_elem?-set_ne (take n xs) i k (get_or xs n x) (λ z. apart z)
      ∙ get-take xs n k (omega (arith, inside, lt)) in
    h k y lt (sym same ∙ at)
  where
    apart : i ≡ k → ⊥
    apart z = omega (arith, z, lt)

pub some_inside : (xs : List SleepEntry) (i : ℕ) → get_elem? xs i ≡ none → length xs ≤ i
some_inside [] i e = omega arith
some_inside (x ∷ xs) zero e = cc
some_inside (x ∷ xs) (suc i) e = omega (arith, some_inside xs i e)

pub length-swap_remove :
    (xs : List SleepEntry) (i : ℕ) (x : SleepEntry) → length (swap_remove xs i x) ≡ length xs - 1
length-swap_remove xs i x =
    let n = length xs - 1 in
    omega (arith, length-set (take n xs) i (get_or xs n x), length-take n xs)
