-- ===== src/Scheduler/Pick.antt =====
-- `next_process` takes the process with the smallest virtual run time out of the queue.
use rustos.Prelude.{
  ℕ, zero, suc, ◌+◌, ◌≤◌, ◌<◌, ◌≡◌, ◌≢◌, refl, sym, ap, Bool, true, false, not, ◌&&◌, ◌||◌, Option,
  some, List, [], ◌∷◌, max, ltb, ◌==◌, get_elem?, Bool-cases, inl, inr, ◌⊎◌, arith, subst, ◌∙◌,
}
use rustos.Process.{Process}
use rustos.Scheduler.{
  System, Locked, done, processes, queue, u64_max, contains, vruntime_of, best_from, remove_at,
  raised, take_best, dequeue_next_from, next_from, next_process,
}

-- Every virtual run time fits its 64 bits.
abbrev pub Bounded : List Process → Type 0
Bounded ps = (pid : ℕ) → vruntime_of ps pid ≤ u64_max

abbrev pub NoRepeat : List ℕ → Type 0
NoRepeat [] = Unit {0}
NoRepeat (pid ∷ q) = (contains q pid ≡ false) × NoRepeat q

-- What the loop answers: a run time that no entry and no earlier one is below, and where it is from.
abbrev Best : List Process → ℕ → List ℕ → ℕ → ℕ → ℕ × ℕ → Type 0
Best ps i q best_idx best_v r =
    (r.1 ≤ best_v)
    × ((pid : ℕ) → contains q pid ≡ true → r.1 ≤ vruntime_of ps pid)
    × ((r ≡ (best_idx, best_v))
        ⊎ ((k pid : ℕ) × (get_elem? q k ≡ some pid) × (r ≡ (i + k, vruntime_of ps pid))))

tail_of : {b c : Bool} → b ≡ false → b || c ≡ true → c ≡ true
tail_of e m = cc

shifted : (v : ℕ) {a b : ℕ} → a ≡ b → Path (ℕ × ℕ) (a, v) (b, v)
shifted v e = ap (λ (n : ℕ). (n, v)) e

module _ (ps : List Process) (i p : ℕ) (q : List ℕ) (best_idx best_v : ℕ) where
  Best-same :
      (r : ℕ × ℕ)
      → best_v ≤ vruntime_of ps p
      → Best ps (suc i) q best_idx best_v r
      → Best ps i (p ∷ q) best_idx best_v r
  unfolding contains
  Best-same r h (bound, least, from) = (
    bound,
    λ pid m. elim (Bool-cases (p == pid)) [
      | inl e ↦
          let same : p ≡ pid = ground (arith, e) in
          subst (λ x. r.1 ≤ vruntime_of ps x) same (omega (arith, bound, h))
      | inr e ↦ least pid (tail_of e m)
    ],
    elim from [
      | inl e ↦ inl e
      | inr (k, pid, at, e) ↦ inr (suc k, pid, at, e ∙ shifted (vruntime_of ps pid) (omega arith))
    ],
  )

  Best-better :
      (r : ℕ × ℕ)
      → vruntime_of ps p < best_v
      → Best ps (suc i) q i (vruntime_of ps p) r
      → Best ps i (p ∷ q) best_idx best_v r
  unfolding contains
  Best-better r h (bound, least, from) = (
    omega (arith, bound, h),
    λ pid m. elim (Bool-cases (p == pid)) [
      | inl e ↦
          let same : p ≡ pid = ground (arith, e) in subst (λ x. r.1 ≤ vruntime_of ps x) same bound
      | inr e ↦ least pid (tail_of e m)
    ],
    elim from [
      | inl e ↦ inr (0, p, refl, e ∙ shifted (vruntime_of ps p) (omega arith))
      | inr (k, pid, at, e) ↦ inr (suc k, pid, at, e ∙ shifted (vruntime_of ps pid) (omega arith))
    ],
  )

best_from-Best :
    (ps : List Process) (i : ℕ) (q : List ℕ) (best_idx best_v : ℕ)
    → Best ps i q best_idx best_v (best_from ps i q best_idx best_v)
unfolding best_from contains
best_from-Best ps i [] best_idx best_v = (omega arith, (λ pid h. cc), inl refl)
best_from-Best ps i (p ∷ q) best_idx best_v = elim (Bool-cases (ltb (vruntime_of ps p) best_v)) [
  | inl lt ↦ rw lt (
      Best-better ps i p q best_idx best_v _ (ground (arith, lt))
        (best_from-Best ps (suc i) q i (vruntime_of ps p)))
  | inr ge ↦ rw ge (
      Best-same ps i p q best_idx best_v _ (ground (arith, ge))
        (best_from-Best ps (suc i) q best_idx best_v))
]

contains-get : (q : List ℕ) (k pid : ℕ) → get_elem? q k ≡ some pid → contains q pid ≡ true
unfolding contains
contains-get [] k pid h = cc
contains-get (p ∷ q) zero pid h = ground (arith, h)
contains-get (p ∷ q) (suc k) pid h = elim (Bool-cases (p == pid)) [
  | inl e ↦ rw e refl
  | inr e ↦ rw e (contains-get q k pid h)
]

-- A number in the list is not one that is not in it.
apart : (x p : ℕ) (q : List ℕ) → contains q x ≡ false → contains q p ≡ true → (x == p) ≡ false
apart x p q a b = elim (Bool-cases (x == p)) [
  | inl e ↦
      let same : x ≡ p = ground (arith, e) in
      absurd (differ (subst (λ y. contains q y ≡ false) same a) b)
  | inr e ↦ e
]
  where
    differ : {c : Bool} → c ≡ false → c ≡ true → ⊥
    differ c d = cc

tail_false : {b c : Bool} → b ≡ false → b || c ≡ false → c ≡ false
tail_false e m = cc

not_removed : (q : List ℕ) (k x : ℕ) → contains q x ≡ false → contains (remove_at q k) x ≡ false
unfolding contains remove_at
not_removed [] k x h = h
not_removed (p ∷ q) zero x h = elim (Bool-cases (p == x)) [
  | inl e ↦ absurd (cc)
  | inr e ↦ tail_false e h
]
not_removed (p ∷ q) (suc k) x h = elim (Bool-cases (p == x)) [
  | inl e ↦ absurd (cc)
  | inr e ↦ rw e (not_removed q k x (tail_false e h))
]

contains-remove_at :
    (q : List ℕ) (k pid : ℕ)
    → NoRepeat q
    → get_elem? q k ≡ some pid
    → (p : ℕ) → contains (remove_at q k) p ≡ not (p == pid) && contains q p
unfolding contains remove_at
contains-remove_at [] k pid u h p = cc
contains-remove_at (x ∷ q) zero pid u h p =
    let first : x ≡ pid = ground (arith, h) in
    elim (Bool-cases (p == pid)) [
      | inl e ↦
          let here : x ≡ p = ground (arith, e, first) in
          rw e (subst (λ y. contains q y ≡ false) here u.0)
      | inr e ↦ let other : (x == p) ≡ false = ground (arith, e, first) in rw (e, other) refl
    ]
contains-remove_at (x ∷ q) (suc k) pid u h p =
    let rest = contains-remove_at q k pid u.1 h p in
    elim (Bool-cases (p == pid)) [
      | inl e ↦
          let same : p ≡ pid = ground (arith, e) in
          let there : contains q p ≡ true =
            subst (λ y. contains q y ≡ true) (sym same) (contains-get q k pid h) in
          let other : (x == p) ≡ false = apart x p q u.0 there in rw (other, rest, e) refl
      | inr e ↦ rw (rest, e) refl
    ]

NoRepeat-remove_at : (q : List ℕ) (k : ℕ) → NoRepeat q → NoRepeat (remove_at q k)
unfolding contains remove_at
NoRepeat-remove_at [] k u = tt
NoRepeat-remove_at (x ∷ q) zero u = u.1
NoRepeat-remove_at (x ∷ q) (suc k) u = (not_removed q k x u.0, NoRepeat-remove_at q k u.1)

-- What is picked: a queued process that no queued one is below, and what is left.
pub record Picks (s : System) (r : Locked (Option ℕ × System)) : Type 0 where
  pub pid : ℕ
  pub after : System
  pub answer : r ≡ done (some pid, after)
  queued : contains (queue s) pid ≡ true
  pub least :
      (p : ℕ)
      → contains (queue s) p ≡ true
      → vruntime_of (processes s) pid ≤ vruntime_of (processes s) p
  pub left : (p : ℕ) → contains (queue after) p ≡ not (p == pid) && contains (queue s) p
  pub no_repeat : NoRepeat (queue after)
  pub floor :
      vruntime_of (processes s) pid ≢ u64_max
      → after.scheduler.min_vruntime ≡ max s.scheduler.min_vruntime (vruntime_of (processes s) pid)
  pub floor_kept :
      vruntime_of (processes s) pid ≡ u64_max
      → after.scheduler.min_vruntime ≡ s.scheduler.min_vruntime
  pub kernel_kept : after.kernel ≡ s.kernel

raised-max : (least v : ℕ) → v ≢ u64_max → raised least v ≡ max least v
raised-max least v h = ground arith

raised_last : (least v : ℕ) → v ≡ u64_max → raised least v ≡ least
raised_last least v h = ground arith

take_best-Picks :
    (s : System) (k pid : ℕ)
    → NoRepeat (queue s)
    → get_elem? (queue s) k ≡ some pid
    → ((p : ℕ)
        → contains (queue s) p ≡ true
        → vruntime_of (processes s) pid ≤ vruntime_of (processes s) p)
    → Picks s (done (take_best s (k, vruntime_of (processes s) pid)))
unfolding take_best
take_best-Picks s k pid u at least = record {
  pid = pid;
  after = (take_best s (k, vruntime_of (processes s) pid)).1;
  answer = rw at refl;
  queued = contains-get (queue s) k pid at;
  least = least;
  left = contains-remove_at (queue s) k pid u at;
  no_repeat = NoRepeat-remove_at (queue s) k u;
  floor = raised-max s.scheduler.min_vruntime (vruntime_of (processes s) pid);
  floor_kept = raised_last s.scheduler.min_vruntime (vruntime_of (processes s) pid);
  kernel_kept = refl;
}

next_process-take_best :
    (s : System) (pid : ℕ) (q : List ℕ)
    → queue s ≡ pid ∷ q
    → next_process false s ≡ done (take_best s (best_from (processes s) 0 (queue s) 0 u64_max))
unfolding next_process
next_process-take_best s pid q e =
    subst (λ x. next_from false s x ≡ picked) (sym e)
      (ap done (
        subst
          (λ x. dequeue_next_from s x ≡ take_best s (best_from (processes s) 0 (queue s) 0 u64_max))
          (sym e) refl))
  where
    picked : Locked (Option ℕ × System)
    picked = done (take_best s (best_from (processes s) 0 (queue s) 0 u64_max))

Picks-at :
    (s : System) (k pid : ℕ) (r : ℕ × ℕ)
    → NoRepeat (queue s)
    → get_elem? (queue s) k ≡ some pid
    → r ≡ (k, vruntime_of (processes s) pid)
    → ((p : ℕ) → contains (queue s) p ≡ true → r.1 ≤ vruntime_of (processes s) p)
    → Picks s (done (take_best s r))
Picks-at s k pid r u at e least =
    subst (λ x. Picks s (done (take_best s x))) (sym e)
      (take_best-Picks s k pid u at
        (λ p m. subst (λ (x : ℕ × ℕ). x.1 ≤ vruntime_of (processes s) p) e (least p m)))

best_from-Picks :
    (s : System) (pid : ℕ) (q : List ℕ)
    → Bounded (processes s)
    → NoRepeat (queue s)
    → queue s ≡ pid ∷ q
    → Picks s (done (take_best s (best_from (processes s) 0 (queue s) 0 u64_max)))
best_from-Picks s pid q bounded u e =
    let r = best_from (processes s) 0 (queue s) 0 u64_max in
    let b : Best (processes s) 0 (queue s) 0 u64_max r =
      best_from-Best (processes s) 0 (queue s) 0 u64_max in
    let first : get_elem? (queue s) 0 ≡ some pid = rw e refl in
    elim b.2 [
      | inl z ↦
          Picks-at s 0 pid r u first
            (z ∙ shifted' (b.1 pid (contains-get (queue s) 0 pid first)) z (bounded pid)) b.1
      | inr (k, p, at, z) ↦
          Picks-at s k p r u at (z ∙ shifted (vruntime_of (processes s) p) (omega arith)) b.1
    ]
  where
    shifted' :
        {v : ℕ} {r : ℕ × ℕ}
        → r.1 ≤ v
        → r ≡ (0, u64_max)
        → v ≤ u64_max
        → Path (ℕ × ℕ) (0, u64_max) (0, v)
    shifted' {v} {r} a z b =
        let z1 : r.1 ≡ u64_max = ap (λ (x : ℕ × ℕ). x.1) z in
        ap (λ (n : ℕ). (0, n)) (omega (arith, a, z1, b))

-- With the lock free and a process in the queue, which holds no process twice, `next_process`
-- answers a queued process whose virtual run time no queued process is below. It takes that process
-- and no other out of the queue, which still holds no process twice, and leaves the processes alone.
-- `min_vruntime` becomes that run time if it was below it, except that it stays as it is where the
-- run time is `u64::MAX`, which also stands for a process that does not exist.
pub next_process-Picks :
    (s : System)
    → Bounded (processes s)
    → NoRepeat (queue s)
    → queue s ≢ []
    → Picks s (next_process false s)
next_process-Picks s bounded u ne =
    elim (queue s) as (λ q. queue s ≡ q → Picks s (next_process false s)) [
      | [] ↦ λ e. absurd (ne e)
      | pid ∷ q ↦ λ e.
          subst (Picks s) (sym (next_process-take_best s pid q e))
            (best_from-Picks s pid q bounded u e)
    ]
      refl
