-- ===== src/Smp/Routing.antt =====
-- `enqueue_balanced` gives a process to an alive CPU that no alive CPU has less load than.
use rustos.Prelude.{
  ℕ, zero, suc, ◌+◌, ◌≤◌, ◌<◌, ◌≡◌, refl, sym, subst, ◌∙◌, ◌⊎◌, inl, inr, Bool, true, false, some,
  List, [], ◌∷◌, ◌++◌, ltb, if◌then◌else◌, length, get_elem?, get_elem?-lt, set, arith,
}
use rustos.Smp.{
  CpuState, load, least_from, least_loaded_cpu, enqueue, enqueue_balanced, update_found, update_cpu,
  cpu_state, usize_max, max_cpus, with_queue,
}

-- What the loop answers: the old best one, or an alive entry; with its load, which no alive entry
-- is below.
Least : ℕ → List CpuState → ℕ → ℕ → ℕ → Type 0
Least i cs best best_load r =
    (v : ℕ) × (v ≤ best_load)
    × ((k : ℕ) (c : CpuState) → get_elem? cs k ≡ some c → c.alive ≡ true → v ≤ load c)
    × (((r ≡ best) × (v ≡ best_load))
        ⊎ ((k : ℕ) × (c : CpuState) × (get_elem? cs k ≡ some c)
            × (c.alive ≡ true)
            × (r ≡ i + k)
            × (load c ≡ v)))

if-elim :
    (P : ℕ → Type 0) (b : Bool) {x y : ℕ}
    → (b ≡ true → P x)
    → (b ≡ false → P y)
    → P (if b then x else y)
if-elim P true h k = h refl
if-elim P false h k = k refl

module _ (i : ℕ) (c : CpuState) (cs : List CpuState) (best best_load r : ℕ) where
  -- An entry that is passed over is dead, or no better.
  Least-same :
      (c.alive ≡ true → best_load ≤ load c)
      → Least (suc i) cs best best_load r
      → Least i (c ∷ cs) best best_load r
  unfolding Least
  Least-same h (v, bound, least, from) = (
    v,
    bound,
    below h bound least,
    elim from [
      | inl e ↦ inl e
      | inr (k, d, at, a, e, l) ↦ inr (suc k, d, at, a, e ∙ (omega arith), l)
    ],
  )
    where
      below :
          {v : ℕ}
          → (c.alive ≡ true → best_load ≤ load c)
          → v ≤ best_load
          → ((k : ℕ) (d : CpuState) → get_elem? cs k ≡ some d → d.alive ≡ true → v ≤ load d)
          → (k : ℕ) (d : CpuState) → get_elem? (c ∷ cs) k ≡ some d
          → d.alive ≡ true
          → v ≤ load d
      below {v} h bound least zero d at a =
          let same : c ≡ d = cc in
          subst (λ x. v ≤ load x) same
            (omega (arith, bound, h (subst (λ x. x.alive ≡ true) (sym same) a)))
      below h bound least (suc k) d at a = least k d at a

  Least-better :
      c.alive ≡ true
      → load c < best_load
      → Least (suc i) cs i (load c) r
      → Least i (c ∷ cs) best best_load r
  unfolding Least
  Least-better a lt (v, bound, least, from) = (
    v,
    omega (arith, bound, lt),
    below bound least,
    elim from [
      | inl (e, l) ↦ inr (0, c, refl, a, e ∙ (omega arith), sym l)
      | inr (k, d, at, b, e, l) ↦ inr (suc k, d, at, b, e ∙ (omega arith), l)
    ],
  )
    where
      below :
          {v : ℕ}
          → v ≤ load c
          → ((k : ℕ) (d : CpuState) → get_elem? cs k ≡ some d → d.alive ≡ true → v ≤ load d)
          → (k : ℕ) (d : CpuState) → get_elem? (c ∷ cs) k ≡ some d
          → d.alive ≡ true
          → v ≤ load d
      below {v} bound least zero d at a =
          let same : c ≡ d = cc in subst (λ x. v ≤ load x) same bound
      below bound least (suc k) d at a = least k d at a

Least-none : (i best best_load : ℕ) → Least i [] best best_load best
unfolding Least
Least-none i best best_load = (best_load, omega arith, (λ k c e. cc), inl (refl, refl))

least_from-Least :
    (i : ℕ) (cs : List CpuState) (best best_load : ℕ)
    → Least i cs best best_load (least_from i cs best best_load)
unfolding least_from
least_from-Least i [] best best_load = Least-none i best best_load
least_from-Least i (c ∷ cs) best best_load =
    let same = least_from-Least (suc i) cs best best_load in
    if-elim (Least i (c ∷ cs) best best_load) c.alive
      (λ a.
        if-elim (Least i (c ∷ cs) best best_load) (ltb (load c) best_load)
          (λ lt.
            Least-better i c cs best best_load _ a (ground (arith, lt))
              (least_from-Least (suc i) cs i (load c)))
          (λ ge. Least-same i c cs best best_load _ (λ z. ground (arith, ge)) same))
      (λ a. Least-same i c cs best best_load _ (λ z. differ a z) same)
  where
    differ : {b : Bool} {A : Type 0} → b ≡ false → b ≡ true → A
    differ e z = absurd (cc)

-- The CPU with the number `id`, whose load no alive CPU is below.
pub record IsLeast (cpus : List CpuState) (id : ℕ) : Type 0 where
  pub cpu : CpuState
  pub found : get_elem? cpus id ≡ some cpu
  pub alive : cpu.alive ≡ true
  pub least :
      (j : ℕ) (d : CpuState) → get_elem? cpus j ≡ some d → d.alive ≡ true → load cpu ≤ load d

least_loaded_cpu-IsLeast :
    (cpus : List CpuState) (j : ℕ) (d : CpuState)
    → get_elem? cpus j ≡ some d
    → d.alive ≡ true
    → load d < usize_max
    → IsLeast cpus (least_loaded_cpu cpus)
unfolding least_loaded_cpu Least
least_loaded_cpu-IsLeast cpus j d at a small =
    let (v, bound, least, from) = least_from-Least 0 cpus 0 usize_max in
    elim from [
      | inl (e, l) ↦ absurd (omega (arith, least j d at a, l, small))
      | inr (k, c, got, alive, e, l) ↦ record {
        cpu = c;
        found = subst (λ (x : ℕ). get_elem? cpus x ≡ some c) (omega (arith, e)) got;
        alive = alive;
        least = λ i x there z. rw l (least i x there z);
      }
    ]

pub cpu_state-at :
    (cpus : List CpuState) (id : ℕ) (c : CpuState)
    → length cpus ≤ max_cpus
    → get_elem? cpus id ≡ some c
    → cpu_state cpus id ≡ some c
unfolding cpu_state
cpu_state-at cpus id c fits got =
    let inside : ltb id max_cpus ≡ true = ground (arith, get_elem?-lt cpus id c got, fits) in
    rw (inside, got) refl

update_cpu-at :
    (cpus : List CpuState) (id : ℕ) (c : CpuState) (f : CpuState → CpuState)
    → length cpus ≤ max_cpus
    → get_elem? cpus id ≡ some c
    → update_cpu cpus id f ≡ set cpus id (f c)
unfolding update_cpu
update_cpu-at cpus id c f fits got =
    subst (λ o. update_found cpus id f o ≡ set cpus id (f c))
      (sym (cpu_state-at cpus id c fits got)) refl

-- If some CPU is alive (and its load not `usize::MAX`), then `enqueue_balanced` appends the process
-- to the queue of an alive CPU that no alive CPU has less load than, answers the number of this CPU,
-- and changes no other one.
pub enqueue_balanced-IsLeast :
    (cpus : List CpuState) (j : ℕ) (d : CpuState) (pid : ℕ)
    → length cpus ≤ max_cpus
    → get_elem? cpus j ≡ some d
    → d.alive ≡ true
    → load d < usize_max
    → (least : IsLeast cpus (enqueue_balanced cpus pid).0) × ((enqueue_balanced cpus pid).1
        ≡ set cpus
            (enqueue_balanced cpus pid).0
            (with_queue least.cpu (least.cpu.run_queue ++ pid ∷ [])))
unfolding enqueue_balanced enqueue
enqueue_balanced-IsLeast cpus j d pid fits at a small =
    let least = least_loaded_cpu-IsLeast cpus j d at a small in
    (
      least,
      update_cpu-at cpus (least_loaded_cpu cpus) least.cpu (λ c. enqueue c pid) fits least.found,
    )
