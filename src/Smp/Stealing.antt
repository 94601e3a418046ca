-- ===== src/Smp/Stealing.antt =====
-- `steal_from_peer` takes the first process of the most loaded alive peer.
use rustos.Prelude.{
  ℕ, zero, suc, ◌+◌, ◌≤◌, ◌<◌, ◌≡◌, ◌≢◌, refl, sym, ap, subst, ◌∙◌, ◌⊎◌, inl, inr, Bool, true,
  false, Option, none, some, List, [], ◌∷◌, ltb, ◌==◌, if◌then◌else◌, length, get_elem?, set, arith,
}
use rustos.Smp.{
  CpuState, load, victim_from, steal_from, steal_from_peer, dequeue, dequeue_from, dequeue_found,
  dequeue_on, max_cpus,
}
use rustos.Smp.Routing.{cpu_state-at}

-- A CPU that may be stolen from, if it has processes to spare.
pub record IsPeer (cpus : List CpuState) (thief id : ℕ) (c : CpuState) : Type 0 where
  pub found : get_elem? cpus id ≡ some c
  pub alive : c.alive ≡ true
  pub other : id ≢ thief

-- The peers of the entries from number `i` on.
abbrev Peer : ℕ → ℕ → List CpuState → ℕ → CpuState → Type 0
Peer thief i cs k c = (get_elem? cs k ≡ some c) × (c.alive ≡ true) × (i + k ≢ thief)

-- What the loop answers: the old victim, or a peer, with its load, which no peer is above.
Most : ℕ → ℕ → List CpuState → Option ℕ → ℕ → Option ℕ → Type 0
Most thief i cs victim victim_load r =
    (v : ℕ) × (victim_load ≤ v)
    × ((k : ℕ) (c : CpuState) → Peer thief i cs k c → load c ≤ v)
    × (((r ≡ victim) × (v ≡ victim_load))
        ⊎ ((k : ℕ) × (c : CpuState) × (Peer thief i cs k c)
            × (r ≡ some (i + k))
            × (load c ≡ v)
            × (victim_load < v)))

if-elim :
    (P : Option ℕ → Type 0) (b : Bool) {x y : Option ℕ}
    → (b ≡ true → P x)
    → (b ≡ false → P y)
    → P (if b then x else y)
if-elim P true h k = h refl
if-elim P false h k = k refl

module _ (thief i : ℕ) (c : CpuState) (cs : List CpuState) (victim : Option ℕ) (victim_load : ℕ)
    (r : Option ℕ) where
  Most-same :
      (c.alive ≡ true → i ≢ thief → load c ≤ victim_load)
      → Most thief (suc i) cs victim victim_load r
      → Most thief i (c ∷ cs) victim victim_load r
  unfolding Most
  Most-same h (v, bound, most, from) = (
    v,
    bound,
    above h bound most,
    elim from [
      | inl e ↦ inl e
      | inr (k, d, (at, a, ne), e, l, lt) ↦
          inr (suc k, d, (at, a, λ z. ne (omega (arith, z))), e ∙ ap some (omega arith), l, lt)
    ],
  )
    where
      above :
          {v : ℕ}
          → (c.alive ≡ true → i ≢ thief → load c ≤ victim_load)
          → victim_load ≤ v
          → ((k : ℕ) (d : CpuState) → Peer thief (suc i) cs k d → load d ≤ v)
          → (k : ℕ) (d : CpuState) → Peer thief i (c ∷ cs) k d
          → load d ≤ v
      above {v} h bound most zero d (at, a, ne) =
          let same : c ≡ d = cc in
          subst (λ x. load x ≤ v) same
            (omega (
              arith,
              bound,
              h (subst (λ x. x.alive ≡ true) (sym same) a) (λ e. ne (omega (arith, e))),
            ))
      above h bound most (suc k) d (at, a, ne) = most k d (at, a, λ e. ne (omega (arith, e)))

  Most-better :
      c.alive ≡ true
      → i ≢ thief
      → victim_load < load c
      → Most thief (suc i) cs (some i) (load c) r
      → Most thief i (c ∷ cs) victim victim_load r
  unfolding Most
  Most-better a ne lt (v, bound, most, from) = (
    v,
    omega (arith, bound, lt),
    above bound most,
    elim from [
      | inl (e, l) ↦ inr (
        0,
        c,
        (refl, a, λ z. ne (omega (arith, z))),
        e ∙ ap some (omega arith),
        sym l,
        omega (arith, bound, lt),
      )
      | inr (k, d, (at, b, other), e, l, less) ↦ inr (
        suc k,
        d,
        (at, b, λ z. other (omega (arith, z))),
        e ∙ ap some (omega arith),
        l,
        omega (arith, lt, less),
      )
    ],
  )
    where
      above :
          {v : ℕ}
          → load c ≤ v
          → ((k : ℕ) (d : CpuState) → Peer thief (suc i) cs k d → load d ≤ v)
          → (k : ℕ) (d : CpuState) → Peer thief i (c ∷ cs) k d
          → load d ≤ v
      above {v} bound most zero d (at, a, ne) =
          let same : c ≡ d = cc in subst (λ x. load x ≤ v) same bound
      above bound most (suc k) d (at, a, ne) = most k d (at, a, λ e. ne (omega (arith, e)))

Most-none :
    (thief i : ℕ) (victim : Option ℕ) (victim_load : ℕ) → Most thief i [] victim victim_load victim
unfolding Most
Most-none thief i victim victim_load =
    (victim_load, omega arith, (λ k c p. no_entry p.0), inl (refl, refl))
  where
    no_entry : {c : CpuState} {A : Type 0} → none ≡ some c → A
    no_entry e = absurd (cc)

victim_from-Most :
    (thief i : ℕ) (cs : List CpuState) (victim : Option ℕ) (victim_load : ℕ)
    → Most thief i cs victim victim_load (victim_from thief i cs victim victim_load)
unfolding victim_from
victim_from-Most thief i [] victim victim_load = Most-none thief i victim victim_load
victim_from-Most thief i (c ∷ cs) victim victim_load =
    let P = Most thief i (c ∷ cs) victim victim_load in
    let same = victim_from-Most thief (suc i) cs victim victim_load in
    if-elim P (i == thief)
      (λ e.
        Most-same thief i c cs victim victim_load _ (λ a ne. absurd (ne (ground (arith, e)))) same)
      (λ e.
        if-elim P c.alive
          (λ a.
            if-elim P (ltb victim_load (load c))
              (λ lt.
                Most-better thief i c cs victim victim_load _ a (λ z. apart e z)
                  (ground (arith, lt)) (victim_from-Most thief (suc i) cs (some i) (load c)))
              (λ ge. Most-same thief i c cs victim victim_load _ (λ a ne. ground (arith, ge)) same))
          (λ a. Most-same thief i c cs victim victim_load _ (λ b ne. differ a b) same))
  where
    differ : {b : Bool} {A : Type 0} → b ≡ false → b ≡ true → A
    differ e z = absurd (cc)

    apart : i == thief ≡ false → i ≢ thief
    apart e z = ground (arith, e, z)

-- The answers: nothing, if no peer has a load of two; or the first process of a peer with a load of
-- at least two that no other peer is above, and what is left of its queue, with its length; or
-- nothing, if that peer's queue is empty whatever its load was, which is then 0.
pub data Steals (cpus : List CpuState) (thief : ℕ) : Option ℕ × List CpuState → Type 0 where
  nothing :
      ((id : ℕ) (c : CpuState) → IsPeer cpus thief id c → load c ≤ 1)
      → Steals cpus thief (none, cpus)
  stolen :
      {victim : ℕ} {c : CpuState}
      → IsPeer cpus thief victim c
      → 2 ≤ load c
      → ((id : ℕ) (d : CpuState) → IsPeer cpus thief id d → load d ≤ load c)
      → (pid : ℕ) (rest : List ℕ) → c.run_queue ≡ pid ∷ rest
      → Steals cpus thief
          (some pid, set cpus victim (record c { run_queue = rest; run_queue_len = length rest }))
  empty_handed :
      {victim : ℕ} {c : CpuState}
      → IsPeer cpus thief victim c
      → 2 ≤ load c
      → ((id : ℕ) (d : CpuState) → IsPeer cpus thief id d → load d ≤ load c)
      → c.run_queue ≡ []
      → Steals cpus thief (none, set cpus victim (record c { run_queue = []; run_queue_len = 0 }))

-- A victim is stolen from, by what its queue holds.
Steals-dequeue_from :
    (cpus : List CpuState) (thief victim : ℕ) (c : CpuState) (q : List ℕ)
    → c.run_queue ≡ q
    → IsPeer cpus thief victim c
    → 2 ≤ load c
    → ((id : ℕ) (d : CpuState) → IsPeer cpus thief id d → load d ≤ load c)
    → Steals cpus thief ((dequeue_from c q).0, set cpus victim (dequeue_from c q).1)
unfolding dequeue_from
Steals-dequeue_from cpus thief victim c [] e p two most = empty_handed p two most e
Steals-dequeue_from cpus thief victim c (pid ∷ q) e p two most = stolen p two most pid q e

-- `steal_from_peer` takes nothing and changes nothing if no other alive CPU has a load of at least 2.
-- Otherwise there is another alive CPU with such a load that no other alive CPU has more load than:
-- the first process of its queue is taken, the rest stays in order, and its load is their number; or
-- its queue is empty, nothing is taken, and its load becomes 0. No other CPU changes.
pub steal_from_peer-Steals :
    (cpus : List CpuState) (thief : ℕ)
    → length cpus ≤ max_cpus
    → Steals cpus thief (steal_from_peer cpus thief)
unfolding steal_from_peer dequeue Most
steal_from_peer-Steals cpus thief fits =
    let (v, bound, most, from) = victim_from-Most thief 0 cpus none 1 in
    elim from [
      | inl (e, l) ↦
          subst (λ o. Steals cpus thief (steal_from cpus o)) (sym e)
            (nothing (λ id c p. omega (arith, l, most id c (peer p))))
      | inr (k, c, (at, a, ne), e, l, lt) ↦
          let got : steal_from cpus (some k) ≡ ((dequeue c).0, set cpus k (dequeue c).1) =
            dequeue_on-at k c at in
          subst (λ o. Steals cpus thief (steal_from cpus o)) (sym (e ∙ ap some (omega arith)))
            (subst (Steals cpus thief) (sym got) (
              Steals-dequeue_from cpus thief k c c.run_queue refl
                (record { found = at; alive = a; other = λ z. ne (omega (arith, z)) })
                (omega (arith, l, lt)) (λ id d p. omega (arith, l, most id d (peer p)))))
    ]
  where
    peer : {id : ℕ} {c : CpuState} → IsPeer cpus thief id c → Peer thief 0 cpus id c
    peer p = (p.found, p.alive, λ z. p.other (omega (arith, z)))

    dequeue_on-at :
        (k : ℕ) (c : CpuState)
        → get_elem? cpus k ≡ some c
        → dequeue_on cpus k ≡ ((dequeue c).0, set cpus k (dequeue c).1)
    dequeue_on-at k c at =
        subst (λ o. dequeue_found cpus k o ≡ ((dequeue c).0, set cpus k (dequeue c).1))
          (sym (cpu_state-at cpus k c fits at)) refl
