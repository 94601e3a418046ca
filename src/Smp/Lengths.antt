-- ===== src/Smp/Lengths.antt =====
-- The cached lengths of the queues, and the number of processes in them.
use rustos.Prelude.{
  ℕ, zero, suc, ◌+◌, ◌≤◌, ◌<◌, ◌≡◌, refl, sym, ap, subst, Bool, true, false, Option, none, some,
  List, [], ◌∷◌, ◌++◌, if◌then◌else◌, length, length-append, get_elem?, set, arith,
}
use rustos.Smp.{
  CpuState, load, with_queue, enqueue_balanced, steal_from_peer, total_runnable, usize_max,
  max_cpus,
}
use rustos.Smp.Routing.{enqueue_balanced-IsLeast}
use rustos.Smp.Stealing.{Steals, nothing, stolen, empty_handed, steal_from_peer-Steals}

-- Each cached length is the length of the queue.
abbrev pub AllCached : List CpuState → Type 0
AllCached [] = Unit {0}
AllCached (c ∷ cs) = (c.run_queue_len ≡ length c.run_queue) × AllCached cs

cached_at :
    (cs : List CpuState) (i : ℕ) (c : CpuState)
    → AllCached cs
    → get_elem? cs i ≡ some c
    → c.run_queue_len ≡ length c.run_queue
cached_at [] i c h e = cc
cached_at (d ∷ cs) zero c h e =
    let same : d ≡ c = cc in subst (λ x. x.run_queue_len ≡ length x.run_queue) same h.0
cached_at (d ∷ cs) (suc i) c h e = cached_at cs i c h.1 e

cached_set :
    (cs : List CpuState) (i : ℕ) (c : CpuState) (q : List ℕ)
    → AllCached cs
    → AllCached (set cs i (with_queue c q))
cached_set [] i c q h = tt
cached_set (d ∷ cs) zero c q h = (refl, h.1)
cached_set (d ∷ cs) (suc i) c q h = (h.0, cached_set cs i c q h.1)

alive_sum :
    (b b' : Bool) (n m t l : ℕ)
    → b ≡ true
    → b' ≡ true
    → m ≡ l
    → (if b then n + t else t) + l ≡ (if b' then m + t else t) + n
alive_sum true true n m t l h k e = omega (arith, e)
alive_sum false b' n m t l h k e = cc
alive_sum true false n m t l h k e = cc

sum_if :
    (b : Bool) (n x y z w : ℕ)
    → x + y ≡ z + w
    → (if b then n + x else x) + y ≡ (if b then n + z else z) + w
sum_if true n x y z w h = omega (arith, h)
sum_if false n x y z w h = h

-- A change of the queue of an alive CPU changes the sum by the change of its length.
total_runnable-set :
    (cs : List CpuState) (i : ℕ) (c : CpuState) (q : List ℕ)
    → get_elem? cs i ≡ some c
    → c.alive ≡ true
    → total_runnable (set cs i (with_queue c q)) + load c ≡ total_runnable cs + length q
unfolding total_runnable load
total_runnable-set [] i c q e a = cc
total_runnable-set (d ∷ cs) zero c q e a =
    let same : d ≡ c = cc in
    alive_sum c.alive d.alive (length q) (load d) (total_runnable cs) (load c) a
      (subst (λ x. x.alive ≡ true) (sym same) a) (ap load same)
total_runnable-set (d ∷ cs) (suc i) c q e a =
    sum_if d.alive (load d) (total_runnable (set cs i (with_queue c q))) (load c)
      (total_runnable cs) (length q) (total_runnable-set cs i c q e a)

-- What a steal adds to the processes outside the queues.
abbrev pub taken : Option ℕ → ℕ
taken none = 0
taken (some pid) = 1

shorter-total :
    (cs : List CpuState) (i : ℕ) (c : CpuState) (removed : Option ℕ) (rest : List ℕ)
    → AllCached cs
    → get_elem? cs i ≡ some c
    → c.alive ≡ true
    → length c.run_queue ≡ taken removed + length rest
    → AllCached (set cs i (with_queue c rest))
      × (taken removed + total_runnable (set cs i (with_queue c rest)) ≡ total_runnable cs)
unfolding load
shorter-total cs i c removed rest h e a less =
    let size : c.run_queue_len ≡ length c.run_queue = cached_at cs i c h e in
    (cached_set cs i c rest h, omega (arith, size, less, total_runnable-set cs i c rest e a))

Steals-total :
    (cpus : List CpuState) (thief : ℕ) (r : Option ℕ × List CpuState)
    → AllCached cpus
    → Steals cpus thief r
    → AllCached r.1 × (taken r.0 + total_runnable r.1 ≡ total_runnable cpus)
Steals-total cpus thief _ h (nothing few) = (h, omega arith)
Steals-total cpus thief _ h (stolen {victim} {c} p two most pid rest q) =
    shorter-total cpus victim c (some pid) rest h p.found p.alive (rw q (omega arith))
Steals-total cpus thief _ h (empty_handed {victim} {c} p two most q) =
    shorter-total cpus victim c none [] h p.found p.alive (rw q refl)

-- Where some CPU is alive (and its load not `usize::MAX`) and each cached length is true:
-- `enqueue_balanced` makes `total_runnable` one more, `steal_from_peer` makes it one less if it
-- takes a process and leaves it as it is otherwise, and the cached lengths stay true.
pub total_runnable_kept :
    (cpus : List CpuState) (j : ℕ) (d : CpuState) (pid thief : ℕ)
    → length cpus ≤ max_cpus
    → AllCached cpus
    → get_elem? cpus j ≡ some d
    → d.alive ≡ true
    → load d < usize_max
    → (AllCached (enqueue_balanced cpus pid).1
        × (total_runnable (enqueue_balanced cpus pid).1 ≡ suc (total_runnable cpus)))
      × (AllCached (steal_from_peer cpus thief).1
          × (taken (steal_from_peer cpus thief).0 + total_runnable (steal_from_peer cpus thief).1
              ≡ total_runnable cpus))
unfolding load
total_runnable_kept cpus j d pid thief fits h at a small =
    let (least, routed) = enqueue_balanced-IsLeast cpus j d pid fits at a small in
    let id = (enqueue_balanced cpus pid).0 in
    let q = least.cpu.run_queue ++ pid ∷ [] in
    let size : least.cpu.run_queue_len ≡ length least.cpu.run_queue =
      cached_at cpus id least.cpu h least.found in
    (
      (
        rw routed (cached_set cpus id least.cpu q h),
        rw routed (
            omega (
              arith,
              size,
              length-append least.cpu.run_queue (pid ∷ []),
              total_runnable-set cpus id least.cpu q least.found least.alive,
            )),
      ),
      Steals-total cpus thief (steal_from_peer cpus thief) h
          (steal_from_peer-Steals cpus thief fits),
    )
