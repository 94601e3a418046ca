-- ===== src/Smp/Tests.antt =====
-- The theorems on the queues of the CPUs at two CPUs.
use rustos.Prelude.{suc, ◌+◌, ◌≡◌, refl, true, List, [], ◌∷◌, arith}
use rustos.Smp.{CpuState, load, enqueue_balanced, steal_from_peer, total_runnable}
use rustos.Smp.Lengths.{AllCached, taken, total_runnable_kept}
use rustos.Smp.Stealing.{Steals, steal_from_peer-Steals}

abbrev busy : CpuState
busy = record { alive = true; run_queue = 4 ∷ 5 ∷ 6 ∷ []; run_queue_len = 3 }

abbrev idle : CpuState
idle = record { alive = true; run_queue = 9 ∷ []; run_queue_len = 1 }

abbrev two_cpus : List CpuState
two_cpus = busy ∷ idle ∷ []

steal_from_peer-Steals_example : Steals two_cpus 1 (steal_from_peer two_cpus 1)
steal_from_peer-Steals_example = steal_from_peer-Steals two_cpus 1 (omega arith)

total_runnable_kept_example :
    (AllCached (enqueue_balanced two_cpus 7).1
      × (total_runnable (enqueue_balanced two_cpus 7).1 ≡ suc (total_runnable two_cpus)))
    × (AllCached (steal_from_peer two_cpus 1).1
        × (taken (steal_from_peer two_cpus 1).0 + total_runnable (steal_from_peer two_cpus 1).1
            ≡ total_runnable two_cpus))
unfolding load
total_runnable_kept_example =
    total_runnable_kept two_cpus 0 busy 7 1 (omega arith) (refl, (refl, tt)) refl refl (omega arith)
