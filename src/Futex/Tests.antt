-- ===== src/Futex/Tests.antt =====
-- The theorems on futexes at an address with no waiter yet, and no current process.
use rustos.Prelude.{ℕ, ◌≡◌, refl, true, false, List, arith, [], leb, length}
use rustos.Prelude.Maps
use rustos.Prelude.Maps.{find-empty, nat_eq}
use rustos.Process.Reach.{boot}
use rustos.Futex.{Futexes, waiters, park, contains, still_parked, wake}
use rustos.Futex.Queues.{Wakes, wake-Wakes}
use rustos.Futex.Wakeups.{still_parked-wake, wake-park-park}

abbrev start : Futexes
start = record { queues = Maps.empty; kernel = boot }

nobody_waits : waiters start 4096 ≡ []
unfolding waiters
nobody_waits = rw (find-empty {K = ℕ} {V = List ℕ} 4096)

nobody_parked : still_parked start 4096 65534 ≡ false
unfolding still_parked contains
nobody_parked = rw nobody_waits

wake-Wakes_example : Wakes start 4096 1 (wake start 4096 1)
wake-Wakes_example = wake-Wakes start 4096 1 (omega arith)

still_parked-wake_example :
    still_parked (wake (park start 4096 7 7).1 4096 1).1 4096 65534
    ≡ leb 1 (length (waiters start 4096))
unfolding boot
still_parked-wake_example = still_parked-wake start 4096 7 1 (omega arith) nobody_parked

wake-park-park_example :
    ((wake (park (park start 4096 7 7).1 4096 7 7).1 4096 1).0 ≡ 1)
    × (still_parked (wake (park (park start 4096 7 7).1 4096 7 7).1 4096 1).1 4096 65534 ≡ true)
unfolding boot
wake-park-park_example = wake-park-park start 4096 7 (omega arith) refl nobody_waits
