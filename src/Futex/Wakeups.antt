-- ===== src/Futex/Wakeups.antt =====
-- A caller that parks and a wake after it: no wake-up is lost, but tasks without a process share
-- one pid.
use rustos.Prelude.{
  ℕ, zero, suc, ◌≡◌, ◌≢◌, ap, ◌∙◌, true, false, none, List, [], ◌∷◌, ◌++◌, arith, length, drop, leb,
  ◌==◌, ==-refl,
}
use rustos.Futex.{Futexes, waiters, caller, park, contains, still_parked, wake}
use rustos.Futex.Queues.{waiters-insert, drop-nil, wake-Wakes}

contains-last : (q : List ℕ) (pid : ℕ) → contains (q ++ pid ∷ []) pid ≡ true
unfolding contains
contains-last [] pid = ground (arith, ==-refl pid)
contains-last (p ∷ q) pid = ground (arith, contains-last q pid)

contains-drop_last :
    (n : ℕ) (q : List ℕ) (pid : ℕ)
    → contains q pid ≡ false
    → contains (drop n (q ++ pid ∷ [])) pid ≡ leb n (length q)
unfolding contains
contains-drop_last zero q pid h = contains-last q pid ∙ ground arith
contains-drop_last (suc n) [] pid h = rw (drop-nil n) (ground arith)
contains-drop_last (suc n) (p ∷ q) pid h = ground (arith, h, contains-drop_last n q pid)

waiters-park :
    (s : Futexes) (uaddr word : ℕ)
    → uaddr ≢ 0
    → waiters (park s uaddr word word).1 uaddr
      ≡ waiters s uaddr ++ caller s.kernel.manager.current_pid ∷ []
unfolding park
waiters-park s uaddr word ne =
    let real : (uaddr == 0) ≡ false = ground arith in
    rw (real, ==-refl word) (waiters-insert s s.kernel uaddr uaddr _ ∙ rw (==-refl uaddr))

kernel-park : (s : Futexes) (uaddr word : ℕ) → (park s uaddr word word).1.kernel ≡ s.kernel
unfolding park
kernel-park s uaddr word = ground (arith, ==-refl word)

-- A caller that is not parked on an address other than 0 yet, and whose word has the value that it
-- expects: once it has called `wait`, a `wake` leaves it parked just when it asks for no more
-- waiters than there were before the caller.
pub still_parked-wake :
    (s : Futexes) (uaddr word nr : ℕ)
    → uaddr ≢ 0
    → still_parked s uaddr (caller s.kernel.manager.current_pid) ≡ false
    → still_parked
        (wake (park s uaddr word word).1 uaddr nr).1
        uaddr
        (caller s.kernel.manager.current_pid)
      ≡ leb nr (length (waiters s uaddr))
unfolding still_parked
still_parked-wake s uaddr word nr ne free =
    let pid : ℕ = caller s.kernel.manager.current_pid in
    let parked : Futexes = (park s uaddr word word).1 in
    let left : waiters (wake parked uaddr nr).1 uaddr ≡ drop nr (waiters s uaddr ++ pid ∷ []) =
      (wake-Wakes parked uaddr nr ne).1 uaddr ∙ rw (==-refl uaddr, waiters-park s uaddr word ne) in
    rw left (contains-drop_last nr (waiters s uaddr) pid free)

-- Two tasks that wait on an address other than 0, where nobody waits yet and no process is
-- current: a wake of one waiter reports that it woke one, and yet both tasks are still parked,
-- since both go by the pid 0xfffe.
pub wake-park-park :
    (s : Futexes) (uaddr word : ℕ)
    → uaddr ≢ 0
    → s.kernel.manager.current_pid ≡ none
    → waiters s uaddr ≡ []
    → ((wake (park (park s uaddr word word).1 uaddr word word).1 uaddr 1).0 ≡ 1)
      × (still_parked
            (wake (park (park s uaddr word word).1 uaddr word word).1 uaddr 1).1
            uaddr
            65534
          ≡ true)
unfolding still_parked contains
wake-park-park s uaddr word ne nobody empty =
    let one : Futexes = (park s uaddr word word).1 in
    let two : Futexes = (park one uaddr word word).1 in
    let current : one.kernel.manager.current_pid ≡ none =
      ap (λ k. k.manager.current_pid) (kernel-park s uaddr word) ∙ nobody in
    let q : waiters two uaddr ≡ 65534 ∷ 65534 ∷ [] =
      waiters-park one uaddr word ne ∙ rw (waiters-park s uaddr word ne, empty, current, nobody) in
    let (n, left, _) = wake-Wakes two uaddr 1 ne in (n ∙ rw q, rw (left uaddr, ==-refl uaddr, q))
