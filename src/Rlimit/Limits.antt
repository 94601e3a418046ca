-- ===== src/Rlimit/Limits.antt =====
-- What setting limits does to every limit, and what holds of every table that can be reached.
use rustos.Prelude.{
  ◌≤◌, ◌≡◌, ◌↔◌, refl, ap, Bool, true, false, not, ◌&&◌, some, List, [], ◌∷◌, arith, ok, ltb, ◌==◌,
  ==_iff, if◌then◌else◌, Bool-cases, inl, inr,
}
use rustos.Prelude.Maps
use rustos.Prelude.Maps.{find-insert, find-empty, nat_eq}
use rustos.Rlimit.{
  Resource, as_u32, from_u32, Rlimit, LimitsTable, new, get, set_limit, install_defaults,
  insert_all, defaults, or_unlimited, cpu, fsize, data_size, stack, core, rss, nproc, no_file,
  memlock, address_space, locks, sigpending, msgqueue, nice, rtprio,
}

-- Every resource comes back from its number.
from_u32-as_u32 : (r : Resource) → from_u32 (as_u32 r) ≡ some r
unfolding from_u32 as_u32
from_u32-as_u32 cpu = refl
from_u32-as_u32 fsize = refl
from_u32-as_u32 data_size = refl
from_u32-as_u32 stack = refl
from_u32-as_u32 core = refl
from_u32-as_u32 rss = refl
from_u32-as_u32 nproc = refl
from_u32-as_u32 no_file = refl
from_u32-as_u32 memlock = refl
from_u32-as_u32 address_space = refl
from_u32-as_u32 locks = refl
from_u32-as_u32 sigpending = refl
from_u32-as_u32 msgqueue = refl
from_u32-as_u32 nice = refl
from_u32-as_u32 rtprio = refl

abbrev pub same : Resource → Resource → Bool
same r s = as_u32 r == as_u32 s

abbrev pub Fits : Rlimit → Type 0
Fits limit = limit.soft ≤ limit.hard

abbrev pub IsValid : LimitsTable → Type 0
IsValid t = (r : Resource) → Fits (get t r)

get-insert :
    (t : LimitsTable) (res r : Resource) (limit : Rlimit)
    → get (record { by_resource = Maps.insert t.by_resource (as_u32 res) limit }) r
      ≡ (if same res r then limit else get t r)
unfolding get
get-insert t res r limit = ground (arith, find-insert t.by_resource (as_u32 res) (as_u32 r) limit)

-- What a request must satisfy.
abbrev allowed : LimitsTable → Resource → Rlimit → Bool → Bool
allowed t res limit is_root =
    not (not is_root && ltb (get t res).hard limit.hard) && not (ltb limit.hard limit.soft)

-- A request succeeds just when its soft limit is at most its hard one and, unless it comes from
-- root, its hard limit is at most the old one; then it replaces the limit of this resource, and
-- otherwise nothing changes. The limits of the other resources stay.
set_limit_lem :
    (t : LimitsTable) (res r : Resource) (limit : Rlimit) (is_root : Bool)
    → (((set_limit t res limit is_root).0 ≡ ok tt) ↔ (allowed t res limit is_root ≡ true))
      × (get (set_limit t res limit is_root).1 r
          ≡ (if allowed t res limit is_root && same res r then limit else get t r))
unfolding set_limit
set_limit_lem t res r limit is_root =
    elim (Bool-cases (not is_root && ltb (get t res).hard limit.hard)) [
      | inl e ↦ rw e ((λ c. cc, λ c. cc), refl)
      | inr e ↦ elim (Bool-cases (ltb limit.hard limit.soft)) [
        | inl h ↦ rw (e, h) ((λ c. cc, λ c. cc), refl)
        | inr h ↦ rw (e, h) ((λ c. refl, λ c. refl), get-insert t res r limit)
      ]
    ]

set_limit-IsValid :
    (t : LimitsTable) (res : Resource) (limit : Rlimit) (is_root : Bool)
    → IsValid t
    → IsValid (set_limit t res limit is_root).1
set_limit-IsValid t res limit is_root v r =
    rw ((set_limit_lem t res r limit is_root).1) (ground (arith, v r))

-- A call of setrlimit.
abbrev pub Call : Type 0
Call = Resource × Rlimit × Bool

unfoldable pub run : LimitsTable → List Call → LimitsTable
run t [] = t
run t ((res, limit, is_root) ∷ calls) = run (set_limit t res limit is_root).1 calls

run_from : (t : LimitsTable) (calls : List Call) → IsValid t → IsValid (run t calls)
unfolding run
run_from t [] v = v
run_from t ((res, limit, is_root) ∷ calls) v =
    run_from (set_limit t res limit is_root).1 calls (set_limit-IsValid t res limit is_root v)

abbrev AllFit : List (Resource × Rlimit) → Type 0
AllFit [] = Unit
AllFit ((res, limit) ∷ rest) = Fits limit × AllFit rest

insert_all-IsValid :
    (t : LimitsTable) (limits : List (Resource × Rlimit))
    → IsValid t
    → AllFit limits
    → IsValid (insert_all t limits)
unfolding insert_all
insert_all-IsValid t [] v a = v
insert_all-IsValid t ((res, limit) ∷ rest) v a =
    insert_all-IsValid (record { by_resource = Maps.insert t.by_resource (as_u32 res) limit }) rest
      (λ r. rw (get-insert t res r limit) (ground (arith, v r, a.0))) a.1

new-IsValid : IsValid new
unfolding new get
new-IsValid r = rw (find-empty {V = Rlimit} (as_u32 r)) (omega arith)

defaults-AllFit : AllFit defaults
unfolding defaults
defaults-AllFit = (
  omega arith,
  (
    omega arith,
    (
      omega arith,
      (
        omega arith,
        (
          omega arith,
          (
            omega arith,
            (
              omega arith,
              (
                omega arith,
                (
                  omega arith,
                  (
                    omega arith,
                    (omega arith, (omega arith, (omega arith, (omega arith, (omega arith, tt))))),
                  ),
                ),
              ),
            ),
          ),
        ),
      ),
    ),
  ),
)

defaults-IsValid : IsValid (install_defaults new)
unfolding install_defaults
defaults-IsValid = insert_all-IsValid new defaults new-IsValid defaults-AllFit

-- After the defaults and any sequence of requests, from root or not, no soft limit is above its
-- hard limit.
pub run-Fits : (calls : List Call) (r : Resource) → Fits (get (run (install_defaults new) calls) r)
run-Fits calls r = run_from (install_defaults new) calls defaults-IsValid r

-- No request of the sequence comes from root.
abbrev AllUsers : List Call → Type 0
AllUsers [] = Unit
AllUsers ((res, limit, is_root) ∷ calls) = (is_root ≡ false) × AllUsers calls

hard_kept :
    (t : LimitsTable) (res r : Resource) (limit : Rlimit)
    → (get (set_limit t res limit false).1 r).hard ≤ (get t r).hard
unfolding get
hard_kept t res r limit =
    rw ((set_limit_lem t res r limit false).1) (elim (Bool-cases (same res r)) [
      | inl e ↦
          let s : as_u32 res ≡ as_u32 r = (==_iff (as_u32 res) (as_u32 r)).0 e in
          ground (arith, e, ap (λ n. (or_unlimited (Maps.find t.by_resource n)).hard) s)
      | inr e ↦ rw e (ground arith)
    ])

-- A sequence of requests that are not from root raises no hard limit.
run-hard :
    (t : LimitsTable) (calls : List Call) (r : Resource)
    → AllUsers calls
    → (get (run t calls) r).hard ≤ (get t r).hard
unfolding run
run-hard t [] r u = omega arith
run-hard t ((res, limit, is_root) ∷ calls) r u =
    let users : is_root ≡ false = u.0 in
    let first : (get (set_limit t res limit is_root).1 r).hard ≤ (get t r).hard =
      rw users (hard_kept t res r limit) in
    let rest : (get (run (set_limit t res limit is_root).1 calls) r).hard
        ≤ (get (set_limit t res limit is_root).1 r).hard =
      run-hard (set_limit t res limit is_root).1 calls r u.1 in
    omega (arith, first, rest)
