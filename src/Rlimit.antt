-- ===== src/Rlimit.antt =====
-- src/rlimit.rs: the table of resource limits. The table behind `LIMITS` is passed on explicitly;
-- a limit is a u64 value.
pub mod Limits
mod Tests
use rustos.Prelude.{
  ℕ, ◌-◌, ◌*◌, ◌^◌, Bool, true, false, not, ◌&&◌, Option, none, some, List, [], ◌∷◌, Result, ok,
  err, ltb, ◌==◌, if◌then◌else◌,
}
use rustos.Prelude.Maps
use rustos.Prelude.Maps.{Map, nat_eq}

-- RLIM_INFINITY, u64::MAX
abbrev rlim_infinity : ℕ
rlim_infinity = 2 ^ 64 - 1

pub data Resource : Type 0 where
  cpu fsize data_size stack core rss nproc no_file memlock address_space locks sigpending msgqueue
        nice rtprio :
      Resource

-- `self as u32`
pub as_u32 : Resource → ℕ
as_u32 cpu = 0
as_u32 fsize = 1
as_u32 data_size = 2
as_u32 stack = 3
as_u32 core = 4
as_u32 rss = 5
as_u32 nproc = 6
as_u32 no_file = 7
as_u32 memlock = 8
as_u32 address_space = 9
as_u32 locks = 10
as_u32 sigpending = 11
as_u32 msgqueue = 12
as_u32 nice = 13
as_u32 rtprio = 14

pub from_u32 : ℕ → Option Resource
from_u32 n =
    if n == 0
    then some cpu
    else if n == 1
    then some fsize
    else if n == 2
    then some data_size
    else if n == 3
    then some stack
    else if n == 4
    then some core
    else if n == 5
    then some rss
    else if n == 6
    then some nproc
    else if n == 7
    then some no_file
    else if n == 8
    then some memlock
    else if n == 9
    then some address_space
    else if n == 10
    then some locks
    else if n == 11
    then some sigpending
    else if n == 12
    then some msgqueue
    else if n == 13
    then some nice
    else if n == 14
    then some rtprio
    else none

pub record Rlimit : Type 0 where
  pub soft : ℕ
  pub hard : ℕ

pub record LimitsTable : Type 0 where
  pub by_resource : Map ℕ Rlimit

pub data LimitError : Type 0 where
  permission_denied invalid_argument : LimitError

pub new : LimitsTable
new = record { by_resource = Maps.empty }

abbrev unlimited : Rlimit
unlimited = record { soft = rlim_infinity; hard = rlim_infinity }

-- The pairs of `install_defaults`, in its order.
pub defaults : List (Resource × Rlimit)
defaults =
    (cpu, unlimited)
    ∷ (fsize, unlimited)
    ∷ (data_size, unlimited)
    ∷ (stack, record { soft = 8 * 1024 * 1024; hard = rlim_infinity })
    ∷ (core, record { soft = 0; hard = rlim_infinity })
    ∷ (rss, unlimited)
    ∷ (nproc, record { soft = 256; hard = 1024 })
    ∷ (no_file, record { soft = 1024; hard = 4096 })
    ∷ (memlock, record { soft = 64 * 1024; hard = 64 * 1024 })
    ∷ (address_space, unlimited)
    ∷ (locks, unlimited)
    ∷ (sigpending, record { soft = 1024; hard = 1024 })
    ∷ (msgqueue, record { soft = 819200; hard = 819200 })
    ∷ (nice, record { soft = 0; hard = 0 })
    ∷ (rtprio, record { soft = 0; hard = 0 })
    ∷ []

pub insert_all : LimitsTable → List (Resource × Rlimit) → LimitsTable
insert_all t [] = t
insert_all t ((res, limit) ∷ rest) =
    insert_all (record { by_resource = Maps.insert t.by_resource (as_u32 res) limit }) rest

pub install_defaults : LimitsTable → LimitsTable
unfolding insert_all defaults
install_defaults t = insert_all t defaults

abbrev pub or_unlimited : Option Rlimit → Rlimit
or_unlimited none = unlimited
or_unlimited (some limit) = limit

pub get : LimitsTable → Resource → Rlimit
get t res = or_unlimited (Maps.find t.by_resource (as_u32 res))

pub set_limit : LimitsTable → Resource → Rlimit → Bool → Result (Unit {0}) LimitError × LimitsTable
set_limit t res limit is_root =
    if not is_root && ltb (get t res).hard limit.hard
    then (err permission_denied, t)
    else if ltb limit.hard limit.soft
    then (err invalid_argument, t)
    else (ok tt, record { by_resource = Maps.insert t.by_resource (as_u32 res) limit })
