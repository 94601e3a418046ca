-- ===== src/Klog/Tests.antt =====
-- The kernel log at concrete entries, and the theorems at such entries.
use Prim.Native.String.{String}
use rustos.Prelude.{ℕ, ◌-◌, ◌≡◌, refl, List, [], ◌∷◌, map, length, drop, min, done, ◌>>=◌, arith}
use rustos.Klog.{LogEntry, KernelLog, warning, info, new, log, len, format_entry, read_all}
use rustos.Klog.Ring.{log_all, read_all-log_all}

abbrev entries : List LogEntry
entries =
    record { timestamp_ticks = 18; level = info; message = "boot" }
    ∷ record { timestamp_ticks = 30; level = warning; message = "slow" }
    ∷ []

-- The message alone.
abbrev bare : ℕ → ℕ → String → String → String
bare secs frac prefix message = message

log_all-entries : (log_all new entries >>= λ k. read_all bare k) ≡ done ("boot" ∷ "slow" ∷ [])
unfolding log new read_all format_entry
log_all-entries = refl

read_all-log_all_example :
    (k : KernelLog) × (log_all new entries ≡ done k)
    × (read_all bare k ≡ done (map (format_entry bare) (drop (length entries - 512) entries)))
    × (len k ≡ min (length entries) 512)
    × (k.sequence ≡ length entries)
read_all-log_all_example = read_all-log_all bare entries (omega arith)
