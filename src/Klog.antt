-- ===== src/Klog.antt =====
-- The kernel log of src/klog.rs: a ring of 512 entries.
pub mod Ring
mod Tests
use Prim.Native.String.{String}
use rustos.Prelude.{
  ℕ, zero, suc, ◌+◌, ◌*◌, ◌/◌, ◌%◌, ◌^◌, List, [], ◌∷◌, ◌++◌, length, ltb, if◌then◌else◌, Run, done,
  panic, ◌>>=◌, index, store,
}

pub data LogLevel : Type 0 where
  emergency alert critical error warning notice info debug : LogLevel

pub prefix : LogLevel → String
prefix emergency = "EMERG"
prefix alert = "ALERT"
prefix critical = "CRIT"
prefix error = "ERR"
prefix warning = "WARN"
prefix notice = "NOTICE"
prefix info = "INFO"
prefix debug = "DEBUG"

pub record LogEntry : Type 0 where
  pub timestamp_ticks : ℕ
  pub level : LogLevel
  pub message : String

abbrev ring_buffer_size : ℕ
ring_buffer_size = 512

pub record KernelLog : Type 0 where
  pub buffer : List LogEntry
  pub write_pos : ℕ
  pub count : ℕ
  pub sequence : ℕ

unfoldable pub new : KernelLog
new = record { buffer = []; write_pos = 0; count = 0; sequence = 0 }

-- The buffer with the entry pushed, or in the place of the oldest one.
abbrev written : KernelLog → LogEntry → Run (List LogEntry)
written k entry =
    if ltb (length k.buffer) ring_buffer_size
    then done (k.buffer ++ entry ∷ [])
    else store k.buffer k.write_pos entry

abbrev advanced : KernelLog → List LogEntry → KernelLog
advanced k buffer = record {
  buffer = buffer;
  write_pos = (k.write_pos + 1) % ring_buffer_size;
  count = if ltb k.count ring_buffer_size then k.count + 1 else k.count;
  sequence = k.sequence + 1;
}

-- The sequence number is a `u64`, whose overflow is a panic.
abbrev numbered : KernelLog → List LogEntry → Run KernelLog
numbered k buffer = if ltb (k.sequence + 1) (2 ^ 64) then done (advanced k buffer) else panic

-- `ticks` is the value of `current_ticks()`.
pub log : KernelLog → ℕ → LogLevel → String → Run KernelLog
log k ticks level message =
    written k (record { timestamp_ticks = ticks; level = level; message = message }) >>= λ buffer.
    numbered k buffer

pub len : KernelLog → ℕ
len k = k.count

-- `format` stands for the macro with the pattern "[{:5}.{:02}] {}: {}".
module _ (format : ℕ → ℕ → String → String → String) where
  pub format_entry : LogEntry → String
  unfolding prefix
  format_entry e =
      format (e.timestamp_ticks / 18) (e.timestamp_ticks % 18 * 100 / 18) (prefix e.level) e.message

  -- One of the loops of `read_all`, over the positions that `at` gives.
  gather : List LogEntry → (ℕ → ℕ) → ℕ → ℕ → Run (List String)
  gather buffer at zero i = done []
  gather buffer at (suc rounds) i =
      let rest = gather buffer at rounds (i + 1) in
      index buffer (at i) >>= λ e. rest >>= λ lines. done (format_entry e ∷ lines)

  pub read_all : KernelLog → Run (List String)
  unfolding gather
  read_all k =
      if ltb k.count ring_buffer_size
      then gather k.buffer (λ i. i) k.count 0
      else gather k.buffer (λ i. (k.write_pos + i) % ring_buffer_size) ring_buffer_size 0
