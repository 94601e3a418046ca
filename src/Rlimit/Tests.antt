-- ===== src/Rlimit/Tests.antt =====
-- The theorems on resource limits at concrete requests.
use rustos.Prelude.{false, List, [], ◌∷◌}
use rustos.Rlimit.{Rlimit, LimitsTable, new, get, install_defaults, no_file}
use rustos.Rlimit.Limits.{Call, run, Fits, run-Fits}

abbrev at_boot : LimitsTable
at_boot = install_defaults new

abbrev lower : Rlimit
lower = record { soft = 512; hard = 2048 }

-- A user lowers a limit and cannot raise it again.
abbrev calls : List Call
calls = (no_file, lower, false) ∷ (no_file, record { soft = 512; hard = 4096 }, false) ∷ []

run-Fits_example : Fits (get (run at_boot calls) no_file)
run-Fits_example = run-Fits calls no_file
