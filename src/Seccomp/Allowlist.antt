-- ===== src/Seccomp/Allowlist.antt =====
-- The builder of allow-lists of src/seccomp.rs, and what its programs decide.
use rustos.Prelude.{
  ℕ, zero, suc, ◌+◌, ◌*◌, ◌/◌, ◌%◌, ◌^◌, ◌≤◌, ◌<◌, ◌≡◌, ◌≢◌, refl, sym, ap, ◌∙◌, List, [], ◌∷◌,
  some, Bool, true, false, ◌||◌, length, get_elem?, ◌==◌, ==-refl, ==_false_iff, if◌then◌else◌,
  Bool-cases, inl, inr, done, arith,
}
use rustos.Seccomp.Insn.{BpfInsn, SeccompData, class, size, mode, op, src, load_word, ret_allow}
use rustos.Seccomp.Machine.{Vm, new, returned, at, execute, run_from, run}
use rustos.Seccomp.Table.{FilterTable, install, check, decided, data_of, decision_of, allow}
use rustos.Seccomp.Table.Slots.{IsValid, Installs, filter, install-Installs}

abbrev load_nr : BpfInsn
load_nr = record { code = 0x20; jt = 0; jf = 0; k = 0 }

abbrev jump_eq : ℕ → BpfInsn
jump_eq nr = record { code = 0x15; jt = 0; jf = 1; k = nr }

abbrev return : ℕ → BpfInsn
return value = record { code = 0x06; jt = 0; jf = 0; k = value }

-- What the loop pushes, and the default action after it.
abbrev tests : ℕ → List ℕ → List BpfInsn
tests default [] = return default ∷ []
tests default (nr ∷ allowed) = jump_eq nr ∷ return ret_allow ∷ tests default allowed

unfoldable pub build_allowlist : List ℕ → ℕ → List BpfInsn
build_allowlist allowed default = load_nr ∷ tests default allowed

abbrev pub contains : List ℕ → ℕ → Bool
contains [] n = false
contains (x ∷ xs) n = (n == x) || contains xs n

module _ (d : SeccompData) (pc : ℕ) (vm : Vm) where
  execute-load_nr :
      d.nr < 2 ^ 32 → execute d pc load_nr vm ≡ done (at (pc + 1) (record vm { a = d.nr }))
  unfolding execute class size mode load_word
  execute-load_nr h =
      let whole : d.nr % 256
            + 256
              * (d.nr / 256 % 256
                  + 256 * (d.nr / 256 / 256 % 256 + 256 * (d.nr / 256 / 256 / 256 % 256 + 256 * 0)))
          ≡ d.nr =
        omega arith in
      ap (λ (v : ℕ). done (at (pc + 1) (record vm { a = v }))) whole

  execute-jump_eq :
      (nr : ℕ)
      → pc < 2 ^ 63
      → execute d pc (jump_eq nr) vm ≡ done (at (if vm.a == nr then pc + 1 else pc + 2) vm)
  unfolding execute class op src
  execute-jump_eq nr h = ground arith

  execute-return : (v : ℕ) → execute d pc (return v) vm ≡ done (returned v)
  unfolding execute class mode src
  execute-return v = refl

module _ (program : List BpfInsn) (d : SeccompData) where
  -- One round, by the instruction at `pc`.
  round_at :
      (steps pc pc' : ℕ) (vm vm' : Vm) (ins : BpfInsn)
      → get_elem? program pc ≡ some ins
      → execute d pc ins vm ≡ done (at pc' vm')
      → run_from program d (suc steps) pc vm ≡ run_from program d steps pc' vm'
  unfolding run_from
  round_at steps pc pc' vm vm' ins there e = rw (there, e) refl

  round_returned :
      (steps pc v : ℕ) (vm : Vm) (ins : BpfInsn)
      → get_elem? program pc ≡ some ins
      → execute d pc ins vm ≡ done (returned v)
      → run_from program d (suc steps) pc vm ≡ done v
  unfolding run_from
  round_returned steps pc v vm ins there e = rw (there, e) refl

  module _ (default : ℕ) (vm : Vm) where
    -- The tests stand in the program from `pc` on.
    abbrev Stands : List BpfInsn → ℕ → Type 0
    Stands tail pc = (i j : ℕ) → j ≡ pc + i → get_elem? program j ≡ get_elem? tail i

    run_from-tests :
        (allowed : List ℕ) (steps pc : ℕ)
        → Stands (tests default allowed) pc
        → length allowed < steps
        → pc + 2 * length allowed < 2 ^ 63
        → run_from program d steps pc vm
          ≡ done (if contains allowed vm.a then ret_allow else default)
    run_from-tests allowed zero pc there enough bound = absurd (omega arith)
    run_from-tests [] (suc steps) pc there enough bound =
        round_returned steps pc default vm (return default) (there 0 pc (omega arith))
          (execute-return d pc vm default)
    run_from-tests (nr ∷ allowed) (suc zero) pc there enough bound = absurd (omega arith)
    run_from-tests (nr ∷ allowed) (suc (suc steps)) pc there enough bound =
        let next = execute-jump_eq d pc vm nr (omega arith) in
        let fetched = there 0 pc (omega arith) in
        let tail =
          run_from-tests allowed (suc steps) (pc + 2) (λ i j e. there (suc (suc i)) j (omega arith))
            (omega arith) (omega arith) in
        elim (Bool-cases (vm.a == nr)) [
          | inl e ↦
              round_at (suc steps) pc (pc + 1) vm vm (jump_eq nr) fetched (next ∙ rw e refl)
              ∙ round_returned steps (pc + 1) ret_allow vm (return ret_allow)
                  (there 1 (pc + 1) (omega arith)) (execute-return d (pc + 1) vm ret_allow)
              ∙ rw e refl
          | inr e ↦
              round_at (suc steps) pc (pc + 2) vm vm (jump_eq nr) fetched (next ∙ rw e refl)
              ∙ tail
              ∙ rw e refl
        ]

get_elem?-cons :
    (ins : BpfInsn) (tail : List BpfInsn) (i j : ℕ)
    → j ≡ 1 + i
    → get_elem? (ins ∷ tail) j ≡ get_elem? tail i
get_elem?-cons ins tail i zero e = absurd (omega arith)
get_elem?-cons ins tail i (suc j) e = ap (get_elem? tail) (omega arith)

run-build_allowlist :
    (allowed : List ℕ) (default : ℕ) (d : SeccompData)
    → length allowed + 2 ≤ 4096
    → d.nr < 2 ^ 32
    → run (build_allowlist allowed default) d
      ≡ done (if contains allowed d.nr then ret_allow else default)
unfolding run build_allowlist new
run-build_allowlist allowed default d small word =
    let vm = record new { a = d.nr } in
    round_at (build_allowlist allowed default) d 4095 0 1 new vm load_nr refl
      (execute-load_nr d 0 new word)
    ∙ run_from-tests (build_allowlist allowed default) d default vm allowed 4095 1
        (get_elem?-cons load_nr (tests default allowed)) (omega arith) (omega arith)

-- What a system call with this filter is answered, and one of another process.
abbrev pub Guards : FilterTable → ℕ → List ℕ → ℕ → FilterTable → Type 0
Guards slots pid allowed default slots' =
    (n : ℕ) (args : List ℕ)
    → (check slots' pid n args
        ≡ done (if contains allowed (n % 2 ^ 32) then allow else decision_of default))
      × ((q : ℕ) → q ≢ pid → check slots' q n args ≡ check slots q n args)

decided-build_allowlist :
    (allowed : List ℕ) (default pid n : ℕ) (args : List ℕ)
    → length allowed + 2 ≤ 4096
    → decided (data_of n args) (some (filter pid (build_allowlist allowed default)))
      ≡ done (if contains allowed (n % 2 ^ 32) then allow else decision_of default)
unfolding data_of decision_of
decided-build_allowlist allowed default pid n args small =
    rw (run-build_allowlist allowed default (data_of n args) small (omega arith))
      (elim (Bool-cases (contains allowed (n % 2 ^ 32))) [ inl e ↦ rw e refl | inr e ↦ rw e refl ])

installed-Guards :
    (slots : FilterTable) (pid : ℕ) (allowed : List ℕ) (default : ℕ) (r : FilterTable × Bool)
    → Installs slots pid (build_allowlist allowed default) r
    → r.1 ≡ true
    → length allowed + 2 ≤ 4096
    → Guards slots pid allowed default r.0
unfolding check
installed-Guards slots pid allowed default (slots', false) h e small = cc
installed-Guards slots pid allowed default (slots', true) (h, v, l) e small = λ n args. (
  rw (h pid, ==-refl pid) (decided-build_allowlist allowed default pid n args small),
  λ q ne. rw (h q, (==_false_iff pid q).1 (λ e. ne (sym e))) refl,
)

-- When an allow-list of at most 4,094 calls has been installed for a process, each of its system
-- calls is answered: a listed number is allowed and any other gets the default action. (The number
-- is taken as 32 bits.) No other process's calls are answered differently than before.
pub check-build_allowlist :
    (slots : FilterTable) (pid : ℕ) (allowed : List ℕ) (default : ℕ)
    → IsValid slots
    → (install slots pid (build_allowlist allowed default)).1 ≡ true
    → length allowed + 2 ≤ 4096
    → Guards slots pid allowed default (install slots pid (build_allowlist allowed default)).0
check-build_allowlist slots pid allowed default valid installed small =
    installed-Guards slots pid allowed default _
      (install-Installs slots pid (build_allowlist allowed default) valid) installed small
