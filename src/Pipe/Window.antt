-- ===== src/Pipe/Window.antt =====
-- The bytes that a pipe holds: `count` cells of the ring from the read position on, oldest first.
use rustos.Prelude.{
  ℕ, zero, suc, ◌+◌, ◌%◌, ◌≤◌, ◌<◌, ◌≡◌, refl, sym, ap, List, [], ◌∷◌, ◌++◌, arith, length, get_or,
  set, take, drop, get_or-set_ne,
}
use rustos.Pipe.{Pipe, pipe_buf_size}

-- The next position round the ring.
abbrev pub next : ℕ → ℕ
next pos = (pos + 1) % pipe_buf_size

unfoldable pub window : ℕ → ℕ → List ℕ → List ℕ
window zero pos buf = []
window (suc n) pos buf = get_or buf pos 0 ∷ window n (next pos) buf

unfoldable pub contents : Pipe → List ℕ
contents p = window p.count p.read_pos p.buffer

pub length-window : (n pos : ℕ) (buf : List ℕ) → length (window n pos buf) ≡ n
unfolding window
length-window zero pos buf = refl
length-window (suc n) pos buf = ap suc (length-window n (next pos) buf)

-- A write outside a window does not show in it.
pub window-set :
    (n pos j v : ℕ) (buf : List ℕ) (k : ℕ)
    → n ≤ k
    → k < pipe_buf_size
    → pos < pipe_buf_size
    → j ≡ (pos + k) % pipe_buf_size
    → window n pos (set buf j v) ≡ window n pos buf
unfolding window
window-set zero pos j v buf k nk kb pb e = refl
window-set (suc n) pos j v buf zero nk kb pb e = absurd (omega arith)
window-set (suc n) pos j v buf (suc k) nk kb pb e = ground (
  arith,
  get_or-set_ne buf j pos v 0 (omega arith),
  window-set n (next pos) j v buf k (omega arith) (omega arith) (omega arith) (omega arith),
)

-- A longer window ends in the cell behind the shorter one.
pub window-last :
    (n pos j : ℕ) (buf : List ℕ)
    → pos < pipe_buf_size
    → j ≡ (pos + n) % pipe_buf_size
    → window (suc n) pos buf ≡ window n pos buf ++ get_or buf j 0 ∷ []
unfolding window
window-last zero pos j buf pb e =
    let e' : j ≡ pos = omega arith in ap (λ (i : ℕ). get_or buf i 0 ∷ []) (sym e')
window-last (suc n) pos j buf pb e =
    ap (λ (w : List ℕ). get_or buf pos 0 ∷ w)
      (window-last n (next pos) j buf (omega arith) (omega arith))

pub take-window :
    (m n pos : ℕ) (buf : List ℕ) → m ≤ n → take m (window n pos buf) ≡ window m pos buf
unfolding window
take-window zero n pos buf h = refl
take-window (suc m) zero pos buf h = absurd (omega arith)
take-window (suc m) (suc n) pos buf h =
    ap (λ (w : List ℕ). get_or buf pos 0 ∷ w) (take-window m n (next pos) buf (omega arith))

-- Dropping from a window moves its start.
pub drop-window :
    (m n k pos j : ℕ) (buf : List ℕ)
    → pos < pipe_buf_size
    → n ≡ m + k
    → j ≡ (pos + m) % pipe_buf_size
    → drop m (window n pos buf) ≡ window k j buf
unfolding window
drop-window zero n k pos j buf pb en ej =
    let a : n ≡ k = omega arith in let b : pos ≡ j = omega arith in rw (a, b)
drop-window (suc m) zero k pos j buf pb en ej = absurd (omega arith)
drop-window (suc m) (suc n) k pos j buf pb en ej =
    drop-window m n k (next pos) j buf (omega arith) (omega arith) (omega arith)

pub length-contents : (p : Pipe) → length (contents p) ≡ p.count
unfolding contents
length-contents p = length-window p.count p.read_pos p.buffer
