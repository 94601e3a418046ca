-- ===== src/Pipe/Reading.antt =====
-- `Pipe::read` against the bytes that the pipe holds.
use rustos.Prelude.{
  ℕ, zero, suc, ◌+◌, ◌-◌, ◌%◌, ◌≤◌, ◌<◌, ◌≡◌, refl, sym, ap, ◌∙◌, min, List, [], ◌∷◌, ◌++◌, arith,
  length, get_or, set, take, drop, done, index_in_range, store_in_range, sub_checked_lem,
  length-set, take-min, drop-min,
}
use rustos.Pipe.{Pipe, pipe_buf_size, IsValid, read_loop, read}
use rustos.Pipe.Window.{
  length-contents, next, window, contents, length-window, take-window, drop-window,
}

-- `bytes` stored over `buf` from index `i` on.
overwrite : ℕ → List ℕ → List ℕ → List ℕ
overwrite i [] buf = buf
overwrite i (b ∷ bytes) buf = overwrite (i + 1) bytes (set buf i b)

overwrite-cons :
    (i j : ℕ) (bytes : List ℕ) (x : ℕ) (buf : List ℕ)
    → j ≡ suc i
    → overwrite j bytes (x ∷ buf) ≡ x ∷ overwrite i bytes buf
unfolding overwrite
overwrite-cons i j [] x buf e = refl
overwrite-cons i j (b ∷ bytes) x buf e =
    rw e (overwrite-cons (i + 1) (suc i + 1) bytes x (set buf i b) (omega arith))

overwrite_from_start :
    (bytes buf : List ℕ)
    → length bytes ≤ length buf
    → overwrite 0 bytes buf ≡ bytes ++ drop (length bytes) buf
unfolding overwrite
overwrite_from_start [] buf h = refl
overwrite_from_start (b ∷ bytes) [] h = absurd (omega arith)
overwrite_from_start (b ∷ bytes) (x ∷ buf) h =
    overwrite-cons 0 1 bytes b buf refl
    ∙ ap (λ (l : List ℕ). b ∷ l) (overwrite_from_start bytes buf (omega arith))

read_loop_lem :
    (n i : ℕ) (p : Pipe) (buf : List ℕ)
    → length p.buffer ≡ pipe_buf_size
    → p.read_pos < pipe_buf_size
    → i + n ≤ length buf
    → read_loop n i p buf
      ≡ done (
        overwrite i (window n p.read_pos p.buffer) buf,
        record p { read_pos = (p.read_pos + n) % pipe_buf_size },
      )
unfolding read_loop overwrite window
read_loop_lem zero i p buf s r h =
    let e : (p.read_pos + 0) % pipe_buf_size ≡ p.read_pos = omega arith in rw e
read_loop_lem (suc n) i p buf s r h =
    let e : (next p.read_pos + n) % pipe_buf_size ≡ (p.read_pos + suc n) % pipe_buf_size =
      omega arith in
    let byte : ℕ = get_or p.buffer p.read_pos 0 in
    rw
      (
        index_in_range p.buffer p.read_pos 0 (omega arith),
        store_in_range buf i byte (omega arith),
        ← e,
      )
      (read_loop_lem n (i + 1) (record p { read_pos = next p.read_pos }) (set buf i byte) s
        (omega arith) (omega (arith, length-set buf i byte)))

-- The pipe after `n` bytes were taken out.
abbrev after_read : Pipe → ℕ → Pipe
after_read p n = record p { read_pos = (p.read_pos + n) % pipe_buf_size; count = p.count - n }

read_run :
    (p : Pipe) (buf : List ℕ) (n : ℕ)
    → IsValid p
    → n ≡ min (length buf) p.count
    → read p buf ≡ done (n, take n (contents p) ++ drop n buf, after_read p n)
unfolding read contents
read_run p buf n v e = rw (
  ← e,
  read_loop_lem n 0 p buf v.sized v.reads_inside (omega arith),
  sub_checked_lem p.count n (omega arith),
  take-window n p.count p.read_pos p.buffer (omega arith),
  overwrite_from_start (window n p.read_pos p.buffer) buf
      (omega (arith, length-window n p.read_pos p.buffer)),
  length-window n p.read_pos p.buffer,
)

contents-after_read :
    (p : Pipe) (n : ℕ) → IsValid p → n ≤ p.count → contents (after_read p n) ≡ drop n (contents p)
unfolding contents
contents-after_read p n v h =
    sym
      (drop-window n p.count (p.count - n) p.read_pos _ p.buffer v.reads_inside (omega arith) refl)

after_read-IsValid : (p : Pipe) (n : ℕ) → IsValid p → n ≤ p.count → IsValid (after_read p n)
after_read-IsValid p n v h = omega (arith, v.sized, v.reads_inside, v.fits, v.ahead)

-- A `read` of a valid pipe does not panic. It fills the front of the caller's slice with the
-- oldest bytes, as many as the slice takes and the pipe has, leaves the rest of the slice alone,
-- and drops just these bytes from the pipe, which stays valid, its two ends as they were.
pub read_lem :
    (p : Pipe) (buf : List ℕ)
    → IsValid p
    → (p' : Pipe) × (read p buf
        ≡ done (
          min (length buf) (length (contents p)),
          take (length buf) (contents p) ++ drop (length (contents p)) buf,
          p',
        ))
      × IsValid p'
      × (contents p' ≡ drop (length buf) (contents p))
      × (p'.read_open ≡ p.read_open)
      × (p'.write_open ≡ p.write_open)
read_lem p buf v =
    let n : ℕ = min (length buf) p.count in
    let c : length (contents p) ≡ p.count = length-contents p in
    (
      after_read p n,
      rw
          (
            ← take-min (length buf) n (contents p) (omega arith),
            c,
            ← drop-min p.count n buf (omega arith),
          )
          (read_run p buf n v refl),
      after_read-IsValid p n v (omega arith),
      contents-after_read p n v (omega arith) ∙ drop-min (length buf) n (contents p) (omega arith),
      refl,
      refl,
    )
