-- ===== src/Pipe/Writing.antt =====
-- `Pipe::write` against the bytes that the pipe holds.
use rustos.Prelude.{
  ℕ, zero, suc, ◌+◌, ◌-◌, ◌%◌, ◌≤◌, ◌<◌, ◌≡◌, refl, ap, ◌∙◌, min, List, [], ◌∷◌, ◌++◌, arith,
  length, get_or, set, take, drop, done, index_in_range, store_in_range, sub_checked_lem,
  length-set, length-take, get_or-set_self, take-drop, take-min,
}
use mathlib.Core.List.{append-nil, append_assoc}
use rustos.Pipe.{Pipe, pipe_buf_size, IsValid, write_loop, write}
use rustos.Pipe.Window.{length-contents, next, window, contents, window-set, window-last}

-- `bytes` stored round the ring from position `w` on.
fill : ℕ → List ℕ → List ℕ → List ℕ
fill w [] buf = buf
fill w (b ∷ bytes) buf = fill (next w) bytes (set buf w b)

length-fill : (w : ℕ) (bytes buf : List ℕ) → length (fill w bytes buf) ≡ length buf
unfolding fill
length-fill w [] buf = refl
length-fill w (b ∷ bytes) buf = length-fill (next w) bytes (set buf w b) ∙ length-set buf w b

-- One more byte behind the window.
window-push :
    (c r w b : ℕ) (buf : List ℕ)
    → length buf ≡ pipe_buf_size
    → r < pipe_buf_size
    → c < pipe_buf_size
    → w ≡ (r + c) % pipe_buf_size
    → window (suc c) r (set buf w b) ≡ window c r buf ++ b ∷ []
window-push c r w b buf s rb cb we = rw (
  window-last c r w (set buf w b) rb we,
  window-set c r w b buf c (omega arith) cb rb we,
  get_or-set_self buf w b 0 (omega arith),
)

-- What was stored follows what the window showed before.
window-fill :
    (bytes : List ℕ) (c r w m : ℕ) (buf : List ℕ)
    → length buf ≡ pipe_buf_size
    → r < pipe_buf_size
    → w ≡ (r + c) % pipe_buf_size
    → m ≡ c + length bytes
    → m ≤ pipe_buf_size
    → window m r (fill w bytes buf) ≡ window c r buf ++ bytes
unfolding fill
window-fill [] c r w m buf s rb we e mb = let e' : m ≡ c = omega arith in rw (e', append-nil)
window-fill (b ∷ bytes) c r w m buf s rb we e mb =
    window-fill bytes (suc c) r (next w) m (set buf w b) (omega (arith, length-set buf w b)) rb
      (omega arith) (omega arith) mb
    ∙ rw (window-push c r w b buf s rb (omega arith) we, append_assoc)

write_loop_lem :
    (n i : ℕ) (p : Pipe) (bytes : List ℕ)
    → length p.buffer ≡ pipe_buf_size
    → p.write_pos < pipe_buf_size
    → i + n ≤ length bytes
    → write_loop n i p bytes
      ≡ done (record p {
        buffer = fill p.write_pos (take n (drop i bytes)) p.buffer;
        write_pos = (p.write_pos + n) % pipe_buf_size;
      })
unfolding write_loop fill
write_loop_lem zero i p bytes s w h =
    let e : (p.write_pos + 0) % pipe_buf_size ≡ p.write_pos = omega arith in rw e
write_loop_lem (suc n) i p bytes s w h =
    let e : (next p.write_pos + n) % pipe_buf_size ≡ (p.write_pos + suc n) % pipe_buf_size =
      omega arith in
    let byte : ℕ = get_or bytes i 0 in
    rw
      (
        index_in_range bytes i 0 (omega arith),
        store_in_range p.buffer p.write_pos byte (omega arith),
        ← e,
        take-drop n i (i + 1) bytes 0 (omega arith) (omega arith),
      )
      (write_loop_lem n (i + 1)
        (record p { buffer = set p.buffer p.write_pos byte; write_pos = next p.write_pos }) bytes
        (omega (arith, length-set p.buffer p.write_pos byte)) (omega arith) (omega arith))

-- The pipe after the first `n` of `bytes` were put in.
abbrev after_write : Pipe → List ℕ → ℕ → Pipe
after_write p bytes n = record p {
  buffer = fill p.write_pos (take n bytes) p.buffer;
  write_pos = (p.write_pos + n) % pipe_buf_size;
  count = p.count + n;
}

write_run :
    (p : Pipe) (bytes : List ℕ) (n : ℕ)
    → IsValid p
    → n ≡ min (length bytes) (pipe_buf_size - p.count)
    → write p bytes ≡ done (n, after_write p bytes n)
unfolding write
write_run p bytes n v e = rw (
  sub_checked_lem pipe_buf_size p.count v.fits,
  ← e,
  write_loop_lem n 0 p bytes v.sized (omega (arith, v.ahead)) (omega arith),
)

contents-after_write :
    (p : Pipe) (bytes : List ℕ) (n : ℕ)
    → IsValid p
    → n ≡ min (length bytes) (pipe_buf_size - p.count)
    → contents (after_write p bytes n) ≡ contents p ++ take n bytes
unfolding contents
contents-after_write p bytes n v e =
    window-fill (take n bytes) p.count p.read_pos p.write_pos (p.count + n) p.buffer v.sized
      v.reads_inside v.ahead (omega (arith, length-take n bytes)) (omega (arith, v.fits))

after_write-IsValid :
    (p : Pipe) (bytes : List ℕ) (n : ℕ)
    → IsValid p
    → n ≡ min (length bytes) (pipe_buf_size - p.count)
    → IsValid (after_write p bytes n)
after_write-IsValid p bytes n v e = omega (
  arith,
  v.sized,
  v.reads_inside,
  v.fits,
  v.ahead,
  length-fill p.write_pos (take n bytes) p.buffer,
)

-- A `write` to a valid pipe does not panic. It appends as many of the bytes as there is room for,
-- from the first one on, and reports their number; the pipe stays valid, its two ends as they were.
pub write_lem :
    (p : Pipe) (bytes : List ℕ)
    → IsValid p
    → (p' : Pipe) × (write p bytes
        ≡ done (min (length bytes) (pipe_buf_size - length (contents p)), p'))
      × IsValid p'
      × (contents p' ≡ contents p ++ take (pipe_buf_size - length (contents p)) bytes)
      × (p'.read_open ≡ p.read_open)
      × (p'.write_open ≡ p.write_open)
write_lem p bytes v =
    let n : ℕ = min (length bytes) (pipe_buf_size - p.count) in
    rw (length-contents p) (
      after_write p bytes n,
      write_run p bytes n v refl,
      after_write-IsValid p bytes n v refl,
      contents-after_write p bytes n v refl
          ∙ ap (λ (l : List ℕ). contents p ++ l)
              (take-min (pipe_buf_size - p.count) n bytes (omega arith)),
      refl,
      refl,
    )
