-- ===== src/Pipe/Fifo.antt =====
-- A pipe refines a queue of at most `pipe_buf_size` bytes: a client that only reads and writes
-- cannot tell the ring of src/syscall/pipe.rs from the queue.
use rustos.Prelude.{
  ℕ, ◌-◌, ◌≡◌, refl, ap, ◌∙◌, min, List, [], ◌∷◌, ◌++◌, arith, length, take, drop, Run, done, ◌>>=◌,
  take-append, take-append-drop, length-take, take-min,
}
use mathlib.Core.List.{append-nil, append_assoc}
use rustos.Pipe.{Pipe, pipe_buf_size, IsValid, read, write}
use rustos.Pipe.Window.{contents}
use rustos.Pipe.Reading.{read_lem}
use rustos.Pipe.Writing.{write_lem}

-- A call: a read into a slice, or a write of some bytes.
pub data Op : Type 0 where
  reads : List ℕ → Op
  writes : List ℕ → Op

-- What the caller sees: the count and the slice, or the count.
pub data Reply : Type 0 where
  got : ℕ → List ℕ → Reply
  put : ℕ → Reply

step : Pipe → Op → Run (Reply × Pipe)
step p (reads buf) = do (n, buf', p') ← read p buf; done (got n buf', p')
step p (writes bytes) = do (n, p') ← write p bytes; done (put n, p')

pub run : Pipe → List Op → Run (List Reply × Pipe)
run p [] = done ([], p)
run p (op ∷ ops) = do
  (reply, p') ← step p op
  (replies, p'') ← run p' ops
  done (reply ∷ replies, p'')

-- The queue, oldest byte first.
fifo_step : List ℕ → Op → Reply × List ℕ
fifo_step q (reads buf) = (
  got (min (length buf) (length q)) (take (length buf) q ++ drop (length q) buf),
  drop (length buf) q,
)
fifo_step q (writes bytes) = (
  put (min (length bytes) (pipe_buf_size - length q)),
  q ++ take (pipe_buf_size - length q) bytes,
)

pub fifo_run : List ℕ → List Op → List Reply × List ℕ
fifo_run q [] = ([], q)
fifo_run q (op ∷ ops) =
    let (reply, q') = fifo_step q op in
    let (replies, q'') = fifo_run q' ops in (reply ∷ replies, q'')

step-fifo_step :
    (p : Pipe) (op : Op)
    → IsValid p
    → (p' : Pipe) × (step p op ≡ done ((fifo_step (contents p) op).0, p'))
      × IsValid p'
      × (contents p' ≡ (fifo_step (contents p) op).1)
unfolding step fifo_step
step-fifo_step p (reads buf) v = let (p', e, v', c, _, _) = read_lem p buf v in (p', rw e, v', c)
step-fifo_step p (writes bytes) v =
    let (p', e, v', c, _, _) = write_lem p bytes v in (p', rw e, v', c)

-- From a valid pipe every sequence of reads and writes runs without a panic, gives the replies
-- that a queue with the pipe's contents gives, and leaves a valid pipe with the queue's contents.
pub run-fifo_run :
    (p : Pipe) (ops : List Op)
    → IsValid p
    → (p' : Pipe) × (run p ops ≡ done ((fifo_run (contents p) ops).0, p'))
      × IsValid p'
      × (contents p' ≡ (fifo_run (contents p) ops).1)
unfolding run fifo_run
run-fifo_run p [] v = (p, refl, v, refl)
run-fifo_run p (op ∷ ops) v =
    let (p', e, v', c) = step-fifo_step p op v in
    let (p'', e', v'', c') = run-fifo_run p' ops v' in
    (p'', rw (e, e', c), v'', c' ∙ ap (λ q. (fifo_run q ops).1) c)

-- The bytes that the reads of a run handed out, in order.
abbrev pub delivered : List Reply → List ℕ
delivered [] = []
delivered (got n buf ∷ replies) = take n buf ++ delivered replies
delivered (put n ∷ replies) = delivered replies

-- The bytes that the writes of a run took, in order.
abbrev accepted : List Op → List Reply → List ℕ
accepted [] replies = []
accepted (op ∷ ops) [] = []
accepted (reads buf ∷ ops) (reply ∷ replies) = accepted ops replies
accepted (writes bytes ∷ ops) (put n ∷ replies) = take n bytes ++ accepted ops replies
accepted (writes bytes ∷ ops) (got n buf ∷ replies) = accepted ops replies

fifo_stream :
    (q : List ℕ) (ops : List Op)
    → delivered (fifo_run q ops).0 ++ (fifo_run q ops).1 ≡ q ++ accepted ops (fifo_run q ops).0
unfolding fifo_run fifo_step
fifo_stream q [] = rw append-nil
fifo_stream q (reads buf ∷ ops) =
    let rest : List ℕ = drop (length buf) q in
    let front : take (min (length buf) (length q)) (take (length buf) q ++ drop (length q) buf)
        ≡ take (length buf) q =
      take-append _ (take (length buf) q) (drop (length q) buf)
        (omega (arith, length-take (length buf) q)) in
    rw (front, append_assoc, fifo_stream rest ops, ← append_assoc, take-append-drop (length buf) q)
fifo_stream q (writes bytes ∷ ops) =
    let room : ℕ = pipe_buf_size - length q in
    let q' : List ℕ = q ++ take room bytes in
    rw (
      fifo_stream q' ops,
      append_assoc,
      take-min room (min (length bytes) room) bytes (omega arith),
    )

-- Nothing is lost, invented or reordered: what the reads delivered, followed by what is left in
-- the pipe, is what the pipe held at first, followed by what the writes took.
run_stream :
    (p : Pipe) (ops : List Op)
    → IsValid p
    → (replies : List Reply) × (p' : Pipe) × (run p ops ≡ done (replies, p'))
      × (delivered replies ++ contents p' ≡ contents p ++ accepted ops replies)
run_stream p ops v =
    let (p', e, _, c) = run-fifo_run p ops v in
    ((fifo_run (contents p) ops).0, p', e, rw c (fifo_stream (contents p) ops))
