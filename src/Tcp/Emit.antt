-- ===== src/Tcp/Emit.antt =====
-- Sending a segment over the loopback interface and all that follows from it: `emit` of
-- src/net/tcp.rs with `drain_pending`, and `tcp_input`. `emit` returns after the packet has been
-- received and answered, so an answer is a nested `emit`.
pub mod Steps
pub mod Resets
use mathlib.Core.Option
use rustos.Prelude.{
  ℕ, zero, suc, ◌+◌, ◌%◌, ◌^◌, List, [], ◌∷◌, ◌++◌, Option, none, some, Bool, true, false, not,
  ◌&&◌, length, ◌==◌, if◌then◌else◌, Run, done, panic, ◌>>=◌,
}
use rustos.Tcp.Segment.{
  SocketAddrV4, Segment, is_loopback, syn_flag, rst_flag, ack_flag, syn_ack, rst_ack, has_flag,
}
use rustos.Tcp.Endpoint.{TcpEndpoint, new_child_for_syn}
use rustos.Tcp.Input.{Processed, process_segment}
use rustos.Tcp.Table.{TcpTable, at, put, first_free, allocate, find_endpoint, find_listener}
use rustos.Tcp.Wire.{packet, read_packet}

-- A table, and the segment that is emitted once its lock is dropped.
abbrev Received : Type 0
Received = TcpTable × Option Segment

abbrev pub put_at : TcpTable → ℕ → TcpEndpoint → TcpTable
put_at t h ep = record t { endpoints = put t.endpoints h ep }

abbrev pub answer : SocketAddrV4 → SocketAddrV4 → ℕ × ℕ × ℕ → Segment
answer local remote (seq, ack, flags) = record {
  src = local;
  dst = remote;
  seq = seq;
  ack = ack;
  flags = flags;
  payload = [];
}

abbrev processed : TcpTable → ℕ → Segment → Processed → Received
processed t h s (ep, reply) = (put_at t h ep, Option.map (λ r. answer s.dst s.src r) reply)

abbrev input_at : ℕ → TcpTable → ℕ → Segment → Option TcpEndpoint → Run Received
input_at now t h s none = done (t, none)
input_at now t h s (some ep) = process_segment now s ep >>= λ p. done (processed t h s p)

-- `listener.accept_queue.push_back(child_idx)`
abbrev pub queue_child : ℕ → TcpTable → ℕ → Option TcpEndpoint → TcpTable
queue_child child t h none = t
queue_child child t h (some ep) =
    put_at t h (record ep { accept_queue = ep.accept_queue ++ child ∷ [] })

abbrev pub requeue : ℕ → TcpTable → Option ℕ → TcpTable
requeue child t none = t
requeue child t (some h) = queue_child child t h (at t.endpoints h)

-- A SYN without an endpoint of its own, by the listener for it.
abbrev input_syn : ℕ → TcpTable → Segment → Option ℕ → Received
input_syn now t s none = (t, some (answer s.dst s.src (0, (s.seq + 1) % 2 ^ 32, rst_ack)))
input_syn now t s (some listener) =
    let child = new_child_for_syn now s.dst s.src s.seq in
    let h = first_free t.endpoints in
    let t' = allocate t child in
    (
      requeue h t' (find_listener t' s.dst),
      some (answer s.dst s.src (child.snd_una, child.rcv_nxt, syn_ack)),
    )

abbrev input_by : ℕ → TcpTable → Segment → Option ℕ → Run Received
input_by now t s (some h) = input_at now t h s (at t.endpoints h)
input_by now t s none =
    if has_flag s.flags syn_flag && not (has_flag s.flags ack_flag)
    then done (input_syn now t s (find_listener t s.dst))
    else done (
      t,
      some (answer s.dst s.src (s.ack, (s.seq + length s.payload % 2 ^ 32) % 2 ^ 32, rst_flag)),
    )

-- `tcp_input`, on the segment that was read from the packet.
pub tcp_input : ℕ → TcpTable → Segment → Run Received
unfolding process_segment find_listener find_endpoint allocate at put new_child_for_syn
tcp_input now t s = input_by now t s (find_endpoint t s.dst s.src)

-- What a call does: it returns, it panics, or the rounds given to it are used up.
pub data Outcome (A : Type 0) : Type 0 where
  completed : A → TcpTable → Outcome A
  panicked : Outcome A
  unfinished : Outcome A

-- `let _ = emit(...)`
abbrev pub ignore : Outcome Bool → Outcome Bool
ignore (completed _ t) = completed true t
ignore panicked = panicked
ignore unfinished = unfinished

abbrev replied : (TcpTable → Segment → Outcome Bool) → Run Received → Outcome Bool
replied again panic = panicked
replied again (done (t, none)) = completed true t
replied again (done (t, some s)) = ignore (again t s)

abbrev received :
    (TcpTable → Segment → Outcome Bool) → ℕ → TcpTable → Run (Option Segment) → Outcome Bool
received again now t panic = panicked
received again now t (done none) = completed true t
received again now t (done (some s)) = replied again (tcp_input now t s)

abbrev transmitted :
    (TcpTable → Segment → Outcome Bool) → ℕ → Bool → TcpTable → Run (List ℕ) → Outcome Bool
transmitted again now lo t panic = panicked
transmitted again now false t (done bytes) = completed false t
transmitted again now true t (done bytes) = received again now t (read_packet bytes)

-- `lo` says whether the loopback interface is up. An address outside 127.0.0.0/8 has no route.
unfoldable pub emit : ℕ → ℕ → Bool → TcpTable → Segment → Outcome Bool
unfolding tcp_input packet read_packet
emit zero now lo t s = unfinished
emit (suc rounds) now lo t s =
    transmitted (λ t' s'. emit rounds now lo t' s') now (lo && is_loopback s.dst.ip) t (packet s)
