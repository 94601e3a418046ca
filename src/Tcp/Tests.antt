-- ===== src/Tcp/Tests.antt =====
-- A connection at concrete inputs, and the theorems at such inputs.
use mathlib.Core.Option.{some-injective}
use rustos.Prelude.{
  ℕ, zero, suc, subst, ◌≡◌, refl, List, [], ◌∷◌, some, true, false, ok, err, done, arith,
}
use rustos.Tcp.Segment.{SocketAddrV4, Segment, localhost, ack_psh, rst_flag}
use rustos.Tcp.Endpoint.{TcpEndpoint, established, new_listener}
use rustos.Tcp.Table
use rustos.Tcp.Table.{TcpTable, at, find_endpoint, connects}
use rustos.Tcp.Table.Slots.{OnlyAt}
use rustos.Tcp.Wire.{packet, read_packet}
use rustos.Tcp.Wire.RoundTrip.{packet-read_packet}
use rustos.Tcp.Emit.{emit, answer, unfinished, completed}
use rustos.Tcp.Emit.Resets.{emit-reset}
use rustos.Tcp.Calls.{not_connected, listen_on}
use rustos.Tcp.Calls.Sending.{Linked}
use rustos.Tcp.Retransmit.{retransmit_slots, retransmit_tick}
use rustos.Tcp.Calls.{close, accept, not_listening}
use rustos.Tcp.Endpoint.{RetxSegment, on_rto, closed}
use rustos.Tcp.Table.{put}
use rustos.Tcp.Stream.{
  Call, send_call, recv_call, run, run-Ends, Ends, replies, finally, streams, taken, given,
}

abbrev server : SocketAddrV4
server = record { ip = localhost; port = 80 }

abbrev source : SocketAddrV4
source = record { ip = localhost; port = 49152 }

abbrev listening : TcpTable
listening = record { endpoints = some (new_listener server 5) ∷ []; next_ephemeral_port = 49152 }

listen_on-new : listen_on Table.new server 5 ≡ (ok 0, listening)
unfolding listen_on Table.new
listen_on-new = refl

abbrev hello : Segment
hello = record {
  src = record { ip = localhost; port = 49152 };
  dst = server;
  seq = 7;
  ack = 9;
  flags = ack_psh;
  payload = 104 ∷ 105 ∷ [];
}

packet-read_packet_example :
    (bytes : List ℕ) × (packet hello ≡ done bytes) × (read_packet bytes ≡ done (some hello))
packet-read_packet_example = packet-read_packet hello (omega arith)

emit-reset_example :
    emit 1000 0 true Table.new (answer server hello.src (0, 0, rst_flag)) ≡ unfinished
unfolding find_endpoint Table.new
emit-reset_example =
    emit-reset 1000 0 Table.new server hello.src 0 0 refl refl (ground arith) (omega arith)

-- The two ends of a connection, and a table of them.
abbrev near : TcpEndpoint
near = record (new_listener source 0) {
  state = established;
  remote = server;
  snd_nxt = 5;
  rcv_nxt = 9;
}

abbrev far : TcpEndpoint
far = record (new_listener server 0) {
  state = established;
  remote = source;
  snd_nxt = 9;
  rcv_nxt = 5;
}

abbrev pair : TcpTable
pair = record { endpoints = some near ∷ some far ∷ []; next_ephemeral_port = 49153 }

only_far : OnlyAt (connects server source) pair.endpoints 1
unfolding at new_listener
only_far zero ep ne e = subst (λ x. connects server source x ≡ false) (some-injective _ _ e) refl
only_far (suc zero) ep ne e = absurd (ne refl)
only_far (suc (suc h)) ep ne e = cc

only_near : OnlyAt (connects source server) pair.endpoints 0
unfolding at new_listener
only_near zero ep ne e = absurd (ne refl)
only_near (suc zero) ep ne e =
    subst (λ x. connects source server x ≡ false) (some-injective _ _ e) refl
only_near (suc (suc h)) ep ne e = cc

pair-Linked : Linked pair 0 near 1 far
unfolding at new_listener
pair-Linked = (
  λ e. absurd (omega arith),
  (refl, refl, refl, only_far, (refl, refl, omega arith, omega arith), ground arith),
  (refl, refl, refl, only_near, (refl, refl, omega arith, omega arith), ground arith),
)

abbrev calls : List Call
calls =
    send_call 10 true (1 ∷ 2 ∷ [])
    ∷ send_call 11 false (3 ∷ [])
    ∷ recv_call false 1
    ∷ recv_call false 5
    ∷ recv_call false 5
    ∷ []

calls-replies :
    replies (streams near far) calls
    ≡ taken (ok 2)
      ∷ taken (ok 1)
      ∷ given (ok (1 ∷ []))
      ∷ given (ok (2 ∷ []))
      ∷ given (err not_connected)
      ∷ []
unfolding new_listener
calls-replies = refl

run-Ends_example :
    Ends 0 1
      (replies (streams near far) calls, finally (streams near far) calls)
      (run pair 0 1 calls)
run-Ends_example = run-Ends pair 0 near 1 far calls pair-Linked (omega arith)

accept-listening : accept listening 0 ≡ (err not_listening, listening)
unfolding accept at new_listener
accept-listening = refl

close-listening :
    close 0 0 true listening 0
    ≡ completed (ok tt) (record listening {
      endpoints = some (record (new_listener server 5) { state = closed }) ∷ [];
    })
unfolding close at put new_listener
close-listening = refl

-- After a timeout the oldest segment stands behind the newer one.
abbrev queued : ℕ → RetxSegment
queued seq = record { seq = seq; flags = ack_psh; payload = 0 ∷ []; send_tick = 10; retries = 0 }

abbrev stalled : TcpTable
stalled = record pair { endpoints = some (record near { retx = queued 5 ∷ queued 6 ∷ [] }) ∷ [] }

abbrev rotated : TcpEndpoint
rotated = record (on_rto near) {
  retx = queued 6 ∷ record (queued 5) { send_tick = 100; retries = 1 } ∷ [];
}

retransmit_slots-stalled : (retransmit_slots 100 stalled.endpoints).0 ≡ some rotated ∷ []
unfolding retransmit_slots on_rto new_listener
retransmit_slots-stalled = refl

retransmit_tick-pair : retransmit_tick 2 5 true pair ≡ completed 0 pair
unfolding retransmit_tick new_listener
retransmit_tick-pair = refl
