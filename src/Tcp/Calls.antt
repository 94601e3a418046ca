-- ===== src/Tcp/Calls.antt =====
-- The calls of src/net/tcp.rs. Each is given the rounds for `emit`, the time in ticks, and whether
-- the loopback interface is up.
pub mod Sending
pub mod Delivery
pub mod Connecting
pub mod Handshake
pub mod Receiving
use mathlib.Core.Option
use rustos.Prelude.{
  ℕ, zero, suc, ◌+◌, ◌-◌, ◌%◌, ◌^◌, min, List, [], ◌∷◌, ◌++◌, Option, none, some, Bool, true, false,
  not, ◌&&◌, ◌||◌, length, take, drop, ltb, leb, ◌==◌, if◌then◌else◌, Run, done, panic, Result, ok,
  err,
}
use rustos.Tcp.Segment.{
  SocketAddrV4, Segment, localhost, addr_eq, syn_flag, ack_flag, ack_psh, fin_ack,
}
use rustos.Tcp.Endpoint.{
  TcpEndpoint, RetxSegment, new_listener, new_active, on_rto, TcpState, closed, listen, syn_sent,
  established, fin_wait1, close_wait, last_ack,
}
use rustos.Tcp.Table.{TcpTable, at, put, first_free, allocate, pick_ephemeral_port, is_listen}
use rustos.Tcp.Emit.{Outcome, completed, panicked, unfinished, emit, put_at}

pub data TcpError : Type 0 where
  invalid_handle not_listening address_in_use no_route refused already_connected not_connected
        connection_closed :
      TcpError

-- Address-in-use check.
listening : SocketAddrV4 → List (Option TcpEndpoint) → Bool
listening addr [] = false
listening addr (none ∷ slots) = listening addr slots
listening addr (some ep ∷ slots) =
    (is_listen ep.state && addr_eq ep.local addr) || listening addr slots

unfoldable pub listen_on : TcpTable → SocketAddrV4 → ℕ → Result ℕ TcpError × TcpTable
unfolding listening new_listener allocate
listen_on t addr backlog =
    if listening addr t.endpoints
    then (err address_in_use, t)
    else (ok (first_free t.endpoints), allocate t (new_listener addr backlog))

abbrev pop_child : TcpTable → ℕ → TcpEndpoint → List ℕ → Result ℕ TcpError × TcpTable
pop_child t h ep [] = (err not_listening, t)
pop_child t h ep (child ∷ queue) = (ok child, put_at t h (record ep { accept_queue = queue }))

abbrev accept_at : TcpTable → ℕ → Option TcpEndpoint → Result ℕ TcpError × TcpTable
accept_at t h none = (err invalid_handle, t)
accept_at t h (some ep) =
    if is_listen ep.state then pop_child t h ep ep.accept_queue else (err not_listening, t)

unfoldable pub accept : TcpTable → ℕ → Result ℕ TcpError × TcpTable
accept t h = accept_at t h (at t.endpoints h)

-- The endpoint with the segment on its retransmit queue.
abbrev pub recorded : ℕ → TcpEndpoint → List ℕ → TcpEndpoint
recorded now ep bytes = record ep {
  snd_nxt = (ep.snd_nxt + length bytes % 2 ^ 32) % 2 ^ 32;
  retx =
      ep.retx
      ++ record { seq = ep.snd_nxt; flags = ack_psh; payload = bytes; send_tick = now; retries = 0 }
        ∷ [];
}

abbrev pub data_segment : TcpEndpoint → List ℕ → Segment
data_segment ep bytes = record {
  src = ep.local;
  dst = ep.remote;
  seq = ep.snd_nxt;
  ack = ep.rcv_nxt;
  flags = ack_psh;
  payload = bytes;
}

abbrev sent : ℕ → Outcome Bool → Outcome (Result ℕ TcpError)
sent n (completed true t) = completed (ok n) t
sent n (completed false t) = completed (err connection_closed) t
sent n panicked = panicked
sent n unfinished = unfinished

abbrev can_send : TcpState → Bool
can_send established = true
can_send close_wait = true
can_send _ = false

abbrev connect_result : ℕ → Option TcpEndpoint → Result ℕ TcpError
connect_result h none = err invalid_handle
connect_result h (some ep) = elim ep.state [ closed ↦ err refused | _ ↦ ok h ]

abbrev connected : ℕ → Outcome Bool → Outcome (Result ℕ TcpError)
connected h (completed true t) = completed (connect_result h (at t.endpoints h)) t
connected h (completed false t) = completed (err no_route) t
connected h panicked = panicked
connected h unfinished = unfinished

abbrev fin_segment : TcpEndpoint → Segment
fin_segment ep = record {
  src = ep.local;
  dst = ep.remote;
  seq = ep.snd_nxt;
  ack = ep.rcv_nxt;
  flags = fin_ack;
  payload = [];
}

abbrev with_fin : TcpEndpoint → TcpState → TcpEndpoint
with_fin ep st = record ep { state = st; snd_nxt = (ep.snd_nxt + 1) % 2 ^ 32 }

abbrev closing_call : Outcome Bool → Outcome (Result Unit TcpError)
closing_call (completed _ t) = completed (ok tt) t
closing_call panicked = panicked
closing_call unfinished = unfinished

module _ (rounds now : ℕ) (lo : Bool) where
  abbrev connect_from : SocketAddrV4 → ℕ × TcpTable → Outcome (Result ℕ TcpError)
  connect_from remote (port, t) =
      let local : SocketAddrV4 = record { ip = localhost; port = port } in
      let ep = new_active now local remote in
      connected (first_free t.endpoints) (
        emit rounds now lo (allocate t ep) (record {
          src = local;
          dst = remote;
          seq = ep.snd_una;
          ack = 0;
          flags = syn_flag;
          payload = [];
        }))

  pub connect : TcpTable → SocketAddrV4 → Outcome (Result ℕ TcpError)
  unfolding pick_ephemeral_port new_active allocate emit
  connect t remote = connect_from remote (pick_ephemeral_port t)

  abbrev send_at : TcpTable → ℕ → List ℕ → Option TcpEndpoint → Outcome (Result ℕ TcpError)
  send_at t h bytes none = completed (err invalid_handle) t
  send_at t h bytes (some ep) =
      let call = emit rounds now lo (put_at t h (recorded now ep bytes)) (data_segment ep bytes) in
      if can_send ep.state then sent (length bytes) call else completed (err not_connected) t

  unfoldable pub send : TcpTable → ℕ → List ℕ → Outcome (Result ℕ TcpError)
  unfolding emit
  send t h bytes = send_at t h bytes (at t.endpoints h)

  abbrev close_by : TcpTable → ℕ → TcpEndpoint → TcpState → Outcome (Result Unit TcpError)
  close_by t h ep established =
      closing_call (emit rounds now lo (put_at t h (with_fin ep fin_wait1)) (fin_segment ep))
  close_by t h ep close_wait =
      closing_call (emit rounds now lo (put_at t h (with_fin ep last_ack)) (fin_segment ep))
  close_by t h ep listen = completed (ok tt) (put_at t h (record ep { state = closed }))
  close_by t h ep closed = completed (ok tt) (put_at t h (record ep { state = closed }))
  close_by t h ep _ = completed (ok tt) t

  abbrev close_at : TcpTable → ℕ → Option TcpEndpoint → Outcome (Result Unit TcpError)
  close_at t h none = completed (err invalid_handle) t
  close_at t h (some ep) = close_by t h ep ep.state

  unfoldable pub close : TcpTable → ℕ → Outcome (Result Unit TcpError)
  unfolding emit
  close t h = close_at t h (at t.endpoints h)

abbrev at_end : TcpState → Bool
at_end closed = true
at_end close_wait = true
at_end last_ack = true
at_end _ = false

-- The bytes read, as many as the buffer has room for.
abbrev recv_from : TcpTable → ℕ → ℕ → TcpEndpoint → List ℕ → Result (List ℕ) TcpError × TcpTable
recv_from t h room ep [] = (if at_end ep.state then ok [] else err not_connected, t)
recv_from t h room ep (b ∷ bytes) =
    (ok (take room (b ∷ bytes)), put_at t h (record ep { rcv_buf = drop room (b ∷ bytes) }))

abbrev recv_at : TcpTable → ℕ → ℕ → Option TcpEndpoint → Result (List ℕ) TcpError × TcpTable
recv_at t h room none = (err invalid_handle, t)
recv_at t h room (some ep) = recv_from t h room ep ep.rcv_buf

pub recv : TcpTable → ℕ → ℕ → Result (List ℕ) TcpError × TcpTable
recv t h room = recv_at t h room (at t.endpoints h)
