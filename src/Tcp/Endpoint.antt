-- ===== src/Tcp/Endpoint.antt =====
-- One endpoint of src/net/tcp.rs: acknowledgements, timeouts and arriving segments.
pub mod Acks
use Prim.Native.Nat.{bit_xor}
use rustos.Prelude.{
  ℕ, ◌+◌, ◌-◌, ◌*◌, ◌/◌, ◌%◌, ◌^◌, min, max, List, [], ◌∷◌, Option, none, some, Bool, length, ltb,
  ◌==◌, if◌then◌else◌, Run, done, panic, ◌>>=◌,
}
use rustos.Tcp.Segment.{SocketAddrV4, any}

pub data TcpState : Type 0 where
  closed listen syn_sent syn_rcvd established fin_wait1 fin_wait2 close_wait last_ack closing
        time_wait :
      TcpState

pub record RetxSegment : Type 0 where
  pub seq : ℕ
  pub flags : ℕ
  pub payload : List ℕ
  pub send_tick : ℕ
  pub retries : ℕ

abbrev mss : ℕ
mss = 1460

pub record TcpEndpoint : Type 0 where
  pub state : TcpState
  pub local : SocketAddrV4
  pub remote : SocketAddrV4
  pub snd_nxt : ℕ
  pub snd_una : ℕ
  pub rcv_nxt : ℕ
  pub rcv_buf : List ℕ
  pub cwnd : ℕ
  pub ssthresh : ℕ
  pub srtt : ℕ
  pub rttvar : ℕ
  pub rto : ℕ
  pub retx : List RetxSegment
  pub rto_backoff : ℕ
  pub accept_queue : List ℕ
  pub backlog : ℕ

unfoldable pub new_listener : SocketAddrV4 → ℕ → TcpEndpoint
new_listener local backlog = record {
  state = listen;
  local = local;
  remote = record { ip = any; port = 0 };
  snd_nxt = 0;
  snd_una = 0;
  rcv_nxt = 0;
  rcv_buf = [];
  cwnd = mss;
  ssthresh = 0xffff_ffff;
  srtt = 0;
  rttvar = 0;
  rto = 2;
  retx = [];
  rto_backoff = 0;
  accept_queue = [];
  backlog = backlog;
}

-- `now` is the value of `current_ticks()`.
unfoldable pub new_child_for_syn : ℕ → SocketAddrV4 → SocketAddrV4 → ℕ → TcpEndpoint
unfolding new_listener
new_child_for_syn now local remote peer_seq =
    let iss = bit_xor (now % 2 ^ 32) 0x1234_5678 in
    record (new_listener local 0) {
      state = syn_rcvd;
      remote = remote;
      snd_nxt = iss;
      snd_una = iss;
      rcv_nxt = (peer_seq + 1) % 2 ^ 32;
    }

unfoldable pub new_active : ℕ → SocketAddrV4 → SocketAddrV4 → TcpEndpoint
unfolding new_listener
new_active now local remote =
    let iss = bit_xor (now % 2 ^ 32) 0xcafe_babe in
    record (new_listener local 0) {
      state = syn_sent;
      remote = remote;
      snd_nxt = (iss + 1) % 2 ^ 32;
      snd_una = iss;
    }

-- `b.wrapping_sub(a) < 0x8000_0000`
pub seq_le : ℕ → ℕ → Bool
seq_le a b = ltb ((b + 2 ^ 32 - a) % 2 ^ 32) 0x8000_0000

-- `a.saturating_add(b)`
abbrev pub saturating_add : ℕ → ℕ → ℕ
saturating_add a b = min (a + b) 0xffff_ffff

-- What the loop of `process_ack` over the retransmit queue has found.
pub record Acked : Type 0 where
  pub rest : List RetxSegment
  pub bytes : ℕ
  pub tick : Option ℕ

pub drop_acked : ℕ → List RetxSegment → ℕ → Option ℕ → Acked
unfolding seq_le
drop_acked ack [] bytes tick = record { rest = []; bytes = bytes; tick = tick }
drop_acked ack (seg ∷ retx) bytes tick =
    let acked =
      drop_acked ack retx (saturating_add bytes (length seg.payload % 2 ^ 32))
        (if seg.retries == 0 then some seg.send_tick else tick) in
    if seq_le ((seg.seq + length seg.payload) % 2 ^ 32) ack
    then acked
    else record { rest = seg ∷ retx; bytes = bytes; tick = tick }

-- The estimate after a sample of `rtt` ticks.
abbrev pub sampled : ℕ → TcpEndpoint → TcpEndpoint
sampled rtt ep =
    if ep.srtt == 0
    then record ep { srtt = rtt; rttvar = rtt / 2 }
    else let abs_diff = if ltb rtt ep.srtt then ep.srtt - rtt else rtt - ep.srtt in
      record ep {
        rttvar = ep.rttvar - ep.rttvar / 4 + abs_diff / 4;
        srtt = ep.srtt - ep.srtt / 8 + rtt / 8;
      }

-- `(self.srtt + 4 * self.rttvar).max(2)`, in which an overflow traps.
abbrev pub with_rto : TcpEndpoint → Run TcpEndpoint
with_rto ep =
    if ltb (ep.srtt + 4 * ep.rttvar) (2 ^ 32)
    then done (record ep { rto = max (ep.srtt + 4 * ep.rttvar) 2 })
    else panic

pub update_rtt : ℕ → Option ℕ → TcpEndpoint → Run TcpEndpoint
update_rtt now none ep = done ep
update_rtt now (some tick) ep = with_rto (sampled ((now - tick) % 2 ^ 32) ep)

abbrev pub grow_cwnd : ℕ → TcpEndpoint → TcpEndpoint
grow_cwnd bytes ep =
    if ltb ep.cwnd ep.ssthresh
    then record ep { cwnd = saturating_add ep.cwnd (min bytes mss) }
    else record ep {
      cwnd = saturating_add ep.cwnd (max (min (mss * mss) 0xffff_ffff / max ep.cwnd 1) 1);
    }

-- The loop has taken the acknowledged segments off the queue; then the rest of the function.
abbrev pub account : ℕ → ℕ → Acked → TcpEndpoint → Run TcpEndpoint
account now ack acked ep =
    if ltb 0 acked.bytes
    then (update_rtt now acked.tick
          (record ep { retx = acked.rest; snd_una = ack; rto_backoff = 0 })
        >>= λ ep'. done (grow_cwnd acked.bytes ep'))
    else done (record ep { retx = acked.rest })

unfoldable pub process_ack : ℕ → ℕ → TcpEndpoint → Run TcpEndpoint
unfolding drop_acked update_rtt
process_ack now ack ep = account now ack (drop_acked ack ep.retx 0 none) ep

unfoldable pub on_rto : TcpEndpoint → TcpEndpoint
on_rto ep = record ep {
  ssthresh = max (ep.cwnd / 2) (2 * mss);
  cwnd = mss;
  rto = min (min (ep.rto * 2) 0xffff_ffff) 60;
  rto_backoff = min (ep.rto_backoff + 1) 255;
}
