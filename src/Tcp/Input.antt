-- ===== src/Tcp/Input.antt =====
-- An arriving segment at its endpoint: `process_segment_for` of src/net/tcp.rs.
pub mod Exchange
use Prim.Native.Nat.{bit_and}
use rustos.Prelude.{
  ℕ, ◌+◌, ◌%◌, ◌^◌, List, [], ◌∷◌, ◌++◌, Option, none, some, Bool, true, false, not, ◌&&◌, length,
  ◌==◌, if◌then◌else◌, Run, done, ◌>>=◌,
}
use rustos.Tcp.Segment.{Segment, fin_flag, syn_flag, rst_flag, ack_flag, syn_ack, has_flag}
use rustos.Tcp.Endpoint.{
  TcpEndpoint, process_ack, TcpState, closed, listen, syn_sent, syn_rcvd, established, fin_wait1,
  fin_wait2, close_wait, last_ack, closing, time_wait,
}

-- The endpoint afterwards, and the sequence number, acknowledgement and flags to send.
abbrev pub Processed : Type 0
Processed = TcpEndpoint × Option (ℕ × ℕ × ℕ)

abbrev is_empty : List ℕ → Bool
is_empty [] = true
is_empty (b ∷ bs) = false

-- `Some((ep.snd_nxt, ep.rcv_nxt, flags::ACK))`
abbrev acknowledge : TcpEndpoint → Processed
acknowledge ep = (ep, some (ep.snd_nxt, ep.rcv_nxt, ack_flag))

abbrev silent : TcpEndpoint → Processed
silent ep = (ep, none)

abbrev handshake : Segment → TcpEndpoint → Processed
handshake th ep =
    if bit_and th.flags syn_ack == syn_ack
    then acknowledge
        (record ep { snd_una = th.ack; rcv_nxt = (th.seq + 1) % 2 ^ 32; state = established })
    else if has_flag th.flags rst_flag
    then silent (record ep { state = closed })
    else silent ep

abbrev handshake_end : Segment → TcpEndpoint → Processed
handshake_end th ep =
    if has_flag th.flags ack_flag && (th.ack == (ep.snd_nxt + 1) % 2 ^ 32)
    then silent (record ep { snd_una = th.ack; snd_nxt = th.ack; state = established })
    else silent ep

-- In-order payload is buffered and acknowledged; other payload is not looked at.
abbrev take_payload : Segment → TcpEndpoint → Processed
take_payload th ep =
    if not (is_empty th.payload) && (th.seq == ep.rcv_nxt)
    then acknowledge (record ep {
      rcv_buf = ep.rcv_buf ++ th.payload;
      rcv_nxt = (ep.rcv_nxt + length th.payload) % 2 ^ 32;
    })
    else silent ep

abbrev take_ack : ℕ → Segment → TcpEndpoint → Run TcpEndpoint
take_ack now th ep = if has_flag th.flags ack_flag then process_ack now th.ack ep else done ep

abbrev take_fin : Segment → Processed → Processed
take_fin th (ep, reply) =
    if has_flag th.flags fin_flag
    then acknowledge (record ep { rcv_nxt = (ep.rcv_nxt + 1) % 2 ^ 32; state = close_wait })
    else (ep, reply)

abbrev data_transfer : ℕ → Segment → Processed → Run Processed
data_transfer now th (ep, reply) = take_ack now th ep >>= λ ep'. done (take_fin th (ep', reply))

abbrev end_with : TcpState → Segment → TcpEndpoint → Processed
end_with st th ep =
    let ep' = record ep { rcv_nxt = (th.seq + 1) % 2 ^ 32 } in
    (record ep' { state = st }, some (ep'.snd_nxt, ep'.rcv_nxt, ack_flag))

abbrev first_wait : Segment → TcpEndpoint → Processed
first_wait th ep =
    if has_flag th.flags fin_flag && has_flag th.flags ack_flag
    then end_with closed th ep
    else if has_flag th.flags ack_flag
    then silent (record ep { state = fin_wait2 })
    else if has_flag th.flags fin_flag
    then end_with closing th ep
    else silent ep

-- The match on the state.
abbrev by_state : ℕ → Segment → TcpEndpoint → TcpState → Run Processed
by_state now th ep syn_sent = done (handshake th ep)
by_state now th ep syn_rcvd = done (handshake_end th ep)
by_state now th ep established = data_transfer now th (take_payload th ep)
by_state now th ep fin_wait1 = done (first_wait th ep)
by_state now th ep fin_wait2 =
    done (if has_flag th.flags fin_flag then end_with closed th ep else silent ep)
by_state now th ep close_wait = done (take_payload th ep)
by_state now th ep last_ack =
    done (if has_flag th.flags ack_flag then silent (record ep { state = closed }) else silent ep)
by_state now th ep _ = done (silent ep)

unfoldable pub process_segment : ℕ → Segment → TcpEndpoint → Run Processed
unfolding process_ack
process_segment now th ep = by_state now th ep ep.state
