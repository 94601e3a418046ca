-- ===== src/Tcp/Input/Exchange.antt =====
-- Data and its acknowledgement at the two ends of an established connection.
use rustos.Prelude.{
  ℕ, ◌+◌, ◌%◌, ◌^◌, ◌≡◌, ap, ◌∙◌, List, [], ◌∷◌, ◌++◌, none, some, length, ==_iff, if◌then◌else◌,
  Run, done, ◌>>=◌,
}
use rustos.Tcp.Segment.{Segment, SocketAddrV4, ack_psh, ack_flag, syn_ack}
use rustos.Tcp.Endpoint.{TcpEndpoint, syn_sent, syn_rcvd, established, process_ack}
use rustos.Tcp.Endpoint.Acks.{Idle, process_ack-idle}
use rustos.Tcp.Input.{
  Processed, process_segment, by_state, data_transfer, take_fin, acknowledge, silent,
}

-- The endpoint after a segment of data.
abbrev pub grown : TcpEndpoint → List ℕ → TcpEndpoint
grown ep bytes = record ep {
  rcv_buf = ep.rcv_buf ++ bytes;
  rcv_nxt = (ep.rcv_nxt + length bytes) % 2 ^ 32;
}

module _ (now : ℕ) (src dst : SocketAddrV4) (seq ack : ℕ) (ep : TcpEndpoint) where
  pub process_segment-data :
      (b : ℕ) (bytes : List ℕ)
      → Idle ep
      → seq ≡ ep.rcv_nxt
      → process_segment now
          (record {
            src = src;
            dst = dst;
            seq = seq;
            ack = ack;
            flags = ack_psh;
            payload = b ∷ bytes;
          })
          ep
        ≡ done (
          grown ep (b ∷ bytes),
          some (ep.snd_nxt, (ep.rcv_nxt + length (b ∷ bytes)) % 2 ^ 32, ack_flag),
        )
  unfolding process_segment
  process_segment-data b bytes idle in_order =
      let s : Segment = record {
        src = src;
        dst = dst;
        seq = seq;
        ack = ack;
        flags = ack_psh;
        payload = b ∷ bytes;
      } in
      let taken : Processed = acknowledge (grown ep (b ∷ bytes)) in
      ap (by_state now s ep) idle.0
      ∙ ap (λ c. data_transfer now s (if c then taken else silent ep)) ((==_iff _ _).1 in_order)
      ∙ ap (λ (r : Run TcpEndpoint). r >>= λ ep'. done (take_fin s (ep', taken.1)))
          (process_ack-idle now ack (grown ep (b ∷ bytes)) idle.1)

  pub process_segment-ack :
      (ep' : TcpEndpoint)
      → ep.state ≡ established
      → process_ack now ack ep ≡ done ep'
      → process_segment now
          (record { src = src; dst = dst; seq = seq; ack = ack; flags = ack_flag; payload = [] })
          ep
        ≡ done (ep', none)
  unfolding process_segment
  process_segment-ack ep' st e =
      let s : Segment = record {
        src = src;
        dst = dst;
        seq = seq;
        ack = ack;
        flags = ack_flag;
        payload = [];
      } in
      ap (by_state now s ep) st
      ∙ ap (λ (r : Run TcpEndpoint). r >>= λ ep'. done (take_fin s (ep', none))) e

-- The two ends of a handshake.
module _ (now : ℕ) (src dst : SocketAddrV4) (seq ack : ℕ) (ep : TcpEndpoint) where
  pub process_segment-syn_ack :
      ep.state ≡ syn_sent
      → process_segment now
          (record { src = src; dst = dst; seq = seq; ack = ack; flags = syn_ack; payload = [] })
          ep
        ≡ done (
            acknowledge
              (record ep { snd_una = ack; rcv_nxt = (seq + 1) % 2 ^ 32; state = established }))
  unfolding process_segment
  process_segment-syn_ack st =
      let s : Segment = record {
        src = src;
        dst = dst;
        seq = seq;
        ack = ack;
        flags = syn_ack;
        payload = [];
      } in
      ap (by_state now s ep) st

  pub process_segment-last_ack :
      ep.state ≡ syn_rcvd
      → ack ≡ (ep.snd_nxt + 1) % 2 ^ 32
      → process_segment now
          (record { src = src; dst = dst; seq = seq; ack = ack; flags = ack_flag; payload = [] })
          ep
        ≡ done (record ep { snd_una = ack; snd_nxt = ack; state = established }, none)
  unfolding process_segment
  process_segment-last_ack st e =
      let s : Segment = record {
        src = src;
        dst = dst;
        seq = seq;
        ack = ack;
        flags = ack_flag;
        payload = [];
      } in
      ap (by_state now s ep) st
      ∙ ap
          (λ c. done (
            if c
            then silent (record ep { snd_una = ack; snd_nxt = ack; state = established })
            else silent ep))
          ((==_iff ack ((ep.snd_nxt + 1) % 2 ^ 32)).1 e)
