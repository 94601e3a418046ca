-- ===== src/Tcp/Emit/Resets.antt =====
-- A reset for which neither side has an endpoint.
use rustos.Prelude.{ℕ, zero, suc, ◌+◌, ◌%◌, ◌^◌, ◌<◌, ◌≡◌, refl, ap, ◌∙◌, none, true, arith}
use rustos.Tcp.Segment.{SocketAddrV4, is_loopback, rst_flag}
use rustos.Tcp.Table.{TcpTable, find_endpoint}
use rustos.Tcp.Wire.RoundTrip.{IsIp}
use rustos.Tcp.Emit.{emit, answer, unfinished, ignore, replied, input_by, tcp_input}
use rustos.Tcp.Emit.Steps.{emit_lem}

abbrev IsAddress : SocketAddrV4 → Type 0
IsAddress addr = IsIp addr.ip × (addr.port < 2 ^ 16) × (is_loopback addr.ip ≡ true)

reset_input :
    (now : ℕ) (t : TcpTable) (l r : SocketAddrV4) (seq ack : ℕ)
    → find_endpoint t r l ≡ none
    → tcp_input now t (answer l r (seq, ack, rst_flag))
      ≡ input_by now t (answer l r (seq, ack, rst_flag)) none
unfolding tcp_input
reset_input now t l r seq ack e = ap (input_by now t (answer l r (seq, ack, rst_flag))) e

-- A reset between two loopback addresses for which the table has no endpoint on either side is
-- answered with a reset, that one with another, and so on: `emit` does not return within any number
-- of rounds.
pub emit-reset :
    (rounds now : ℕ) (t : TcpTable) (l r : SocketAddrV4) (seq ack : ℕ)
    → find_endpoint t l r ≡ none
    → find_endpoint t r l ≡ none
    → IsAddress l × IsAddress r
    → (seq < 2 ^ 32) × (ack < 2 ^ 32)
    → emit rounds now true t (answer l r (seq, ack, rst_flag)) ≡ unfinished
unfolding emit
emit-reset zero now t l r seq ack lr rl addresses numbers = refl
emit-reset (suc rounds) now t l r seq ack lr rl (al, ar) (hs, ha) =
    emit_lem rounds now t (answer l r (seq, ack, rst_flag))
      (al.0, ar.0, al.1, ar.1, hs, ha, omega arith, tt, omega arith) ar.2
    ∙ ap (replied (λ t' s'. emit rounds now true t' s')) (reset_input now t l r seq ack rl)
    ∙ ap ignore (
        emit-reset rounds now t r l ack ((seq + 0 % 2 ^ 32) % 2 ^ 32) rl lr (ar, al)
          (ha, omega arith))
