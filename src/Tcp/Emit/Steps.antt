-- ===== src/Tcp/Emit/Steps.antt =====
-- One segment over the loopback interface, by what its endpoint does with it.
use rustos.Prelude.{
  ℕ, suc, ◌≡◌, ap, ◌∙◌, Option, none, some, Bool, true, not, ◌&&◌, if◌then◌else◌, length, ◌+◌, ◌%◌,
  ◌^◌, done, ◌>>=◌,
}
use rustos.Tcp.Segment.{Segment, is_loopback, has_flag, syn_flag, ack_flag, rst_flag}
use rustos.Tcp.Endpoint.{TcpEndpoint}
use rustos.Tcp.Input.{process_segment}
use rustos.Tcp.Table.{TcpTable, at, find_endpoint, find_listener}
use rustos.Tcp.Wire.{packet}
use rustos.Tcp.Wire.RoundTrip.{IsSegment, packet-read_packet}
use rustos.Tcp.Emit.{
  Outcome, completed, ignore, replied, received, transmitted, emit, tcp_input, input_by, input_syn,
  input_at, processed, put_at, answer,
}

pub emit_lem :
    (rounds now : ℕ) (t : TcpTable) (s : Segment)
    → IsSegment s
    → is_loopback s.dst.ip ≡ true
    → emit (suc rounds) now true t s
      ≡ replied (λ t' s'. emit rounds now true t' s') (tcp_input now t s)
unfolding emit
emit_lem rounds now t s fits loopback =
    let again : TcpTable → Segment → Outcome Bool = λ t' s'. emit rounds now true t' s' in
    let (bytes, written, read) = packet-read_packet s fits in
    ap (λ lo. transmitted again now lo t (packet s)) loopback
    ∙ ap (transmitted again now true t) written
    ∙ ap (received again now t) read

module _ (now : ℕ) (t : TcpTable) (s : Segment) (h : ℕ) (ep ep' : TcpEndpoint)
    (found : find_endpoint t s.dst s.src ≡ some h) (there : at t.endpoints h ≡ some ep) where
  tcp_input_at :
      (reply : Option (ℕ × ℕ × ℕ))
      → process_segment now s ep ≡ done (ep', reply)
      → tcp_input now t s ≡ done (processed t h s (ep', reply))
  unfolding tcp_input
  tcp_input_at reply e =
      ap (input_by now t s) found
      ∙ ap (input_at now t h s) there
      ∙ ap (λ r. r >>= λ p. done (processed t h s p)) e

  module _ (rounds : ℕ) (fits : IsSegment s) (loopback : is_loopback s.dst.ip ≡ true) where
    pub emit_answered :
        (r : ℕ × ℕ × ℕ)
        → process_segment now s ep ≡ done (ep', some r)
        → emit (suc rounds) now true t s
          ≡ ignore (emit rounds now true (put_at t h ep') (answer s.dst s.src r))
    emit_answered r e =
        emit_lem rounds now t s fits loopback
        ∙ ap (replied (λ t' s'. emit rounds now true t' s')) (tcp_input_at (some r) e)

    pub emit_silent :
        process_segment now s ep ≡ done (ep', none)
        → emit (suc rounds) now true t s ≡ completed true (put_at t h ep')
    emit_silent e =
        emit_lem rounds now t s fits loopback
        ∙ ap (replied (λ t' s'. emit rounds now true t' s')) (tcp_input_at none e)

-- A SYN for which there is a listener and no endpoint.
pub emit_syn :
    (rounds now : ℕ) (t : TcpTable) (s : Segment) (k : ℕ)
    → IsSegment s
    → is_loopback s.dst.ip ≡ true
    → has_flag s.flags syn_flag && not (has_flag s.flags ack_flag) ≡ true
    → find_endpoint t s.dst s.src ≡ none
    → find_listener t s.dst ≡ some k
    → emit (suc rounds) now true t s
      ≡ replied (λ t' s'. emit rounds now true t' s') (done (input_syn now t s (some k)))
unfolding tcp_input
emit_syn rounds now t s k fits loopback flags new listener =
    emit_lem rounds now t s fits loopback
    ∙ ap (λ o. replied (λ t' s'. emit rounds now true t' s') (input_by now t s o)) new
    ∙ ap
        (λ c.
          replied (λ t' s'. emit rounds now true t' s')
            (if c
              then done (input_syn now t s (find_listener t s.dst))
              else done (
                t,
                some (
                    answer s.dst s.src
                      (s.ack, (s.seq + length s.payload % 2 ^ 32) % 2 ^ 32, rst_flag)),
              )))
        flags
    ∙ ap (λ o. replied (λ t' s'. emit rounds now true t' s') (done (input_syn now t s o))) listener
