-- ===== src/Tcp/Endpoint/Acks.antt =====
-- Acknowledgements at an endpoint with nothing, or one segment, on its retransmit queue.
use rustos.Prelude.{
  ℕ, ◌+◌, ◌-◌, ◌*◌, ◌%◌, ◌^◌, ◌<◌, ◌≡◌, refl, sym, ap, ◌∙◌, [], ◌∷◌, none, some, Bool, true, false,
  length, ltb, lt→ltb, ◌==◌, ==_iff, if◌then◌else◌, Run, done, panic, max, ◌>>=◌, arith,
}
use rustos.Tcp.Endpoint.{
  TcpEndpoint, RetxSegment, established, process_ack, drop_acked, seq_le, update_rtt, account,
  sampled, grow_cwnd, with_rto, saturating_add,
}

-- What an established connection needs to know of an endpoint with nothing unacknowledged: its
-- estimates are small enough for the sum of `process_ack`.
abbrev pub Idle : TcpEndpoint → Type 0
Idle ep = (ep.state ≡ established) × (ep.retx ≡ []) × (ep.srtt < 2 ^ 28) × (ep.rttvar < 2 ^ 28)

pub process_ack-idle :
    (now ack : ℕ) (ep : TcpEndpoint) → ep.retx ≡ [] → process_ack now ack ep ≡ done ep
unfolding process_ack
process_ack-idle now ack ep e =
    ap (λ retx. account now ack (drop_acked ack retx 0 none) ep) e
    ∙ ap (λ retx. done (record ep { retx = retx })) (sym e)

-- What an acknowledgement of everything sent leaves as it is, and an idle endpoint.
abbrev pub Settled : TcpEndpoint → TcpEndpoint → Type 0
Settled ep ep' =
    (ep'.local ≡ ep.local)
    × (ep'.remote ≡ ep.remote)
    × (ep'.snd_nxt ≡ ep.snd_nxt)
    × (ep'.rcv_nxt ≡ ep.rcv_nxt)
    × (ep'.rcv_buf ≡ ep.rcv_buf)
    × Idle ep'

if-Settled :
    (c : Bool) (ep x y : TcpEndpoint)
    → Settled ep x
    → Settled ep y
    → Settled ep (if c then x else y)
if-Settled true ep x y hx hy = hx
if-Settled false ep x y hx hy = hy

module _ (now : ℕ) (ep : TcpEndpoint) (st : ep.state ≡ established) (none_left : ep.retx ≡ [])
    (bounds : (ep.srtt < 2 ^ 28) × (ep.rttvar < 2 ^ 28)) where
  grow_cwnd-Settled : (n : ℕ) → Settled ep (grow_cwnd n ep)
  grow_cwnd-Settled n =
      if-Settled (ltb ep.cwnd ep.ssthresh) ep _ _
        (refl, refl, refl, refl, refl, (st, none_left, bounds.0, bounds.1))
        (refl, refl, refl, refl, refl, (st, none_left, bounds.0, bounds.1))

  sampled-Settled : Settled ep (sampled 0 ep)
  sampled-Settled =
      if-Settled (ep.srtt == 0) ep _ _
        (refl, refl, refl, refl, refl, (st, none_left, omega arith, omega arith))
        (refl, refl, refl, refl, refl, (st, none_left, omega arith, ground arith))

Settled-trans : (a b c : TcpEndpoint) → Settled a b → Settled b c → Settled a c
Settled-trans a b c (l, r, s, v, u, i) (l', r', s', v', u', i') =
    (l' ∙ l, r' ∙ r, s' ∙ s, v' ∙ v, u' ∙ u, i')

seq_le_self : (a b : ℕ) → a ≡ b → a < 2 ^ 32 → seq_le a b ≡ true
unfolding seq_le
seq_le_self a b e h = ground arith

drop_acked-single :
    (now ack : ℕ) (seg : RetxSegment)
    → seg.send_tick ≡ now
    → seg.retries ≡ 0
    → (seg.seq + length seg.payload) % 2 ^ 32 ≡ ack
    → drop_acked ack (seg ∷ []) 0 none ≡ record {
      rest = [];
      bytes = saturating_add 0 (length seg.payload % 2 ^ 32);
      tick = some now;
    }
unfolding drop_acked
drop_acked-single now ack seg tick retries end =
    rw
      (
        seq_le_self ((seg.seq + length seg.payload) % 2 ^ 32) ack end (omega arith),
        (==_iff seg.retries 0).1 retries,
        tick,
      )
      refl

-- A sample of no ticks.
update_rtt-same :
    (now : ℕ) (ep : TcpEndpoint)
    → (ep.srtt < 2 ^ 28) × (ep.rttvar < 2 ^ 28)
    → ep.state ≡ established
    → ep.retx ≡ []
    → let e = sampled 0 ep in
      update_rtt now (some now) ep ≡ done (record e { rto = max (e.srtt + 4 * e.rttvar) 2 })
unfolding update_rtt
update_rtt-same now ep bounds st empty =
    let e = sampled 0 ep in
    let (l, r, s, v, u, (st', empty', srtt, rttvar)) = sampled-Settled now ep st empty bounds in
    let none_passed : (now - now) % 2 ^ 32 ≡ 0 = omega arith in
    ap (λ rtt. with_rto (sampled rtt ep)) none_passed
    ∙ ap (λ c. if c then done (record e { rto = max (e.srtt + 4 * e.rttvar) 2 }) else panic)
        (lt→ltb (e.srtt + 4 * e.rttvar) (2 ^ 32) (omega arith))

-- The acknowledgement of the one segment that is on the queue.
pub process_ack-Settled :
    (now ack : ℕ) (ep : TcpEndpoint) (seg : RetxSegment)
    → Idle ep
    → seg.send_tick ≡ now
    → seg.retries ≡ 0
    → (seg.seq + length seg.payload) % 2 ^ 32 ≡ ack
    → (0 < length seg.payload) × (length seg.payload < 2 ^ 32)
    → (ep' : TcpEndpoint) × (process_ack now ack (record ep { retx = seg ∷ [] }) ≡ done ep')
      × Settled ep ep'
unfolding process_ack
process_ack-Settled now ack ep seg (st, empty, srtt, rttvar) tick retries end size =
    let n = saturating_add 0 (length seg.payload % 2 ^ 32) in
    let e1 : TcpEndpoint = record ep { retx = []; snd_una = ack; rto_backoff = 0 } in
    let e2 = sampled 0 e1 in
    let e3 : TcpEndpoint = record e2 { rto = max (e2.srtt + 4 * e2.rttvar) 2 } in
    let (l, r, s, v, u, (st', empty', srtt', rttvar')) =
      sampled-Settled now e1 st refl (srtt, rttvar) in
    (
      grow_cwnd n e3,
      ap (λ found. account now ack found (record ep { retx = seg ∷ [] }))
            (drop_acked-single now ack seg tick retries end)
          ∙ ap
              (λ c.
                if c
                then (update_rtt now (some now) e1 >>= λ ep'. done (grow_cwnd n ep'))
                else done (record ep { retx = [] }))
              (lt→ltb 0 n (omega arith))
          ∙ ap (λ (r : Run TcpEndpoint). r >>= λ ep'. done (grow_cwnd n ep'))
              (update_rtt-same now e1 (srtt, rttvar) st refl),
      Settled-trans ep e3 (grow_cwnd n e3) (l, r, s, v, u, (st', empty', srtt', rttvar'))
          (grow_cwnd-Settled now e3 st' empty' (srtt', rttvar') n),
    )
