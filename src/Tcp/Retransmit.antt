-- ===== src/Tcp/Retransmit.antt =====
-- Segments sent again: `retransmit_tick` of src/net/tcp.rs.
use rustos.Prelude.{
  ℕ, ◌+◌, ◌-◌, ◌%◌, ◌^◌, min, List, [], ◌∷◌, ◌++◌, Option, none, some, Bool, true, length, ltb,
  if◌then◌else◌,
}
use rustos.Tcp.Segment.{Segment}
use rustos.Tcp.Endpoint.{TcpEndpoint, RetxSegment, on_rto}
use rustos.Tcp.Table.{TcpTable}
use rustos.Tcp.Emit.{Outcome, completed, panicked, unfinished, emit}

-- One endpoint under `retransmit_tick`, and the segment that is sent again.
abbrev retransmit_by : ℕ → TcpEndpoint → List RetxSegment → TcpEndpoint × Option Segment
retransmit_by now ep [] = (ep, none)
retransmit_by now ep (oldest ∷ retx) =
    let again = record oldest { retries = min (oldest.retries + 1) 255; send_tick = now } in
    if ltb ((now - oldest.send_tick) % 2 ^ 32) ep.rto then (ep, none) else (
      record (on_rto ep) { retx = retx ++ again ∷ [] },
      some (record {
        src = ep.local;
        dst = ep.remote;
        seq = oldest.seq;
        ack = ep.rcv_nxt;
        flags = oldest.flags;
        payload = oldest.payload;
      }),
    )

abbrev with_slot :
    TcpEndpoint × Option Segment
    → List (Option TcpEndpoint) × List Segment
    → List (Option TcpEndpoint) × List Segment
with_slot (ep, none) (slots, segments) = (some ep ∷ slots, segments)
with_slot (ep, some s) (slots, segments) = (some ep ∷ slots, s ∷ segments)

abbrev with_none :
    List (Option TcpEndpoint) × List Segment → List (Option TcpEndpoint) × List Segment
with_none (slots, segments) = (none ∷ slots, segments)

unfoldable pub retransmit_slots :
    ℕ → List (Option TcpEndpoint) → List (Option TcpEndpoint) × List Segment
unfolding on_rto
retransmit_slots now [] = ([], [])
retransmit_slots now (none ∷ slots) = with_none (retransmit_slots now slots)
retransmit_slots now (some ep ∷ slots) =
    with_slot (retransmit_by now ep ep.retx) (retransmit_slots now slots)

abbrev then_emit : (TcpTable → Outcome Bool) → Outcome Bool → Outcome Bool
then_emit next (completed _ t) = next t
then_emit next panicked = panicked
then_emit next unfinished = unfinished

emit_all : ℕ → ℕ → Bool → TcpTable → List Segment → Outcome Bool
emit_all rounds now lo t [] = completed true t
emit_all rounds now lo t (s ∷ segments) =
    then_emit (λ t'. emit_all rounds now lo t' segments) (emit rounds now lo t s)

abbrev counted : ℕ → Outcome Bool → Outcome ℕ
counted n (completed _ t) = completed n t
counted n panicked = panicked
counted n unfinished = unfinished

abbrev retransmit_from :
    ℕ → ℕ → Bool → TcpTable → List (Option TcpEndpoint) × List Segment → Outcome ℕ
retransmit_from rounds now lo t (slots, segments) =
    counted (length segments) (emit_all rounds now lo (record t { endpoints = slots }) segments)

unfoldable pub retransmit_tick : ℕ → ℕ → Bool → TcpTable → Outcome ℕ
unfolding emit_all retransmit_slots
retransmit_tick rounds now lo t = retransmit_from rounds now lo t (retransmit_slots now t.endpoints)
