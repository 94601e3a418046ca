-- ===== src/Tcp/Calls/Sending.antt =====
-- `send` on a connection of two endpoints of the table, over the loopback interface.
use rustos.Prelude.{
  ℕ, suc, ◌+◌, ◌%◌, ◌^◌, ◌≤◌, ◌<◌, ◌≡◌, ◌≢◌, refl, sym, ap, subst, ◌∙◌, List, [], ◌∷◌, ◌++◌, none,
  some, true, ◌&&◌, length, ◌==◌, ==-refl, ==_false_iff, done, arith,
}
use rustos.Tcp.Segment.{
  SocketAddrV4, Segment, is_loopback, ack_flag, ack_psh, addr_eq, addr_eq_refl,
}
use rustos.Tcp.Endpoint.{process_ack, TcpEndpoint, RetxSegment}
use rustos.Tcp.Input.{process_segment}
use rustos.Tcp.Endpoint.Acks.{Idle, Settled, process_ack-Settled}
use rustos.Tcp.Input.Exchange.{grown, process_segment-data, process_segment-ack}
use rustos.Tcp.Table.{TcpTable, at, connects, find_endpoint}
use rustos.Tcp.Table.Slots.{at-put, find-some, OnlyAt, OnlyAt-put}
use rustos.Tcp.Wire.RoundTrip.{IsBytes, IsIp}
use rustos.Tcp.Emit.{emit, put_at, answer, completed, ignore}
use rustos.Tcp.Emit.Steps.{emit_answered, emit_silent}
use rustos.Tcp.Calls.{recorded, data_segment}

-- An endpoint's fields within their types, on a loopback address.
abbrev IsEndpoint : TcpEndpoint → Type 0
IsEndpoint ep =
    IsIp ep.local.ip
    × (ep.local.port < 2 ^ 16)
    × (is_loopback ep.local.ip ≡ true)
    × (ep.snd_nxt < 2 ^ 32)
    × (ep.rcv_nxt < 2 ^ 32)

-- One direction of a connection: what `a` sends goes to the endpoint with handle `j`, and `b`
-- there expects what `a` sends next.
abbrev Reaches : TcpTable → TcpEndpoint → ℕ → TcpEndpoint → Type 0
Reaches t a j b =
    (at t.endpoints j ≡ some b)
    × (a.remote ≡ b.local)
    × (a.snd_nxt ≡ b.rcv_nxt)
    × OnlyAt (connects a.remote a.local) t.endpoints j
    × Idle b
    × IsEndpoint b

-- Two established endpoints of one connection with nothing under way.
abbrev pub Linked : TcpTable → ℕ → TcpEndpoint → ℕ → TcpEndpoint → Type 0
Linked t i a j b = (i ≢ j) × Reaches t a j b × Reaches t b i a

-- The test looks at two fields.
pub connects-same :
    (l r : SocketAddrV4) (old ep : TcpEndpoint)
    → ep.local ≡ old.local
    → ep.remote ≡ old.remote
    → connects l r ep ≡ connects l r old
connects-same l r old ep el er =
    ap (λ (x : SocketAddrV4). (x.port == l.port) && addr_eq ep.remote r) el
    ∙ ap (λ (x : SocketAddrV4). (old.local.port == l.port) && addr_eq x r) er

connects-peer :
    (l r : SocketAddrV4) (ep : TcpEndpoint) → ep.local ≡ l → ep.remote ≡ r → connects l r ep ≡ true
connects-peer l r ep el er =
    ap (λ (x : SocketAddrV4). (x.port == l.port) && addr_eq ep.remote r) el
    ∙ ap (λ (x : SocketAddrV4). (l.port == l.port) && addr_eq x r) er
    ∙ rw (==-refl l.port, addr_eq_refl r) refl

find_endpoint-peer :
    (t : TcpTable) (l r : SocketAddrV4) (h : ℕ) (ep : TcpEndpoint)
    → at t.endpoints h ≡ some ep
    → ep.local ≡ l
    → ep.remote ≡ r
    → OnlyAt (connects l r) t.endpoints h
    → find_endpoint t l r ≡ some h
unfolding find_endpoint
find_endpoint-peer t l r h ep there el er only =
    find-some (connects l r) t.endpoints h ep there (connects-peer l r ep el er) only

peer-IsAddress :
    (a b : TcpEndpoint)
    → a.remote ≡ b.local
    → IsEndpoint b
    → IsIp a.remote.ip × (a.remote.port < 2 ^ 16) × (is_loopback a.remote.ip ≡ true)
peer-IsAddress a b ab (ip, port, loopback, nxt, rcv) =
    subst (λ (r : SocketAddrV4). IsIp r.ip × (r.port < 2 ^ 16) × (is_loopback r.ip ≡ true)) (sym ab)
      (ip, port, loopback)

module _ (now : ℕ) (t : TcpTable) (i : ℕ) (a : TcpEndpoint) (j : ℕ) (b : TcpEndpoint)
    (linked : Linked t i a j b) (x : ℕ) (xs : List ℕ)
    (fits : IsBytes (x ∷ xs) × (length (x ∷ xs) ≤ 65495)) where
  -- Both ends after the segment has arrived.
  abbrev pub t2 : TcpTable
  t2 = put_at (put_at t i (recorded now a (x ∷ xs))) j (grown b (x ∷ xs))

  abbrev pub reply : Segment
  reply = answer a.remote a.local (b.snd_nxt, (b.rcv_nxt + length (x ∷ xs)) % 2 ^ 32, ack_flag)

  pub at-peer : at (put_at t i (recorded now a (x ∷ xs))).endpoints j ≡ some b
  at-peer =
      let (ne, (there, ab, seq, only, idle, eb), (here, ba, seq', only', idle', ea)) = linked in
      at-put t.endpoints i a (recorded now a (x ∷ xs)) j here ∙ rw ((==_false_iff i j).1 ne) there

  pub arrives :
      (rounds : ℕ)
      → emit (suc rounds) now true (put_at t i (recorded now a (x ∷ xs))) (data_segment a (x ∷ xs))
        ≡ ignore (emit rounds now true t2 reply)
  arrives rounds =
      let (ne, (there, ab, seq, only, idle, eb), (here, ba, seq', only', idle', ea)) = linked in
      emit_answered now (put_at t i (recorded now a (x ∷ xs))) (data_segment a (x ∷ xs)) j b
        (grown b (x ∷ xs))
        (find_endpoint-peer (put_at t i (recorded now a (x ∷ xs))) a.remote a.local j b at-peer
          (sym ab) ba
          (OnlyAt-put (connects a.remote a.local) t.endpoints i j a (recorded now a (x ∷ xs)) here
            refl only))
        at-peer rounds
        (
          ea.0,
          (peer-IsAddress a b ab eb).0,
          ea.1,
          (peer-IsAddress a b ab eb).1,
          ea.3,
          ea.4,
          omega arith,
          fits.0,
          fits.1,
        )
        (peer-IsAddress a b ab eb).2 (b.snd_nxt, (b.rcv_nxt + length (x ∷ xs)) % 2 ^ 32, ack_flag)
        (process_segment-data now a.local a.remote a.snd_nxt a.rcv_nxt b x xs idle seq)

  pub at-sender : at t2.endpoints i ≡ some (recorded now a (x ∷ xs))
  at-sender =
      let (ne, (there, ab, seq, only, idle, eb), (here, ba, seq', only', idle', ea)) = linked in
      at-put (put_at t i (recorded now a (x ∷ xs))).endpoints j b (grown b (x ∷ xs)) i at-peer
      ∙ rw ((==_false_iff j i).1 (λ e. ne (sym e)))
          (at-put t.endpoints i a (recorded now a (x ∷ xs)) i here ∙ rw (==-refl i) refl)

  -- The tests that tell the two endpoints from others still do.
  pub only-t2 :
      (l r : SocketAddrV4) (k : ℕ)
      → OnlyAt (connects l r) t.endpoints k
      → OnlyAt (connects l r) t2.endpoints k
  only-t2 l r k only =
      let (ne, (there, ab, seq, only', idle, eb), (here, ba, seq', back, idle', ea)) = linked in
      OnlyAt-put (connects l r) (put_at t i (recorded now a (x ∷ xs))).endpoints j k b
        (grown b (x ∷ xs)) at-peer refl
        (OnlyAt-put (connects l r) t.endpoints i k a (recorded now a (x ∷ xs)) here refl only)

  pub acknowledged :
      (rounds : ℕ) (a' : TcpEndpoint)
      → process_segment now reply (recorded now a (x ∷ xs)) ≡ done (a', none)
      → emit (suc rounds) now true t2 reply ≡ completed true (put_at t2 i a')
  acknowledged rounds a' e =
      let (ne, (there, ab, seq, only, idle, eb), (here, ba, seq', only', idle', ea)) = linked in
      emit_silent now t2 reply i (recorded now a (x ∷ xs)) a'
        (find_endpoint-peer t2 a.local a.remote i (recorded now a (x ∷ xs)) at-sender refl refl (
          subst (λ r. OnlyAt (connects a.local r) t2.endpoints i) (sym ab)
            (subst (λ l. OnlyAt (connects l b.local) t2.endpoints i) ba
              (only-t2 b.remote b.local i only'))))
        at-sender rounds
        (
          (peer-IsAddress a b ab eb).0,
          ea.0,
          (peer-IsAddress a b ab eb).1,
          ea.1,
          eb.3,
          omega arith,
          omega arith,
          tt,
          omega arith,
        )
        ea.2 e

  -- The sender after the acknowledgement.
  pub settled :
      (a' : TcpEndpoint) × (process_segment now reply (recorded now a (x ∷ xs)) ≡ done (a', none))
      × Settled (recorded now a (x ∷ xs)) a'
  settled =
      let (
        ne,
        (there, ab, seq, only, idle, eb),
        (here, ba, seq', only', (st, empty, srtt, rttvar), ea),
      ) =
        linked in
      let ep : TcpEndpoint = record a {
        snd_nxt = (a.snd_nxt + length (x ∷ xs) % 2 ^ 32) % 2 ^ 32;
      } in
      let seg : RetxSegment = record {
        seq = a.snd_nxt;
        flags = ack_psh;
        payload = x ∷ xs;
        send_tick = now;
        retries = 0;
      } in
      let (a', e, s) =
        process_ack-Settled now reply.ack ep seg (st, empty, srtt, rttvar) refl refl
          (ap (λ (n : ℕ). (n + length (x ∷ xs)) % 2 ^ 32) seq) (omega arith, omega arith) in
      let queue : record ep { retx = seg ∷ [] } ≡ recorded now a (x ∷ xs) =
        ap (λ q. record ep { retx = q ++ seg ∷ [] }) (sym empty) in
      (
        a',
        process_segment-ack now reply.src reply.dst reply.seq reply.ack (recorded now a (x ∷ xs)) a'
            st (ap (process_ack now reply.ack) (sym queue) ∙ e),
        s,
      )
