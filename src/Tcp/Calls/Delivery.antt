-- ===== src/Tcp/Calls/Delivery.antt =====
-- What one `send` on a connection of two endpoints of the table does.
use rustos.Prelude.{
  ℕ, suc, ◌^◌, ◌≤◌, ◌<◌, ◌≡◌, ◌≢◌, refl, sym, ap, subst, ◌∙◌, List, ◌∷◌, ◌++◌, some, true, length,
  ◌==◌, ==-refl, ==_false_iff, if◌then◌else◌, Bool-cases, inl, inr, Result, ok, err, arith,
}
use rustos.Tcp.Segment.{SocketAddrV4, is_loopback}
use rustos.Tcp.Endpoint.{TcpEndpoint}
use rustos.Tcp.Endpoint.Acks.{Settled}
use rustos.Tcp.Input.Exchange.{grown}
use rustos.Tcp.Table.{TcpTable, at, connects}
use rustos.Tcp.Table.Slots.{at-put, OnlyAt, OnlyAt-put}
use rustos.Tcp.Wire.RoundTrip.{IsBytes, IsIp}
use rustos.Tcp.Emit.{emit, put_at, Outcome, completed, ignore}
use rustos.Tcp.Calls.{
  TcpError, not_connected, can_send, send, send_at, sent, recorded, data_segment,
}
use rustos.Tcp.Calls.Sending.{
  Linked, at-peer, at-sender, arrives, acknowledged, only-t2, settled, connects-same, t2,
}

-- The call returns the number of bytes; the receiver's buffer has them at its end, the sender's is
-- as before, the connection is ready for the next call, and no other endpoint has changed.
abbrev Delivered :
    TcpTable → ℕ → TcpEndpoint → ℕ → TcpEndpoint → List ℕ → Outcome (Result ℕ TcpError) → Type 0
Delivered t i a j b bytes outcome =
    (t' : TcpTable) × (a' : TcpEndpoint) × (b' : TcpEndpoint) × (outcome
      ≡ completed (ok (length bytes)) t')
    × Linked t' i a' j b'
    × (b'.rcv_buf ≡ b.rcv_buf ++ bytes)
    × (a'.rcv_buf ≡ a.rcv_buf)
    × ((h : ℕ) → h ≢ i → h ≢ j → at t'.endpoints h ≡ at t.endpoints h)

module _ (now : ℕ) (t : TcpTable) (i : ℕ) (a : TcpEndpoint) (j : ℕ) (b : TcpEndpoint)
    (linked : Linked t i a j b) (x : ℕ) (xs : List ℕ)
    (fits : IsBytes (x ∷ xs) × (length (x ∷ xs) ≤ 65495)) (a' : TcpEndpoint)
    (kept : Settled (recorded now a (x ∷ xs)) a') where
  abbrev t3 : TcpTable
  t3 = put_at (t2 now t i a j b linked x xs fits) i a'

  at_other :
      (h : ℕ)
      → at t3.endpoints h
        ≡ (if i == h then some a' else if j == h then some (grown b (x ∷ xs)) else at t.endpoints h)
  at_other h =
      let there = (linked.1).0 in
      let here = (linked.2).0 in
      let last =
        at-put (t2 now t i a j b linked x xs fits).endpoints i (recorded now a (x ∷ xs)) a' h
          (at-sender now t i a j b linked x xs fits) in
      elim (Bool-cases (i == h)) [
        | inl e ↦ last ∙ rw e refl
        | inr e ↦
            last
            ∙ rw e (
                at-put (put_at t i (recorded now a (x ∷ xs))).endpoints j b (grown b (x ∷ xs)) h
                  (at-peer now t i a j b linked x xs fits)
                ∙ ap (λ o. if j == h then some (grown b (x ∷ xs)) else o)
                    (at-put t.endpoints i a (recorded now a (x ∷ xs)) h here ∙ rw e refl))
      ]

  only-t3 :
      (l r : SocketAddrV4) (k : ℕ)
      → OnlyAt (connects l r) t.endpoints k
      → OnlyAt (connects l r) t3.endpoints k
  only-t3 l r k only =
      OnlyAt-put (connects l r) (t2 now t i a j b linked x xs fits).endpoints i k
        (recorded now a (x ∷ xs)) a' (at-sender now t i a j b linked x xs fits)
        (connects-same l r (recorded now a (x ∷ xs)) a' kept.0 kept.1)
        (only-t2 now t i a j b linked x xs fits l r k only)

  Linked-after : Linked t3 i a' j (grown b (x ∷ xs))
  Linked-after =
      let (ne, (there, ab, seq, only, idle, eb), (here, ba, seq', only', idle', ea)) = linked in
      let (el, er, es, ev, eu, idle'') = kept in
      (
        ne,
        (
          at_other j ∙ rw ((==_false_iff i j).1 ne, ==-refl j) refl,
          er ∙ ab,
          es ∙ omega (arith, seq),
          subst (λ r. OnlyAt (connects r a'.local) t3.endpoints j) (sym er)
              (subst (λ l. OnlyAt (connects a.remote l) t3.endpoints j) (sym el)
                (only-t3 a.remote a.local j only)),
          idle,
          (eb.0, eb.1, eb.2, eb.3, omega arith),
        ),
        (
          at_other i ∙ rw (==-refl i) refl,
          ba ∙ sym el,
          seq' ∙ sym ev,
          only-t3 b.remote b.local i only',
          idle'',
          (
            subst (λ l. IsIp l.ip) (sym el) ea.0,
            subst (λ l. l.port < 2 ^ 16) (sym el) ea.1,
            subst (λ l. is_loopback l.ip ≡ true) (sym el) ea.2,
            omega (arith, es),
            omega (arith, ev, ea.4),
          ),
        ),
      )

pub send-Delivered :
    (rounds now : ℕ) (t : TcpTable) (i : ℕ) (a : TcpEndpoint) (j : ℕ) (b : TcpEndpoint) (x : ℕ)
    (xs : List ℕ)
    → Linked t i a j b
    → IsBytes (x ∷ xs) × (length (x ∷ xs) ≤ 65495)
    → Delivered t i a j b (x ∷ xs) (send (suc (suc rounds)) now true t i (x ∷ xs))
unfolding send
send-Delivered rounds now t i a j b x xs linked fits =
    let (ne, (there, ab, seq, only, idle, eb), (here, ba, seq', only', idle', ea)) = linked in
    let (a', e, kept) = settled now t i a j b linked x xs fits in
    let first = arrives now t i a j b linked x xs fits (suc rounds) in
    let second = acknowledged now t i a j b linked x xs fits rounds a' e in
    let (el, er, es, ev, eu, idle'') = kept in
    (
      t3 now t i a j b linked x xs fits a' kept,
      a',
      grown b (x ∷ xs),
      ap (send_at (suc (suc rounds)) now true t i (x ∷ xs)) here
          ∙ ap
              (λ st.
                if can_send st
                then sent (length (x ∷ xs)) (
                    emit (suc (suc rounds)) now true (put_at t i (recorded now a (x ∷ xs)))
                      (data_segment a (x ∷ xs)))
                else completed (err not_connected) t)
              idle'.0
          ∙ ap (sent (length (x ∷ xs))) (first ∙ ap ignore second),
      Linked-after now t i a j b linked x xs fits a' kept,
      refl,
      eu,
      λ h hi hj.
          at_other now t i a j b linked x xs fits a' kept h
          ∙ rw ((==_false_iff i h).1 (λ e. hi (sym e)), (==_false_iff j h).1 (λ e. hj (sym e)))
              refl,
    )
