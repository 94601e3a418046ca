-- ===== src/Tcp/Stream.antt =====
-- Calls on the two endpoints of a connection of src/net/tcp.rs, against two queues of bytes.
use rustos.Prelude.{
  ℕ, ◌≤◌, ◌≡◌, refl, sym, ap, subst, ◌∙◌, List, [], ◌∷◌, ◌++◌, Bool, true, false, length, drop,
  if◌then◌else◌, Result, ok,
}
use rustos.Tcp.Endpoint.{TcpEndpoint}
use rustos.Tcp.Table.{TcpTable}
use rustos.Tcp.Wire.RoundTrip.{IsBytes}
use rustos.Tcp.Emit.{Outcome, completed, panicked, unfinished}
use rustos.Tcp.Calls.{TcpError, send, recv}
use rustos.Tcp.Calls.Sending.{Linked}
use rustos.Tcp.Calls.Receiving.{reading, recv_lem}
use rustos.Tcp.Calls.Delivery.{send-Delivered}

-- A call at one end (`true` is the first) at some time, with what it is given.
pub data Call : Type 0 where
  send_call : ℕ → Bool → List ℕ → Call
  recv_call : Bool → ℕ → Call

pub data Reply : Type 0 where
  taken : Result ℕ TcpError → Reply
  given : Result (List ℕ) TcpError → Reply

-- A call's reply before those of the calls after it.
abbrev then_reply : Reply → Outcome (List Reply) → Outcome (List Reply)
then_reply r (completed rs t) = completed (r ∷ rs) t
then_reply r panicked = panicked
then_reply r unfinished = unfinished

abbrev after_send :
    (TcpTable → Outcome (List Reply)) → Outcome (Result ℕ TcpError) → Outcome (List Reply)
after_send rest (completed r t) = then_reply (taken r) (rest t)
after_send rest panicked = panicked
after_send rest unfinished = unfinished

abbrev after_recv :
    (TcpTable → Outcome (List Reply)) → Result (List ℕ) TcpError × TcpTable → Outcome (List Reply)
after_recv rest (r, t) = then_reply (given r) (rest t)

abbrev end_of : Bool → ℕ → ℕ → ℕ
end_of first i j = if first then i else j

-- The calls one after another, with two rounds for each `emit`.
unfoldable pub run : TcpTable → ℕ → ℕ → List Call → Outcome (List Reply)
run t i j [] = completed [] t
run t i j (send_call now first bytes ∷ calls) =
    after_send (λ t'. run t' i j calls) (send 2 now true t (end_of first i j) bytes)
run t i j (recv_call first room ∷ calls) =
    after_recv (λ t'. run t' i j calls) (recv t (end_of first i j) room)

-- The bytes on the way to each end.
pub record Streams : Type 0 where
  to_first : List ℕ
  to_second : List ℕ

-- What a call does to the two queues: the bytes sent are put at the end of the other end's queue,
-- and the bytes read are taken from the front of one's own.
abbrev pub step : Streams → Call → Reply × Streams
step q (send_call now true bytes) =
    (taken (ok (length bytes)), record q { to_second = q.to_second ++ bytes })
step q (send_call now false bytes) =
    (taken (ok (length bytes)), record q { to_first = q.to_first ++ bytes })
step q (recv_call true room) =
    (given (reading q.to_first room), record q { to_first = drop room q.to_first })
step q (recv_call false room) =
    (given (reading q.to_second room), record q { to_second = drop room q.to_second })

abbrev pub replies : Streams → List Call → List Reply
replies q [] = []
replies q (call ∷ calls) = (step q call).0 ∷ replies (step q call).1 calls

abbrev pub finally : Streams → List Call → Streams
finally q [] = q
finally q (call ∷ calls) = finally (step q call).1 calls

-- Each send has a byte at least and no more than a packet holds.
abbrev Sendable : List Call → Type 0
Sendable [] = Unit
Sendable (send_call now first [] ∷ calls) = ⊥
Sendable (send_call now first (x ∷ xs) ∷ calls) =
    (IsBytes (x ∷ xs) × (length (x ∷ xs) ≤ 65495)) × Sendable calls
Sendable (recv_call first room ∷ calls) = Sendable calls

abbrev pub streams : TcpEndpoint → TcpEndpoint → Streams
streams a b = record { to_first = a.rcv_buf; to_second = b.rcv_buf }

-- The calls return with these replies and leave the connection with these bytes on the way.
abbrev pub Ends : ℕ → ℕ → List Reply × Streams → Outcome (List Reply) → Type 0
Ends i j (rs, q) outcome =
    (t' : TcpTable) × (a' : TcpEndpoint) × (b' : TcpEndpoint) × (outcome ≡ completed rs t')
    × Linked t' i a' j b'
    × (streams a' b' ≡ q)

swapped :
    (t : TcpTable) (i : ℕ) (a : TcpEndpoint) (j : ℕ) (b : TcpEndpoint)
    → Linked t i a j b
    → Linked t j b i a
swapped t i a j b (ne, ab, ba) = (λ e. ne (sym e), ba, ab)

module _ (i j : ℕ) where
  -- One call, and then those after it.
  Ends-after_send :
      (q q' : Streams) (n : ℕ) (t' : TcpTable) (o : Outcome (Result ℕ TcpError)) (calls : List Call)
      → o ≡ completed (ok n) t'
      → q' ≡ q
      → Ends i j (replies q' calls, finally q' calls) (run t' i j calls)
      → Ends i j
          (taken (ok n) ∷ replies q calls, finally q calls)
          (after_send (λ t'. run t' i j calls) o)
  Ends-after_send q q' n t' o calls e same rest =
      let (end, a', b', e', linked, same') =
        subst (λ q. Ends i j (replies q calls, finally q calls) (run t' i j calls)) same rest in
      (
        end,
        a',
        b',
        ap (after_send (λ t'. run t' i j calls)) e ∙ ap (then_reply (taken (ok n))) e',
        linked,
        same',
      )

  Ends-after_recv :
      (q q' : Streams) (r : Result (List ℕ) TcpError) (t' : TcpTable)
      (o : Result (List ℕ) TcpError × TcpTable) (calls : List Call)
      → o ≡ (r, t')
      → q' ≡ q
      → Ends i j (replies q' calls, finally q' calls) (run t' i j calls)
      → Ends i j
          (given r ∷ replies q calls, finally q calls)
          (after_recv (λ t'. run t' i j calls) o)
  Ends-after_recv q q' r t' o calls e same rest =
      let (end, a', b', e', linked, same') =
        subst (λ q. Ends i j (replies q calls, finally q calls) (run t' i j calls)) same rest in
      (
        end,
        a',
        b',
        ap (after_recv (λ t'. run t' i j calls)) e ∙ ap (then_reply (given r)) e',
        linked,
        same',
      )

-- Calls at the two ends of an idle connection, in any order and at any times, each send with a byte
-- at least and no more than a packet holds: they return without a panic and with the replies that
-- two queues of bytes give, one for each direction, and leave an idle connection whose buffers are
-- those queues.
pub run-Ends :
    (t : TcpTable) (i : ℕ) (a : TcpEndpoint) (j : ℕ) (b : TcpEndpoint) (calls : List Call)
    → Linked t i a j b
    → Sendable calls
    → Ends i j (replies (streams a b) calls, finally (streams a b) calls) (run t i j calls)
unfolding run
run-Ends t i a j b [] linked fits = (t, a, b, refl, linked, refl)
run-Ends t i a j b (send_call now first [] ∷ calls) linked fits = absurd fits
run-Ends t i a j b (send_call now true (x ∷ xs) ∷ calls) linked (fit, fits) =
    let (t', a', b', e, linked', eb, ea, others) = send-Delivered 0 now t i a j b x xs linked fit in
    Ends-after_send i j _ (streams a' b') (length (x ∷ xs)) t' _ calls e
      (λ k. record { to_first = ea k; to_second = eb k }) (run-Ends t' i a' j b' calls linked' fits)
run-Ends t i a j b (send_call now false (x ∷ xs) ∷ calls) linked (fit, fits) =
    let (t', b', a', e, linked', ea, eb, others) =
      send-Delivered 0 now t j b i a x xs (swapped t i a j b linked) fit in
    Ends-after_send i j _ (streams a' b') (length (x ∷ xs)) t' _ calls e
      (λ k. record { to_first = ea k; to_second = eb k })
      (run-Ends t' i a' j b' calls (swapped t' j b' i a' linked') fits)
run-Ends t i a j b (recv_call true room ∷ calls) linked fits =
    let (t', a', e, linked', ea) = recv_lem t i a j b room linked in
    Ends-after_recv i j _ (streams a' b) _ t' _ calls e
      (λ k. record { to_first = ea k; to_second = b.rcv_buf })
      (run-Ends t' i a' j b calls linked' fits)
run-Ends t i a j b (recv_call false room ∷ calls) linked fits =
    let (t', b', e, linked', eb) = recv_lem t j b i a room (swapped t i a j b linked) in
    Ends-after_recv i j _ (streams a b') _ t' _ calls e
      (λ k. record { to_first = a.rcv_buf; to_second = eb k })
      (run-Ends t' i a j b' calls (swapped t' j b' i a linked') fits)
