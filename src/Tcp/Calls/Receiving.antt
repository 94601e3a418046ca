-- ===== src/Tcp/Calls/Receiving.antt =====
-- `recv` at one of the two endpoints of a connection.
use rustos.Prelude.{
  ℕ, zero, suc, ◌≡◌, refl, sym, ap, subst, ◌∙◌, List, [], ◌∷◌, take, drop, ==-refl, ==_false_iff,
  if◌then◌else◌, Result, ok, err,
}
use rustos.Tcp.Endpoint.{TcpEndpoint}
use rustos.Tcp.Table.{TcpTable, connects}
use rustos.Tcp.Table.Slots.{at-put, OnlyAt-put}
use rustos.Tcp.Emit.{put_at}
use rustos.Tcp.Calls.{TcpError, not_connected, recv, recv_at, recv_from, at_end}
use rustos.Tcp.Calls.Sending.{Linked}

-- Reading at one end leaves the rest of its queue there.
abbrev read_out : TcpEndpoint → ℕ → TcpEndpoint
read_out ep room = record ep { rcv_buf = drop room ep.rcv_buf }

Linked-read_out :
    (t : TcpTable) (i : ℕ) (a : TcpEndpoint) (j : ℕ) (b : TcpEndpoint) (room : ℕ)
    → Linked t i a j b
    → Linked (put_at t i (read_out a room)) i (read_out a room) j b
Linked-read_out t i a j b room
      (ne, (there, ab, seq, only, idle, eb), (here, ba, seq', only', idle', ea)) =
    (
      ne,
      (
        at-put t.endpoints i a (read_out a room) j here ∙ rw ((==_false_iff i j).1 ne) there,
        ab,
        seq,
        OnlyAt-put (connects a.remote a.local) t.endpoints i j a (read_out a room) here refl only,
        idle,
        eb,
      ),
      (
        at-put t.endpoints i a (read_out a room) i here ∙ rw (==-refl i) refl,
        ba,
        seq',
        OnlyAt-put (connects b.remote b.local) t.endpoints i i a (read_out a room) here refl only',
        idle',
        ea,
      ),
    )

-- The result on an established connection, from the bytes that are there.
abbrev pub reading : List ℕ → ℕ → Result (List ℕ) TcpError
reading [] room = err not_connected
reading (b ∷ bytes) room = ok (take room (b ∷ bytes))

drop-nil : (n : ℕ) → drop {A = ℕ} n [] ≡ []
drop-nil zero = refl
drop-nil (suc n) = refl

-- What a read at the first endpoint does.
abbrev pub Reads :
    TcpTable → ℕ → TcpEndpoint → ℕ → TcpEndpoint → ℕ → Result (List ℕ) TcpError × TcpTable → Type 0
Reads t i a j b room outcome =
    (t' : TcpTable) × (a' : TcpEndpoint) × (outcome ≡ (reading a.rcv_buf room, t'))
    × Linked t' i a' j b
    × (a'.rcv_buf ≡ drop room a.rcv_buf)

module _ (t : TcpTable) (i : ℕ) (a : TcpEndpoint) (j : ℕ) (b : TcpEndpoint) (room : ℕ)
    (linked : Linked t i a j b) where
  recv_from_lem :
      (q : List ℕ) → a.rcv_buf ≡ q → Reads t i a j b room (recv_from t i room a a.rcv_buf)
  recv_from_lem [] e =
      let (ne, (there, ab, seq, only, idle, eb), (here, ba, seq', only', idle', ea)) = linked in
      (
        t,
        a,
        ap (recv_from t i room a) e
            ∙ ap (λ st. (if at_end st then ok [] else err not_connected, t)) (idle'.0)
            ∙ ap (λ q. (reading q room, t)) (sym e),
        linked,
        e ∙ sym (drop-nil room) ∙ ap (drop room) (sym e),
      )
  recv_from_lem (x ∷ xs) e = (
    put_at t i (read_out a room),
    read_out a room,
    ap (recv_from t i room a) e
        ∙ ap (λ q. (reading q room, put_at t i (record a { rcv_buf = drop room q }))) (sym e),
    Linked-read_out t i a j b room linked,
    refl,
  )

  pub recv_lem : Reads t i a j b room (recv t i room)
  unfolding recv
  recv_lem =
      let (ne, (there, ab, seq, only, idle, eb), (here, ba, seq', only', idle', ea)) = linked in
      subst (λ o. Reads t i a j b room (recv_at t i room o)) (sym here)
        (recv_from_lem a.rcv_buf refl)
