-- ===== src/Tcp/Calls/Handshake.antt =====
-- What `connect` does when the table has a listener for the address.
use rustos.Prelude.{ℕ, ◌≡◌, [], ◌∷◌, ◌++◌, some, Result, ok}
use rustos.Tcp.Segment.{SocketAddrV4, localhost}
use rustos.Tcp.Endpoint.{TcpEndpoint}
use rustos.Tcp.Table.{TcpTable, at, connects}
use rustos.Tcp.Table.Slots.{Nowhere}
use rustos.Tcp.Emit.{Outcome, completed}
use rustos.Tcp.Calls.{TcpError}
use rustos.Tcp.Calls.Sending.{Linked}
use rustos.Tcp.Calls.Connecting

-- The client's address: the next port of the table.
abbrev pub source_of : TcpTable → SocketAddrV4
source_of t = record { ip = localhost; port = t.next_ephemeral_port }

-- No endpoint has the two addresses of the new connection, from either side.
abbrev pub IsFresh : TcpTable → SocketAddrV4 → Type 0
IsFresh t remote =
    Nowhere (connects (source_of t) remote) t.endpoints
    × Nowhere (connects remote (source_of t)) t.endpoints

-- A new connection whose buffers are empty, its far end queued at the listener; the endpoints that
-- were there are as before.
abbrev pub Connects :
    TcpTable → SocketAddrV4 → ℕ → TcpEndpoint → Outcome (Result ℕ TcpError) → Type 0
Connects t remote k listener outcome =
    (t' : TcpTable) × (h : ℕ) × (a : TcpEndpoint) × (c : ℕ) × (b : TcpEndpoint) × (outcome
      ≡ completed (ok h) t')
    × Linked t' h a c b
    × (a.local ≡ source_of t)
    × (a.remote ≡ remote)
    × (a.rcv_buf ≡ [])
    × (b.rcv_buf ≡ [])
    × (at t'.endpoints k
        ≡ some (record listener { accept_queue = listener.accept_queue ++ c ∷ [] }))
    × ((q : ℕ) (e : TcpEndpoint)
        → at t.endpoints q ≡ some e
        → ¬ (k ≡ q)
        → at t'.endpoints q ≡ some e)
