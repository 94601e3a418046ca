-- ===== src/Tcp/Table.antt =====
-- The table of endpoints of src/net/tcp.rs.
pub mod Slots
use mathlib.Core.Option
use rustos.Prelude.{
  ℕ, zero, suc, ◌+◌, List, [], ◌∷◌, ◌++◌, Option, none, some, Bool, true, false, ◌&&◌, ◌||◌, length,
  get_elem?, set, leb, ◌==◌, if◌then◌else◌,
}
use rustos.Tcp.Segment.{SocketAddrV4, ip_eq, is_unspecified, addr_eq}
use rustos.Tcp.Endpoint.{TcpEndpoint, TcpState, listen}

pub record TcpTable : Type 0 where
  pub endpoints : List (Option TcpEndpoint)
  pub next_ephemeral_port : ℕ

unfoldable pub new : TcpTable
new = record { endpoints = []; next_ephemeral_port = 49152 }

-- The endpoint behind a handle.
unfoldable pub at : List (Option TcpEndpoint) → ℕ → Option TcpEndpoint
at [] h = none
at (slot ∷ slots) zero = slot
at (slot ∷ slots) (suc h) = at slots h

-- The first free slot, or a new one.
unfoldable pub first_free : List (Option TcpEndpoint) → ℕ
first_free [] = 0
first_free (none ∷ slots) = 0
first_free (some ep ∷ slots) = suc (first_free slots)

unfoldable pub put : List (Option TcpEndpoint) → ℕ → TcpEndpoint → List (Option TcpEndpoint)
put [] h ep = some ep ∷ []
put (slot ∷ slots) zero ep = some ep ∷ slots
put (slot ∷ slots) (suc h) ep = slot ∷ put slots h ep

-- The handle is `first_free`.
unfoldable pub allocate : TcpTable → TcpEndpoint → TcpTable
unfolding first_free put
allocate t ep = record t { endpoints = put t.endpoints (first_free t.endpoints) ep }

unfoldable pub pick_ephemeral_port : TcpTable → ℕ × TcpTable
pick_ephemeral_port t =
    let p = t.next_ephemeral_port in
    (p, record t { next_ephemeral_port = if leb 65000 p then 49152 else p + 1 })

abbrev pub is_listen : TcpState → Bool
is_listen listen = true
is_listen _ = false

abbrev pub listens_at : SocketAddrV4 → TcpEndpoint → Bool
listens_at local ep =
    is_listen ep.state
    && (is_unspecified ep.local.ip || ip_eq ep.local.ip local.ip)
    && (ep.local.port == local.port)

abbrev pub connects : SocketAddrV4 → SocketAddrV4 → TcpEndpoint → Bool
connects local remote ep = (ep.local.port == local.port) && addr_eq ep.remote remote

-- The handle of the first endpoint that passes a test.
unfoldable pub find : (TcpEndpoint → Bool) → List (Option TcpEndpoint) → Option ℕ
find test [] = none
find test (none ∷ slots) = Option.map suc (find test slots)
find test (some ep ∷ slots) =
    let rest = Option.map suc (find test slots) in if test ep then some 0 else rest

unfoldable pub find_listener : TcpTable → SocketAddrV4 → Option ℕ
unfolding find
find_listener t local = find (listens_at local) t.endpoints

unfoldable pub find_endpoint : TcpTable → SocketAddrV4 → SocketAddrV4 → Option ℕ
unfolding find
find_endpoint t local remote = find (connects local remote) t.endpoints
