-- ===== src/Tcp/Calls/Connecting.antt =====
-- `connect` over the loopback interface to an address that a listener of the table has: the
-- handshake from the table before to the table after.
use rustos.Prelude.{
  ℕ, suc, ◌+◌, ◌%◌, ◌^◌, ◌<◌, ◌≡◌, ◌≢◌, refl, sym, ap, ◌∙◌, List, [], ◌∷◌, ◌++◌, Option, some, Bool,
  true, false, ◌&&◌, ◌==◌, ==-refl, arith,
}
use rustos.Tcp.Segment.{
  SocketAddrV4, Segment, is_loopback, addr_eq, addr_ne, addr_eq_refl, syn_flag, syn_ack, ack_flag,
}
use rustos.Tcp.Endpoint.{
  TcpEndpoint, syn_sent, syn_rcvd, established, new_active, new_child_for_syn,
}
use rustos.Tcp.Input.Exchange.{process_segment-syn_ack, process_segment-last_ack}
use rustos.Tcp.Sequence.{bit_xor-lt}
use rustos.Tcp.Table.{
  TcpTable, at, find, first_free, put, allocate, connects, listens_at, find_endpoint, find_listener,
}
use rustos.Tcp.Table.Slots.{
  at-put_new, at-put_kept, at-put_first_new, at-put_first_kept, first_free_ne, Nowhere, OnlyAt,
  OnlyAt-put, OnlyAt-put_first, OnlyAt-put_first_other, Nowhere-put_first, find-put_first,
  find-none, find-some,
}
use rustos.Tcp.Wire.RoundTrip.{IsIp}
use rustos.Tcp.Emit.{emit, answer, completed, ignore, requeue, queue_child}
use rustos.Tcp.Emit.Steps.{emit_syn, emit_answered, emit_silent}
use rustos.Tcp.Calls.Sending.{Linked}

-- The address is on the loopback network, its fields within their types.
abbrev pub IsPeer : SocketAddrV4 → Type 0
IsPeer addr = IsIp addr.ip × (addr.port < 2 ^ 16) × (is_loopback addr.ip ≡ true)

and_false : (b : Bool) → (b && false) ≡ false
and_false true = refl
and_false false = refl

-- Endpoints whose remote address is another one.
not-connects :
    (l r : SocketAddrV4) (ep : TcpEndpoint) → addr_eq ep.remote r ≡ false → connects l r ep ≡ false
not-connects l r ep e =
    ap (λ c. (ep.local.port == l.port) && c) e ∙ and_false (ep.local.port == l.port)

module _ (now : ℕ) (slots : List (Option TcpEndpoint)) (local remote : SocketAddrV4) (k : ℕ)
    (listener : TcpEndpoint) (there : at slots k ≡ some listener)
    (listens : find (listens_at remote) slots ≡ some k) (other : local ≢ remote)
    (fresh : Nowhere (connects local remote) slots × Nowhere (connects remote local) slots) where
  abbrev client : TcpEndpoint
  client = new_active now local remote

  abbrev pub h : ℕ
  h = first_free slots

  abbrev with_client : List (Option TcpEndpoint)
  with_client = put slots h client

  abbrev pub child : TcpEndpoint
  child = new_child_for_syn now remote local client.snd_una

  abbrev pub c : ℕ
  c = first_free with_client

  abbrev with_child : List (Option TcpEndpoint)
  with_child = put with_client c child

  abbrev pub queued : TcpEndpoint
  queued = record listener { accept_queue = listener.accept_queue ++ c ∷ [] }

  abbrev pub waiting : List (Option TcpEndpoint)
  waiting = put with_child k queued

  abbrev pub client' : TcpEndpoint
  client' = record client {
    snd_una = child.rcv_nxt;
    rcv_nxt = (child.snd_una + 1) % 2 ^ 32;
    state = established;
  }

  abbrev pub child' : TcpEndpoint
  child' = record child {
    snd_una = client'.rcv_nxt;
    snd_nxt = client'.rcv_nxt;
    state = established;
  }

  abbrev half_open : List (Option TcpEndpoint)
  half_open = put waiting h client'

  abbrev pub opened : List (Option TcpEndpoint)
  opened = put half_open c child'

  at-k : at with_child k ≡ some listener
  at-k =
      at-put_first_kept with_client child k listener
        (at-put_first_kept slots client k listener there)

  h-ne-c : ¬ (c ≡ h)
  h-ne-c = first_free_ne with_client h client (at-put_first_new slots client)

  h-ne-k : ¬ (h ≡ k)
  h-ne-k = first_free_ne slots k listener there

  c-ne-k : ¬ (c ≡ k)
  c-ne-k = first_free_ne with_client k listener (at-put_first_kept slots client k listener there)

  at-h : at waiting h ≡ some client
  at-h =
      at-put_kept with_child k listener queued h client at-k (λ e. h-ne-k (sym e))
        (at-put_first_kept with_client child h client (at-put_first_new slots client))

  at-c : at half_open c ≡ some child
  at-c =
      at-put_kept waiting h client client' c child at-h (λ e. h-ne-c (sym e))
        (at-put_kept with_child k listener queued c child at-k (λ e. c-ne-k (sym e))
          (at-put_first_new with_client child))

  client_not : connects remote local client ≡ false
  unfolding new_active
  client_not = not-connects remote local client (addr_ne remote local (λ e. other (sym e)))

  child_not : connects local remote child ≡ false
  unfolding new_child_for_syn
  child_not = not-connects local remote child (addr_ne local remote other)

  client_silent : listens_at remote client ≡ false
  unfolding new_active
  client_silent = refl

  client_is : connects local remote client ≡ true
  unfolding new_active
  client_is = rw (==-refl local.port, addr_eq_refl remote) refl

  child_is : connects remote local child ≡ true
  unfolding new_child_for_syn
  child_is = rw (==-refl remote.port, addr_eq_refl local) refl

  client_state : client.state ≡ syn_sent
  unfolding new_active
  client_state = refl

  child_state : child.state ≡ syn_rcvd
  unfolding new_child_for_syn
  child_state = refl

  child_next : (child.snd_una + 1) % 2 ^ 32 ≡ (child.snd_nxt + 1) % 2 ^ 32
  unfolding new_child_for_syn
  child_next = refl

  listens_after : find (listens_at remote) with_child ≡ some k
  unfolding new_active new_child_for_syn
  listens_after =
      find-put_first (listens_at remote) with_client child refl
      ∙ find-put_first (listens_at remote) slots client refl
      ∙ listens

  only-client : OnlyAt (connects local remote) waiting h
  only-client = OnlyAt-put (connects local remote) with_child k h listener queued at-k refl (
      OnlyAt-put_first_other (connects local remote) with_client child h
        (OnlyAt-put_first (connects local remote) slots client fresh.0) child_not)

  only-child : OnlyAt (connects remote local) half_open c
  unfolding new_active
  only-child = OnlyAt-put (connects remote local) waiting h c client client' at-h refl (
      OnlyAt-put (connects remote local) with_child k c listener queued at-k refl (
        OnlyAt-put_first (connects remote local) with_client child
          (Nowhere-put_first (connects remote local) slots client fresh.1 client_not)))

  -- Endpoints that were there stay as they are, but for the listener.
  pub opened_kept :
      (q : ℕ) (e : TcpEndpoint) → at slots q ≡ some e → ¬ (k ≡ q) → at opened q ≡ some e
  opened_kept q e here ne =
      let first = at-put_first_kept slots client q e here in
      let in_child = at-put_first_kept with_client child q e first in
      let in_waiting = at-put_kept with_child k listener queued q e at-k ne in_child in
      at-put_kept half_open c child child' q e at-c (first_free_ne with_client q e first)
        (at-put_kept waiting h client client' q e at-h (first_free_ne slots q e here) in_waiting)

  pub opened_listener : at opened k ≡ some queued
  opened_listener = at-put_kept half_open c child child' k queued at-c c-ne-k (
      at-put_kept waiting h client client' k queued at-h h-ne-k
        (at-put_new with_child k listener queued at-k))

  pub Linked-opened :
      (t : TcpTable)
      → IsPeer local
      → IsPeer remote
      → Linked (record t { endpoints = opened }) h client' c child'
  unfolding new_active new_child_for_syn
  Linked-opened t lo re = (
    λ e. h-ne-c (sym e),
    (
      at-put_new half_open c child child' at-c,
      refl,
      refl,
      OnlyAt-put (connects remote local) half_open c c child child' at-c refl only-child,
      (refl, refl, omega arith, omega arith),
      (re.0, re.1, re.2, omega arith, omega arith),
    ),
    (
      at-put_kept half_open c child child' h client' at-c h-ne-c
          (at-put_new waiting h client client' at-h),
      refl,
      refl,
      OnlyAt-put (connects local remote) half_open c h child child' at-c refl
          (OnlyAt-put (connects local remote) waiting h h client client' at-h refl only-client),
      (refl, refl, omega arith, omega arith),
      (lo.0, lo.1, lo.2, omega arith, omega arith),
    ),
  )

  module _ (port : ℕ) (lo : IsPeer local) (re : IsPeer remote) where
    abbrev table_of : List (Option TcpEndpoint) → TcpTable
    table_of slots = record { endpoints = slots; next_ephemeral_port = port }

    abbrev pub first : Segment
    first = record {
      src = local;
      dst = remote;
      seq = client.snd_una;
      ack = 0;
      flags = syn_flag;
      payload = [];
    }

    abbrev second : Segment
    second = answer remote local (child.snd_una, child.rcv_nxt, syn_ack)

    abbrev third : Segment
    third = answer local remote (client.snd_nxt, (child.snd_una + 1) % 2 ^ 32, ack_flag)

    client_bound : client.snd_una < 2 ^ 32
    unfolding new_active
    client_bound = bit_xor-lt 32 (now % 2 ^ 32) 0xcafe_babe (omega arith) (omega arith)

    child_bound : child.snd_una < 2 ^ 32
    unfolding new_child_for_syn
    child_bound = bit_xor-lt 32 (now % 2 ^ 32) 0x1234_5678 (omega arith) (omega arith)

    more_bounds : (client.snd_nxt < 2 ^ 32) × (child.rcv_nxt < 2 ^ 32)
    unfolding new_active new_child_for_syn
    more_bounds = (omega arith, omega arith)

    -- The SYN reaches the listener.
    syn_arrives :
        (rounds : ℕ)
        → emit (suc rounds) now true (table_of with_client) first
          ≡ ignore (emit rounds now true (table_of waiting) second)
    unfolding find_endpoint find_listener allocate
    syn_arrives rounds =
        emit_syn rounds now (table_of with_client) first k
          (lo.0, re.0, lo.1, re.1, client_bound, omega arith, omega arith, tt, omega arith) re.2
          refl
          (find-none (connects remote local) with_client
            (Nowhere-put_first (connects remote local) slots client fresh.1 client_not))
          (find-put_first (listens_at remote) slots client client_silent ∙ listens)
        ∙ ap (λ o. ignore (emit rounds now true (requeue c (table_of with_child) o) second))
            listens_after
        ∙ ap (λ o. ignore (emit rounds now true (queue_child c (table_of with_child) k o) second))
            at-k

    -- The SYN and ACK reaches the client.
    syn_ack_arrives :
        (rounds : ℕ)
        → emit (suc rounds) now true (table_of waiting) second
          ≡ ignore (emit rounds now true (table_of half_open) third)
    unfolding find_endpoint
    syn_ack_arrives rounds =
        emit_answered now (table_of waiting) second h client client'
          (find-some (connects local remote) waiting h client at-h client_is only-client) at-h
          rounds (re.0, lo.0, re.1, lo.1, child_bound, more_bounds.1, omega arith, tt, omega arith)
          lo.2 (client.snd_nxt, (child.snd_una + 1) % 2 ^ 32, ack_flag)
          (process_segment-syn_ack now remote local child.snd_una child.rcv_nxt client client_state)

    -- The last ACK reaches the new endpoint.
    ack_arrives :
        (rounds : ℕ)
        → emit (suc rounds) now true (table_of half_open) third ≡ completed true (table_of opened)
    unfolding find_endpoint
    ack_arrives rounds =
        emit_silent now (table_of half_open) third c child child'
          (find-some (connects remote local) half_open c child at-c child_is only-child) at-c rounds
          (lo.0, re.0, lo.1, re.1, more_bounds.0, omega arith, omega arith, tt, omega arith) re.2
          (process_segment-last_ack now local remote client.snd_nxt ((child.snd_una + 1) % 2 ^ 32)
            child child_state child_next)

    pub shakes_hands :
        (rounds : ℕ)
        → emit (suc (suc (suc rounds))) now true (table_of with_client) first
          ≡ completed true (table_of opened)
    shakes_hands rounds =
        syn_arrives (suc (suc rounds))
        ∙ ap ignore (syn_ack_arrives (suc rounds) ∙ ap ignore (ack_arrives rounds))
