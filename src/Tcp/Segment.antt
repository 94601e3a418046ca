-- ===== src/Tcp/Segment.antt =====
-- Addresses (src/net/mod.rs), segments, and the flags of a TCP header.
use Prim.Native.Nat.{bit_and}
use rustos.Prelude.{
  ℕ, ◌≡◌, ◌↔◌, ◌≢◌, subst, List, Bool, true, false, Bool-cases, inl, inr, not, ◌&&◌, ◌==◌, arith,
}

pub record Ipv4Addr : Type 0 where
  pub b0 : ℕ
  pub b1 : ℕ
  pub b2 : ℕ
  pub b3 : ℕ

abbrev pub localhost : Ipv4Addr
localhost = record { b0 = 127; b1 = 0; b2 = 0; b3 = 1 }

abbrev pub any : Ipv4Addr
any = record { b0 = 0; b1 = 0; b2 = 0; b3 = 0 }

abbrev pub is_loopback : Ipv4Addr → Bool
is_loopback ip = ip.b0 == 127

abbrev pub ip_eq : Ipv4Addr → Ipv4Addr → Bool
ip_eq p q = (p.b0 == q.b0) && (p.b1 == q.b1) && (p.b2 == q.b2) && (p.b3 == q.b3)

abbrev pub is_unspecified : Ipv4Addr → Bool
is_unspecified ip = ip_eq ip any

pub record SocketAddrV4 : Type 0 where
  pub ip : Ipv4Addr
  pub port : ℕ

abbrev pub addr_eq : SocketAddrV4 → SocketAddrV4 → Bool
addr_eq a b = ip_eq a.ip b.ip && (a.port == b.port)

abbrev pub fin_flag : ℕ
fin_flag = 0x01

abbrev pub syn_flag : ℕ
syn_flag = 0x02

abbrev pub rst_flag : ℕ
rst_flag = 0x04

abbrev pub syn_ack : ℕ
syn_ack = 0x12

abbrev pub fin_ack : ℕ
fin_ack = 0x11

abbrev pub rst_ack : ℕ
rst_ack = 0x14

abbrev pub ack_psh : ℕ
ack_psh = 0x18

abbrev pub ack_flag : ℕ
ack_flag = 0x10

-- `flags & flag != 0`
abbrev pub has_flag : ℕ → ℕ → Bool
has_flag flags flag = not (bit_and flags flag == 0)

-- What a call of `emit` is given, and what the receiver reads from the packet.
pub record Segment : Type 0 where
  pub src : SocketAddrV4
  pub dst : SocketAddrV4
  pub seq : ℕ
  pub ack : ℕ
  pub flags : ℕ
  pub payload : List ℕ

pub addr_eq_refl : (a : SocketAddrV4) → addr_eq a a ≡ true
addr_eq_refl a = ground arith

addr_parts :
    (a b : SocketAddrV4)
    → addr_eq a b ≡ true
    → (a.ip.b0 ≡ b.ip.b0)
      × (a.ip.b1 ≡ b.ip.b1)
      × (a.ip.b2 ≡ b.ip.b2)
      × (a.ip.b3 ≡ b.ip.b3)
      × (a.port ≡ b.port)
addr_parts a b e = (ground arith, ground arith, ground arith, ground arith, ground arith)

addr_eq_iff : (a b : SocketAddrV4) → (addr_eq a b ≡ true) ↔ (a ≡ b)
addr_eq_iff a b = (
  λ e.
      let (e0, e1, e2, e3, ep) = addr_parts a b e in
      λ i. record { ip = record { b0 = e0 i; b1 = e1 i; b2 = e2 i; b3 = e3 i }; port = ep i },
  λ e. subst (λ c. addr_eq a c ≡ true) e (addr_eq_refl a),
)

pub addr_ne : (a b : SocketAddrV4) → a ≢ b → addr_eq a b ≡ false
addr_ne a b ne = elim (Bool-cases (addr_eq a b)) [
  | inl e ↦ absurd (ne ((addr_eq_iff a b).0 e))
  | inr e ↦ e
]
