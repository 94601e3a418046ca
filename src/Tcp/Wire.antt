-- ===== src/Tcp/Wire.antt =====
-- Segments as bytes: the packet that `emit` of src/net/tcp.rs builds, with the IPv4 header of
-- src/net/ip.rs, and how `ipv4_input` of src/net/socket.rs and `TcpHeader::parse` read it.
pub mod RoundTrip
use Prim.Native.Nat.{bit_and, bit_or}
use rustos.Prelude.{
  ℕ, zero, suc, ◌+◌, ◌-◌, ◌*◌, ◌/◌, ◌%◌, ◌^◌, List, [], ◌∷◌, ◌++◌, Option, none, some, Bool, length,
  get_or, take, drop, ltb, ◌==◌, if◌then◌else◌, Run, done, panic, ◌>>=◌,
}
use rustos.Tcp.Segment.{Ipv4Addr, SocketAddrV4, Segment}

-- `to_be_bytes` of a `u16` and of a `u32`.
abbrev be16 : ℕ → List ℕ
be16 v = v / 256 % 256 ∷ v % 256 ∷ []

abbrev be32 : ℕ → List ℕ
be32 v = v / 2 ^ 24 % 256 ∷ v / 2 ^ 16 % 256 ∷ v / 256 % 256 ∷ v % 256 ∷ []

abbrev octets : Ipv4Addr → List ℕ
octets ip = ip.b0 ∷ ip.b1 ∷ ip.b2 ∷ ip.b3 ∷ []

-- The loops of both checksums: the sum of the 16-bit words, a last odd byte being a high one.
sum_words : List ℕ → ℕ
sum_words [] = 0
sum_words (b ∷ []) = b * 256
sum_words (b ∷ c ∷ bs) = b * 256 + c + sum_words bs

-- `while (sum >> 16) != 0 { sum = (sum & 0xFFFF) + (sum >> 16) }`; three rounds are enough.
fold_carries : ℕ → ℕ → ℕ
fold_carries zero sum = sum
fold_carries (suc rounds) sum =
    let folded = fold_carries rounds (sum % 2 ^ 16 + sum / 2 ^ 16) in
    if sum / 2 ^ 16 == 0 then sum else folded

-- `!(sum as u16)`
abbrev complement : ℕ → ℕ
complement sum = 2 ^ 16 - 1 - sum % 2 ^ 16

-- A sum of `u32`s traps from 2 ^ 32.
pub checksum_of : ℕ → Run ℕ
unfolding fold_carries
checksum_of sum = if ltb sum (2 ^ 32) then done (complement (fold_carries 3 sum)) else panic

pub compute_checksum : List ℕ → Run ℕ
unfolding checksum_of sum_words
compute_checksum bytes = checksum_of (sum_words bytes)

-- `Ipv4Header::new` and `write_to`, with the checksum.
abbrev ip_bytes : Segment → ℕ → ℕ → List ℕ
ip_bytes s total checksum =
    0x45 ∷ 0 ∷ be16 total
    ++ be16 0
    ++ be16 0x4000
    ++ 64 ∷ 6 ∷ be16 checksum
    ++ octets s.src.ip
    ++ octets s.dst.ip

-- `TcpHeader::write_to`
abbrev tcp_bytes : Segment → ℕ → List ℕ
tcp_bytes s checksum =
    be16 s.src.port
    ++ be16 s.dst.port
    ++ be32 s.seq
    ++ be32 s.ack
    ++ be16 (bit_or (5 * 2 ^ 12) s.flags)
    ++ be16 0xffff
    ++ be16 checksum
    ++ be16 0

-- The sum with the pseudo-header.
pub tcp_sum : Segment → ℕ
unfolding sum_words
tcp_sum s =
    sum_words (octets s.src.ip)
    + sum_words (octets s.dst.ip)
    + 6
    + (20 + length s.payload)
    + sum_words (tcp_bytes s 0 ++ s.payload)

abbrev nonzero : ℕ → ℕ
nonzero checksum = if checksum == 0 then 0xffff else checksum

abbrev ip_total : Segment → ℕ
ip_total s = 20 + (20 + length s.payload) % 2 ^ 16

-- The packet that `emit` hands to the interface.
unfoldable pub packet : Segment → Run (List ℕ)
packet s =
    if ltb (ip_total s) (2 ^ 16)
    then (compute_checksum (ip_bytes s (ip_total s) 0) >>= λ ip_checksum.
        checksum_of (tcp_sum s) >>= λ checksum.
        done (ip_bytes s (ip_total s) ip_checksum ++ tcp_bytes s (nonzero checksum) ++ s.payload))
    else panic

abbrev byte : List ℕ → ℕ → ℕ
byte bytes i = get_or bytes i 0

abbrev from_be16 : List ℕ → ℕ → ℕ
from_be16 bytes i = byte bytes i * 256 + byte bytes (i + 1)

abbrev from_be32 : List ℕ → ℕ → ℕ
from_be32 bytes i =
    byte bytes i * 2 ^ 24
    + byte bytes (i + 1) * 2 ^ 16
    + byte bytes (i + 2) * 256
    + byte bytes (i + 3)

abbrev ip_at : List ℕ → ℕ → Ipv4Addr
ip_at bytes i = record {
  b0 = byte bytes i;
  b1 = byte bytes (i + 1);
  b2 = byte bytes (i + 2);
  b3 = byte bytes (i + 3);
}

-- `TcpHeader::parse` and the start of `tcp_input`, on the bytes after the IPv4 header.
parse_tcp : Ipv4Addr → Ipv4Addr → List ℕ → Option Segment
parse_tcp src dst bytes =
    let offset = from_be16 bytes 12 / 2 ^ 12 % 16 * 4 in
    if ltb (length bytes) 20
    then none
    else if ltb (length bytes) offset
    then none
    else some (record {
      src = record { ip = src; port = from_be16 bytes 0 };
      dst = record { ip = dst; port = from_be16 bytes 2 };
      seq = from_be32 bytes 4;
      ack = from_be32 bytes 8;
      flags = bit_and (from_be16 bytes 12) 0x3f;
      payload = drop offset bytes;
    })

-- `ipv4_input`, for the protocol TCP: the slice `packet[20..total_length]` panics on a total
-- length below 20.
unfoldable pub read_packet : List ℕ → Run (Option Segment)
unfolding parse_tcp
read_packet bytes =
    let total = from_be16 bytes 2 in
    if ltb (length bytes) 20
    then done none
    else if ltb (length bytes) total
    then done none
    else if byte bytes 9 == 6
    then (if ltb total 20
        then panic
        else done (parse_tcp (ip_at bytes 12) (ip_at bytes 16) (drop 20 (take total bytes))))
    else done none
