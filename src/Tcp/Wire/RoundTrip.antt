-- ===== src/Tcp/Wire/RoundTrip.antt =====
-- A segment arrives as it was sent.
use Prim.Native.Nat.{bit_and, bit_or}
use rustos.Prelude.{
  ℕ, zero, suc, ◌+◌, ◌*◌, ◌/◌, ◌%◌, ◌^◌, ◌≤◌, ◌<◌, ◌≡◌, refl, ap, ◌∙◌, List, [], ◌∷◌, ◌++◌, some,
  Bool, true, ◌&&◌, length, take, drop, lt→ltb, ◌==◌, ==_iff, done, arith,
}
use rustos.Tcp.Segment.{Ipv4Addr, Segment}
use rustos.Tcp.Wire.{
  packet, read_packet, parse_tcp, sum_words, fold_carries, checksum_of, compute_checksum, tcp_sum,
  ip_bytes, tcp_bytes, octets, ip_total, nonzero, from_be16, from_be32, byte, ip_at, complement,
}

abbrev pub IsIp : Ipv4Addr → Type 0
IsIp ip = (ip.b0 < 256) × (ip.b1 < 256) × (ip.b2 < 256) × (ip.b3 < 256)

abbrev pub IsBytes : List ℕ → Type 0
IsBytes [] = Unit
IsBytes (b ∷ bs) = (b < 256) × IsBytes bs

-- Fields within their types, no flags but the six lowest, and a payload that fits a packet.
abbrev pub IsSegment : Segment → Type 0
IsSegment s =
    IsIp s.src.ip
    × IsIp s.dst.ip
    × (s.src.port < 2 ^ 16)
    × (s.dst.port < 2 ^ 16)
    × (s.seq < 2 ^ 32)
    × (s.ack < 2 ^ 32)
    × (s.flags < 2 ^ 6)
    × IsBytes s.payload
    × (length s.payload ≤ 65495)

all_below : ℕ → (ℕ → Bool) → Bool
all_below zero p = true
all_below (suc n) p = p n && all_below n p

all_below_holds : (n : ℕ) (p : ℕ → Bool) (x : ℕ) → all_below n p ≡ true → x < n → p x ≡ true
unfolding all_below
all_below_holds zero p x h lt = absurd (omega arith)
all_below_holds (suc n) p x h lt = ground (arith, all_below_holds n p x)

-- The header length and the flags share two bytes.
flags_table : all_below 64 (λ f. bit_or (5 * 2 ^ 12) f == 20480 + f) ≡ true
unfolding all_below
flags_table = refl

mask_table : all_below 64 (λ f. bit_and (20480 + f) 0x3f == f) ≡ true
unfolding all_below
mask_table = refl

flags_or : (f : ℕ) → f < 2 ^ 6 → bit_or (5 * 2 ^ 12) f ≡ 20480 + f
flags_or f lt = (==_iff _ _).0 (all_below_holds 64 _ f flags_table lt)

flags_and : (f : ℕ) → f < 2 ^ 6 → bit_and (20480 + f) 0x3f ≡ f
flags_and f lt = (==_iff _ _).0 (all_below_holds 64 _ f mask_table lt)

sum_words_bound : (bs : List ℕ) → IsBytes bs → sum_words bs ≤ 65535 * length bs
unfolding sum_words
sum_words_bound [] h = omega arith
sum_words_bound (b ∷ []) h = omega arith
sum_words_bound (b ∷ c ∷ bs) (hb, (hc, h)) = omega (arith, sum_words_bound bs h)

IsBytes-append : (xs ys : List ℕ) → IsBytes xs → IsBytes ys → IsBytes (xs ++ ys)
IsBytes-append [] ys h g = g
IsBytes-append (x ∷ xs) ys (h, hs) g = (h, IsBytes-append xs ys hs g)

-- What the header is read as, when its length field says 20 bytes.
abbrev read_header : Ipv4Addr → Ipv4Addr → List ℕ → Segment
read_header src dst bytes = record {
  src = record { ip = src; port = from_be16 bytes 0 };
  dst = record { ip = dst; port = from_be16 bytes 2 };
  seq = from_be32 bytes 4;
  ack = from_be32 bytes 8;
  flags = bit_and (from_be16 bytes 12) 0x3f;
  payload = drop 20 bytes;
}

parse_tcp_lem :
    (src dst : Ipv4Addr) (bytes : List ℕ)
    → 20 ≤ length bytes
    → from_be16 bytes 12 / 2 ^ 12 % 16 * 4 ≡ 20
    → parse_tcp src dst bytes ≡ some (read_header src dst bytes)
unfolding parse_tcp
parse_tcp_lem src dst bytes enough offset = rw (offset) (ground arith)

be16_value : (v : ℕ) → v < 2 ^ 16 → v / 256 % 256 * 256 + v % 256 ≡ v
be16_value v h = omega arith

be32_value :
    (v : ℕ)
    → v < 2 ^ 32
    → v / 2 ^ 24 % 256 * 2 ^ 24 + v / 2 ^ 16 % 256 * 2 ^ 16 + v / 256 % 256 * 256 + v % 256 ≡ v
be32_value v h = omega arith

take-all : (n : ℕ) (xs : List ℕ) → length xs ≤ n → take n xs ≡ xs
take-all zero [] h = refl
take-all (suc n) [] h = refl
take-all zero (x ∷ xs) h = absurd (omega arith)
take-all (suc n) (x ∷ xs) h = ap (λ (l : List ℕ). x ∷ l) (take-all n xs (omega arith))

checksum_of_lem : (sum : ℕ) → sum < 2 ^ 32 → (c : ℕ) × (checksum_of sum ≡ done c)
unfolding checksum_of
checksum_of_lem sum h = (complement (fold_carries 3 sum), ground arith)

-- A whole TCP packet, as the length field says.
read_packet_lem :
    (bytes : List ℕ) (total : ℕ)
    → from_be16 bytes 2 ≡ total
    → (total ≡ length bytes) × (20 ≤ total)
    → byte bytes 9 ≡ 6
    → read_packet bytes ≡ done (parse_tcp (ip_at bytes 12) (ip_at bytes 16) (drop 20 bytes))
unfolding read_packet
read_packet_lem bytes total e (whole, enough) tcp =
    rw (e, tcp, take-all total bytes (omega arith)) (ground arith)

module _ (s : Segment) (fits : IsSegment s) where
  tcp_bytes-IsBytes : (c : ℕ) → IsBytes (tcp_bytes s c ++ s.payload)
  tcp_bytes-IsBytes c = IsBytes-append (tcp_bytes s c) s.payload (ground arith) (fits.7)

  tcp_sum_bound : tcp_sum s < 2 ^ 32
  unfolding tcp_sum
  tcp_sum_bound = omega (
    arith,
    sum_words_bound (octets s.src.ip) (ground arith),
    sum_words_bound (octets s.dst.ip) (ground arith),
    sum_words_bound (tcp_bytes s 0 ++ s.payload) (tcp_bytes-IsBytes 0),
  )

  ip_sum_bound : sum_words (ip_bytes s (ip_total s) 0) < 2 ^ 32
  ip_sum_bound = omega (arith, sum_words_bound (ip_bytes s (ip_total s) 0) (ground arith))

  read_header-tcp_bytes : (c : ℕ) → read_header s.src.ip s.dst.ip (tcp_bytes s c ++ s.payload) ≡ s
  read_header-tcp_bytes c =
      let or = flags_or s.flags (omega arith) in
      let src_port = be16_value s.src.port (omega arith) in
      let dst_port = be16_value s.dst.port (omega arith) in
      let seq = be32_value s.seq (omega arith) in
      let ack = be32_value s.ack (omega arith) in
      let word = be16_value (bit_or (5 * 2 ^ 12) s.flags) (omega (arith, or)) in
      let flags = ap (λ w. bit_and w 0x3f) (word ∙ or) ∙ flags_and s.flags (omega arith) in
      λ i. record {
        src = record { ip = s.src.ip; port = src_port i };
        dst = record { ip = s.dst.ip; port = dst_port i };
        seq = seq i;
        ack = ack i;
        flags = flags i;
        payload = s.payload;
      }

  parse_tcp-tcp_bytes : (c : ℕ) → parse_tcp s.src.ip s.dst.ip (tcp_bytes s c ++ s.payload) ≡ some s
  parse_tcp-tcp_bytes c =
      let e = flags_or s.flags (omega arith) in
      parse_tcp_lem s.src.ip s.dst.ip (tcp_bytes s c ++ s.payload) (omega arith) (omega (arith, e))
      ∙ ap some (read_header-tcp_bytes c)

  read_packet-ip_bytes :
      (c d : ℕ)
      → read_packet (ip_bytes s (ip_total s) c ++ tcp_bytes s d ++ s.payload) ≡ done (some s)
  read_packet-ip_bytes c d =
      let whole = ip_bytes s (ip_total s) c ++ tcp_bytes s d ++ s.payload in
      let total : from_be16 whole 2 ≡ 40 + length s.payload =
        be16_value (ip_total s) (omega arith) ∙ omega arith in
      read_packet_lem whole (40 + length s.payload) total (omega arith) refl
      ∙ ap done (parse_tcp-tcp_bytes d)

packet_lem :
    (s : Segment) (c d : ℕ)
    → ip_total s < 2 ^ 16
    → compute_checksum (ip_bytes s (ip_total s) 0) ≡ done c
    → checksum_of (tcp_sum s) ≡ done d
    → packet s ≡ done (ip_bytes s (ip_total s) c ++ tcp_bytes s (nonzero d) ++ s.payload)
unfolding packet
packet_lem s c d short ec ed = rw (ec, ed, lt→ltb (ip_total s) (2 ^ 16) short) refl

-- A segment with no flags but the six lowest, whose other fields fit their types and with at most
-- 65,495 bytes of payload, is written as a packet without a panic, and the receiver reads that packet as the segment that was sent.
pub packet-read_packet :
    (s : Segment)
    → IsSegment s
    → (bytes : List ℕ) × (packet s ≡ done bytes) × (read_packet bytes ≡ done (some s))
unfolding compute_checksum
packet-read_packet s fits =
    let (c, ec) = checksum_of_lem (sum_words (ip_bytes s (ip_total s) 0)) (ip_sum_bound s fits) in
    let (d, ed) = checksum_of_lem (tcp_sum s) (tcp_sum_bound s fits) in
    (
      ip_bytes s (ip_total s) c ++ tcp_bytes s (nonzero d) ++ s.payload,
      packet_lem s c d (omega arith) ec ed,
      read_packet-ip_bytes s fits c (nonzero d),
    )
