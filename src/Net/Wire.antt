-- ===== src/Net/Wire.antt =====
-- The frames of IPv4 and TCP, written out as bytes: what the parser is measured against.
use tapgres.Prelude.{
  ℕ, ◌+◌, ◌*◌, ◌/◌, ◌%◌, ◌^◌, ◌≤◌, ◌<◌, ◌≡◌, Bool, ◌∷◌, ◌++◌, length, if◌then◌else◌,
}
use tapgres.Bytes.{Bytes}
use tapgres.Net.{
  TcpSegment, v4, dlt_null, dlt_en10mb, dlt_raw, dlt_raw_old, dlt_linux_sll, dlt_linux_sll2,
  dlt_ipv4, dlt_ipv6,
}

-- All fields of an IPv4 packet that carries TCP, those that the parser skips included. The words
-- count the four-byte units of the options.
pub record Packet : Type 0 where
  pub s0 : ℕ
  pub s1 : ℕ
  pub s2 : ℕ
  pub s3 : ℕ
  pub d0 : ℕ
  pub d1 : ℕ
  pub d2 : ℕ
  pub d3 : ℕ
  pub tos : ℕ
  pub id : ℕ
  pub fragment : ℕ
  pub ttl : ℕ
  pub ip_checksum : ℕ
  pub ip_words : ℕ
  pub ip_options : Bytes
  pub src_port : ℕ
  pub dst_port : ℕ
  pub seq : ℕ
  pub ack : ℕ
  pub reserved : ℕ
  pub fin : Bool
  pub syn : Bool
  pub rst : Bool
  pub other_flags : ℕ
  pub window : ℕ
  pub tcp_checksum : ℕ
  pub urgent : ℕ
  pub tcp_words : ℕ
  pub tcp_options : Bytes
  pub payload : Bytes

abbrev pub total_len : Packet → ℕ
total_len p = 40 + 4 * p.ip_words + 4 * p.tcp_words + length p.payload

-- The fields fit their places in the headers.
pub record IsWire (p : Packet) : Type 0 where
  pub src_port : p.src_port < 2 ^ 16
  pub dst_port : p.dst_port < 2 ^ 16
  pub seq : p.seq < 2 ^ 32
  pub ack : p.ack < 2 ^ 32
  pub reserved : p.reserved < 16
  pub ip_words : p.ip_words ≤ 10
  pub tcp_words : p.tcp_words ≤ 10
  pub ip_options : length p.ip_options ≡ 4 * p.ip_words
  pub tcp_options : length p.tcp_options ≡ 4 * p.tcp_words
  pub total : total_len p < 2 ^ 16

abbrev pub bit : Bool → ℕ
bit b = if b then 1 else 0

abbrev pub encode_tcp : Packet → Bytes
encode_tcp p =
    (p.src_port / 256)
    ∷ (p.src_port % 256)
    ∷ (p.dst_port / 256)
    ∷ (p.dst_port % 256)
    ∷ (p.seq / 2 ^ 24)
    ∷ (p.seq / 2 ^ 16 % 256)
    ∷ (p.seq / 2 ^ 8 % 256)
    ∷ (p.seq % 256)
    ∷ (p.ack / 2 ^ 24)
    ∷ (p.ack / 2 ^ 16 % 256)
    ∷ (p.ack / 2 ^ 8 % 256)
    ∷ (p.ack % 256)
    ∷ ((5 + p.tcp_words) * 16 + p.reserved)
    ∷ (bit p.fin + 2 * bit p.syn + 4 * bit p.rst + 8 * p.other_flags)
    ∷ (p.window / 256)
    ∷ (p.window % 256)
    ∷ (p.tcp_checksum / 256)
    ∷ (p.tcp_checksum % 256)
    ∷ (p.urgent / 256)
    ∷ (p.urgent % 256)
    ∷ (p.tcp_options ++ p.payload)

abbrev pub encode_ipv4 : Packet → Bytes → Bytes
encode_ipv4 p trailer =
    (4 * 16 + (5 + p.ip_words))
    ∷ p.tos
    ∷ (total_len p / 256)
    ∷ (total_len p % 256)
    ∷ (p.id / 256)
    ∷ (p.id % 256)
    ∷ (p.fragment / 256)
    ∷ (p.fragment % 256)
    ∷ p.ttl
    ∷ 6
    ∷ (p.ip_checksum / 256)
    ∷ (p.ip_checksum % 256)
    ∷ p.s0
    ∷ p.s1
    ∷ p.s2
    ∷ p.s3
    ∷ p.d0
    ∷ p.d1
    ∷ p.d2
    ∷ p.d3
    ∷ (p.ip_options ++ (encode_tcp p ++ trailer))

-- The segment that the packet carries.
abbrev pub segment_of : Packet → TcpSegment
segment_of p = record {
  src = v4 p.s0 p.s1 p.s2 p.s3;
  dst = v4 p.d0 p.d1 p.d2 p.d3;
  src_port = p.src_port;
  dst_port = p.dst_port;
  seq = p.seq;
  ack = p.ack;
  syn = p.syn;
  fin = p.fin;
  rst = p.rst;
  payload = p.payload;
}

-- The link layers, each with its header. An untagged Ethernet frame has the type 0x0800.
pub data Link : Type 0 where
  ethernet null_family sll sll2 : Bytes → Link
  raw raw_old plain_ipv4 plain_ipv6 : Link

abbrev pub dlt_of : Link → ℕ
dlt_of (ethernet macs) = dlt_en10mb
dlt_of (null_family h) = dlt_null
dlt_of (sll h) = dlt_linux_sll
dlt_of (sll2 h) = dlt_linux_sll2
dlt_of raw = dlt_raw
dlt_of raw_old = dlt_raw_old
dlt_of plain_ipv4 = dlt_ipv4
dlt_of plain_ipv6 = dlt_ipv6

abbrev pub encode_link : Link → Bytes → Bytes
encode_link (ethernet macs) rest = macs ++ (0x08 ∷ 0x00 ∷ rest)
encode_link (null_family h) rest = h ++ rest
encode_link (sll h) rest = h ++ rest
encode_link (sll2 h) rest = h ++ rest
encode_link _ rest = rest

abbrev pub IsLink : Link → Type 0
IsLink (ethernet macs) = length macs ≡ 12
IsLink (null_family h) = length h ≡ 4
IsLink (sll h) = length h ≡ 16
IsLink (sll2 h) = length h ≡ 20
IsLink _ = Unit

-- An Ethernet frame with an 802.1Q tag, as the standard lays it out: 0x8100, the sixteen bits of
-- the tag, and the type of what follows.
abbrev pub encode_tagged : Bytes → ℕ → ℕ → Bytes → Bytes
encode_tagged macs tag ethertype rest =
    macs ++ (0x81 ∷ 0x00 ∷ (tag / 256) ∷ (tag % 256) ∷ (ethertype / 256) ∷ (ethertype % 256) ∷ rest)
