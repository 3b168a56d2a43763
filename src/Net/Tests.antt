-- ===== src/Net/Tests.antt =====
-- The frame parser at concrete frames.
use tapgres.Prelude.{◌≡◌, refl, true, false, [], ◌∷◌, arith}
use tapgres.Outcome.{value}
use tapgres.Bytes.{Bytes}
use tapgres.Net.{reject, parse_frame, dlt_en10mb}
use tapgres.Net.Wire.{
  Packet, IsWire, ethernet, encode_ipv4, encode_link, encode_tagged, dlt_of, segment_of,
}
use tapgres.Net.RoundTrip.{parse_frame-encode, parse_frame-tagged}

-- A packet with a word of TCP options and two bytes of payload, in an Ethernet frame with a trailer.
abbrev packet : Packet
packet = record {
  s0 = 10;
  s1 = 0;
  s2 = 0;
  s3 = 1;
  d0 = 10;
  d1 = 0;
  d2 = 0;
  d3 = 2;
  tos = 0;
  id = 7;
  fragment = 0;
  ttl = 64;
  ip_checksum = 0;
  ip_words = 0;
  ip_options = [];
  src_port = 40000;
  dst_port = 5432;
  seq = 100;
  ack = 0;
  reserved = 0;
  fin = false;
  syn = true;
  rst = false;
  other_flags = 2;
  window = 512;
  tcp_checksum = 0;
  urgent = 0;
  tcp_words = 1;
  tcp_options = 1 ∷ 1 ∷ 1 ∷ 1 ∷ [];
  payload = 81 ∷ 82 ∷ [];
}

packet-IsWire : IsWire packet
packet-IsWire = record {
  src_port = omega arith;
  dst_port = omega arith;
  seq = omega arith;
  ack = omega arith;
  reserved = omega arith;
  ip_words = omega arith;
  tcp_words = omega arith;
  ip_options = refl;
  tcp_options = refl;
  total = omega arith;
}

abbrev macs : Bytes
macs = 1 ∷ 2 ∷ 3 ∷ 4 ∷ 5 ∷ 6 ∷ 7 ∷ 8 ∷ 9 ∷ 10 ∷ 11 ∷ 12 ∷ []

abbrev frame : Bytes
frame = encode_link (ethernet macs) (encode_ipv4 packet (0 ∷ 0 ∷ []))

parse_frame-encode_example : parse_frame frame (dlt_of (ethernet macs)) ≡ value (segment_of packet)
parse_frame-encode_example =
    parse_frame-encode (ethernet macs) packet (0 ∷ 0 ∷ []) refl packet-IsWire

parse_frame-tagged_example :
    parse_frame (encode_tagged macs 5 0x0800 (encode_ipv4 packet [])) dlt_en10mb ≡ reject
parse_frame-tagged_example =
    parse_frame-tagged macs 5 0x0800 (encode_ipv4 packet []) refl (λ e. omega arith)
      (λ e. omega arith) (λ e. omega arith)
