-- ===== src/Net.antt =====
-- src/net.rs: a captured frame is stripped of its link header, and its IP and TCP headers are
-- parsed into a segment. Every index and slice of the source is one here, and panics out of bounds.
-- The proofs are in the modules below.
pub mod Safety
pub mod Wire
pub mod RoundTrip
mod Tests
use tapgres.Prelude.{
  ℕ, zero, suc, ◌+◌, ◌*◌, min, Bool, ◌&&◌, ◌||◌, [], ltb, leb, ◌==◌, if◌then◌else◌, length, not,
}
use tapgres.Bytes.{Bytes, be16, be32, high_nibble, low_nibble, test_bit}
use tapgres.Outcome.{Outcome, value, error, out_of_fuel, ◌>>=◌, index, slice}

-- std::net::IpAddr: the four bytes of an `Ipv4Addr`, or the sixteen of an `Ipv6Addr`.
pub data IpAddr : Type 0 where
  v4 : ℕ → ℕ → ℕ → ℕ → IpAddr
  v6 : Bytes → IpAddr

pub record TcpSegment : Type 0 where
  pub src : IpAddr
  pub dst : IpAddr
  pub src_port : ℕ
  pub dst_port : ℕ
  pub seq : ℕ
  pub ack : ℕ
  pub syn : Bool
  pub fin : Bool
  pub rst : Bool
  pub payload : Bytes

-- The functions return `Option`: `None` is `reject`.
abbrev pub Parsed : Type 0 → Type 0
Parsed A = Outcome (Unit {0}) A

abbrev pub reject : {A : Type 0} → Parsed A
reject = error tt

abbrev pub dlt_null : ℕ
dlt_null = 0

abbrev pub dlt_en10mb : ℕ
dlt_en10mb = 1

abbrev pub dlt_raw_old : ℕ
dlt_raw_old = 12

abbrev pub dlt_raw : ℕ
dlt_raw = 101

abbrev pub dlt_linux_sll : ℕ
dlt_linux_sll = 113

abbrev pub dlt_linux_sll2 : ℕ
dlt_linux_sll2 = 276

abbrev pub dlt_ipv4 : ℕ
dlt_ipv4 = 228

abbrev pub dlt_ipv6 : ℕ
dlt_ipv6 = 229

-- `&b[i..]`
abbrev pub tail_from : Bytes → ℕ → Parsed Bytes
tail_from b i = slice b i (length b)

-- The `while` loop over VLAN tags, with the final `ethertype` and `payload`. Each round takes four
-- bytes off the payload, so its length is fuel enough.
pub skip_vlan : ℕ → ℕ → Bytes → Parsed (ℕ × Bytes)
skip_vlan zero ethertype payload = out_of_fuel
skip_vlan (suc fuel) ethertype payload =
    let again = (do
      a ← index payload 0
      b ← index payload 1
      rest ← tail_from payload 4
      skip_vlan fuel (be16 a b) rest) in
    if ethertype == 0x8100 && leb 4 (length payload) then again else value (ethertype, payload)

abbrev pub ip_payload : ℕ × Bytes → Parsed Bytes
ip_payload (ethertype, payload) =
    if ethertype == 0x0800 || ethertype == 0x86dd then value payload else reject

pub strip_ethernet : Bytes → Parsed Bytes
strip_ethernet bytes = if ltb (length bytes) 14 then reject else do
  a ← index bytes 12
  b ← index bytes 13
  payload ← tail_from bytes 14
  stripped ← skip_vlan (suc (length payload)) (be16 a b) payload
  ip_payload stripped

abbrev pub strip_fixed : ℕ → Bytes → Parsed Bytes
strip_fixed n bytes = if ltb (length bytes) n then reject else tail_from bytes n

-- `dlt` is the 32-bit pattern of the source's `i32`.
pub strip_link : Bytes → ℕ → Parsed Bytes
unfolding strip_ethernet
strip_link bytes dlt =
    if dlt == dlt_en10mb
    then strip_ethernet bytes
    else if dlt == dlt_raw || dlt == dlt_raw_old || dlt == dlt_ipv4 || dlt == dlt_ipv6
    then value bytes
    else if dlt == dlt_null
    then strip_fixed 4 bytes
    else if dlt == dlt_linux_sll
    then strip_fixed 16 bytes
    else if dlt == dlt_linux_sll2
    then strip_fixed 20 bytes
    else reject

abbrev pub tcp_payload : Bytes → ℕ → Parsed Bytes
tcp_payload l4 data_offset =
    if ltb data_offset (length l4) then tail_from l4 data_offset else value []

pub parse_tcp : Bytes → IpAddr → IpAddr → Parsed TcpSegment
parse_tcp l4 src dst = if ltb (length l4) 20 then reject else do
  b0 ← index l4 0
  b1 ← index l4 1
  b2 ← index l4 2
  b3 ← index l4 3
  b4 ← index l4 4
  b5 ← index l4 5
  b6 ← index l4 6
  b7 ← index l4 7
  b8 ← index l4 8
  b9 ← index l4 9
  b10 ← index l4 10
  b11 ← index l4 11
  b12 ← index l4 12
  flags ← index l4 13
  let data_offset = high_nibble b12 * 4
  if ltb data_offset 20 || ltb (length l4) data_offset then reject else do
    payload ← tcp_payload l4 data_offset
    value (record {
      src = src;
      dst = dst;
      src_port = be16 b0 b1;
      dst_port = be16 b2 b3;
      seq = be32 b4 b5 b6 b7;
      ack = be32 b8 b9 b10 b11;
      syn = test_bit flags 1;
      fin = test_bit flags 0;
      rst = test_bit flags 2;
      payload = payload;
    })

pub parse_ipv4 : Bytes → Parsed TcpSegment
parse_ipv4 b = if ltb (length b) 20 then reject else do
  b0 ← index b 0
  let ihl = low_nibble b0 * 4
  if ltb ihl 20 || ltb (length b) ihl then reject else do
    proto ← index b 9
    if not (proto == 6) then reject else do
      b2 ← index b 2
      b3 ← index b 3
      let end = min (be16 b2 b3) (length b)
      if ltb end ihl then reject else do
        b12 ← index b 12
        b13 ← index b 13
        b14 ← index b 14
        b15 ← index b 15
        b16 ← index b 16
        b17 ← index b 17
        b18 ← index b 18
        b19 ← index b 19
        l4 ← slice b ihl end
        parse_tcp l4 (v4 b12 b13 b14 b15) (v4 b16 b17 b18 b19)

abbrev pub is_extension_header : ℕ → Bool
is_extension_header nh = nh == 0 || nh == 43 || nh == 44 || nh == 51 || nh == 60

-- `(ext[1].saturating_add(plus)) * unit`, which a byte does not saturate.
abbrev pub length_byte : Bytes → ℕ → ℕ → Parsed ℕ
length_byte ext plus unit =
    if ltb (length ext) 2 then reject else do n ← index ext 1; value ((n + plus) * unit)

pub extension_header_len : ℕ → Bytes → Parsed ℕ
extension_header_len nh ext =
    if nh == 44 then value 8 else if nh == 51 then length_byte ext 2 4 else length_byte ext 1 8

-- The `while` loop over the extension headers, with the final `next_header` and `off`.
pub walk_extensions : ℕ → Bytes → ℕ → ℕ → ℕ → Parsed (ℕ × ℕ)
walk_extensions zero b body_end next_header off = out_of_fuel
walk_extensions (suc fuel) b body_end next_header off =
    let again = (do
      ext_next ← index b off
      ext ← slice b off body_end
      ext_len ← extension_header_len next_header ext
      let rest = walk_extensions fuel b body_end ext_next (off + ext_len)
      if ltb body_end (off + ext_len) then reject else rest) in
    if is_extension_header next_header && leb (off + 8) body_end
    then again
    else value (next_header, off)

pub parse_ipv6 : Bytes → Parsed TcpSegment
parse_ipv6 b = if ltb (length b) 40 then reject else do
  b4 ← index b 4
  b5 ← index b 5
  first_header ← index b 6
  src ← slice b 8 24
  dst ← slice b 24 40
  let body_end = min (40 + be16 b4 b5) (length b)
  (next_header, off) ← walk_extensions (suc body_end) b body_end first_header 40
  if not (next_header == 6)
      then reject
      else do l4 ← slice b off body_end; parse_tcp l4 (v6 src) (v6 dst)

pub parse_ip : Bytes → Parsed TcpSegment
parse_ip b = if length b == 0 then reject else do
  b0 ← index b 0
  if high_nibble b0 == 4 then parse_ipv4 b else if high_nibble b0 == 6 then parse_ipv6 b else reject

pub parse_frame : Bytes → ℕ → Parsed TcpSegment
parse_frame bytes dlt = do ip ← strip_link bytes dlt; parse_ip ip
