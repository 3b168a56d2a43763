-- ===== src/Net/RoundTrip.antt =====
-- `parse_frame` reads back the segment of every well-formed IPv4 frame.
use tapgres.Prelude.{
  ℕ, zero, suc, ◌+◌, ◌-◌, ◌*◌, ◌/◌, ◌%◌, ◌^◌, ◌≤◌, min, ◌≡◌, ◌≢◌, refl, get_elem?, some, Bool, true,
  false, ◌&&◌, ◌||◌, [], ◌∷◌, ◌++◌, arith, ltb, leb, ◌==◌, length, take, drop, length-append,
  le→ltb, ap, ◌∙◌, take-append_length, take_all, drop_all, drop-append_length, length-drop,
  Bool-cases, inl, inr,
}
use tapgres.Bytes.{Bytes, be16, be32, high_nibble, low_nibble, test_bit}
use tapgres.Outcome.{value, ◌>>=◌, index, slice, index-in}
use tapgres.Net.{
  IpAddr, tail_from, tcp_payload, skip_vlan, ip_payload, strip_ethernet, strip_fixed, reject,
  dlt_en10mb, strip_link, parse_tcp, parse_ipv4, parse_ip, parse_frame,
}
use tapgres.Net.Wire.{
  Packet, IsWire, total_len, bit, encode_tcp, encode_ipv4, segment_of, Link, ethernet, null_family,
  sll, sll2, dlt_of, encode_link, IsLink, encode_tagged,
}

slice-eq :
    (b : Bytes) (i j : ℕ)
    → i ≤ j
    → j ≤ length b
    → slice {E = Unit {0}} b i j ≡ value (take (j - i) (drop i b))
unfolding slice
slice-eq b i j p q = let e : (leb i j && leb j (length b)) ≡ true = ground arith in rw e

-- The middle part of an append, by its ends.
slice-middle :
    (a b c : Bytes) (i j : ℕ)
    → length a ≡ i
    → i + length b ≡ j
    → slice {E = Unit {0}} (a ++ (b ++ c)) i j ≡ value b
slice-middle a b c i j p q =
    slice-eq (a ++ (b ++ c)) i j (omega arith)
      (omega (arith, length-append a (b ++ c), length-append b c))
    ∙ rw (drop-append_length a (b ++ c) i p)
        (ap (λ l. value l) (take-append_length b c (j - i) (omega arith)))

tail_from-eq : (b : Bytes) (i : ℕ) → i ≤ length b → tail_from b i ≡ value (drop i b)
tail_from-eq b i h =
    slice-eq b i (length b) h (omega arith)
    ∙ ap (λ c. value c) (take_all (length b - i) (drop i b) (omega (arith, length-drop i b)))

-- A payload that is empty is not sliced.
tcp_payload-eq : (b : Bytes) (n : ℕ) → n ≤ length b → tcp_payload b n ≡ value (drop n b)
tcp_payload-eq b n h = elim (Bool-cases (ltb n (length b))) [
  | inl e ↦ rw e (tail_from-eq b n h)
  | inr e ↦ rw (e, drop_all n b (ground arith)) refl
]

-- The flag bits of byte 13.
flag_bits :
    (fin syn rst : Bool) (k : ℕ)
    → let flags = bit fin + 2 * bit syn + 4 * bit rst + 8 * k in
      (test_bit flags 0 ≡ fin) × (test_bit flags 1 ≡ syn) × (test_bit flags 2 ≡ rst)
flag_bits fin syn rst k = ground arith

be32-split : (n : ℕ) → be32 (n / 2 ^ 24) (n / 2 ^ 16 % 256) (n / 2 ^ 8 % 256) (n % 256) ≡ n
be32-split n = omega arith

module _ (p : Packet) (w : IsWire p) where
  data_offset-encode : high_nibble ((5 + p.tcp_words) * 16 + p.reserved) * 4 ≡ 20 + 4 * p.tcp_words
  data_offset-encode = omega arith

  length-encode_tcp : length (encode_tcp p) ≡ 20 + 4 * p.tcp_words + length p.payload
  length-encode_tcp = omega (arith, length-append p.tcp_options p.payload)

  payload-encode : tcp_payload (encode_tcp p) (20 + 4 * p.tcp_words) ≡ value p.payload
  payload-encode =
      tcp_payload-eq (encode_tcp p) (20 + 4 * p.tcp_words) (omega (arith, length-encode_tcp))
      ∙ ap (λ c. value c)
          (drop-append_length (header ++ p.tcp_options) p.payload (20 + 4 * p.tcp_words)
            (omega (arith, w.tcp_options)))
    where
      header : Bytes
      header = take 20 (encode_tcp p)

  parse_tcp-encode :
      (src dst : IpAddr)
      → parse_tcp (encode_tcp p) src dst ≡ value (record (segment_of p) { src = src; dst = dst })
  unfolding parse_tcp index
  parse_tcp-encode src dst =
      let long : ltb (length (encode_tcp p)) 20 ≡ false = le→ltb _ _ (omega arith) in
      let fits : (ltb (20 + 4 * p.tcp_words) 20
            || ltb (length (encode_tcp p)) (20 + 4 * p.tcp_words))
          ≡ false =
        rw (le→ltb (20 + 4 * p.tcp_words) 20 (omega arith))
          (le→ltb _ _ (omega (arith, length-encode_tcp))) in
      let flags = flag_bits p.fin p.syn p.rst p.other_flags in
      rw long (
        rw data_offset-encode (
          rw fits (
            rw payload-encode (λ i. value (record {
              src = src;
              dst = dst;
              src_port = src_port_eq i;
              dst_port = dst_port_eq i;
              seq = seq_eq i;
              ack = ack_eq i;
              syn = flags.1 i;
              fin = flags.0 i;
              rst = flags.2 i;
              payload = p.payload;
            })))))
    where
      src_port_eq : be16 (p.src_port / 256) (p.src_port % 256) ≡ p.src_port
      src_port_eq = omega arith

      dst_port_eq : be16 (p.dst_port / 256) (p.dst_port % 256) ≡ p.dst_port
      dst_port_eq = omega arith

      seq_eq :
          be32 (p.seq / 2 ^ 24) (p.seq / 2 ^ 16 % 256) (p.seq / 2 ^ 8 % 256) (p.seq % 256) ≡ p.seq
      seq_eq = be32-split p.seq

      ack_eq :
          be32 (p.ack / 2 ^ 24) (p.ack / 2 ^ 16 % 256) (p.ack / 2 ^ 8 % 256) (p.ack % 256) ≡ p.ack
      ack_eq = be32-split p.ack

  ihl-encode : low_nibble (4 * 16 + (5 + p.ip_words)) * 4 ≡ 20 + 4 * p.ip_words
  ihl-encode = omega (arith, w.ip_words)

  module _ (trailer : Bytes) where
    length-encode_ipv4 : length (encode_ipv4 p trailer) ≡ total_len p + length trailer
    length-encode_ipv4 = omega (
      arith,
      length-append p.ip_options (encode_tcp p ++ trailer),
      length-append p.tcp_options p.payload,
      length-append (p.tcp_options ++ p.payload) trailer,
      w.ip_options,
      w.tcp_options,
    )

    end-encode :
        min (be16 (total_len p / 256) (total_len p % 256)) (length (encode_ipv4 p trailer))
        ≡ total_len p
    end-encode = omega (arith, length-encode_ipv4)

    slice-encode :
        slice {E = Unit {0}} (encode_ipv4 p trailer) (20 + 4 * p.ip_words) (total_len p)
        ≡ value (encode_tcp p)
    slice-encode =
        slice-middle (take 20 (encode_ipv4 p trailer) ++ p.ip_options) (encode_tcp p) trailer _ _
          (omega (arith, w.ip_options)) (omega (arith, length-encode_tcp))

    parse_ipv4-encode : parse_ipv4 (encode_ipv4 p trailer) ≡ value (segment_of p)
    unfolding parse_ipv4 index
    parse_ipv4-encode =
        let long : ltb (length (encode_ipv4 p trailer)) 20 ≡ false = le→ltb _ _ (omega arith) in
        let ihl = 20 + 4 * p.ip_words in
        let fits : (ltb ihl 20 || ltb (length (encode_ipv4 p trailer)) ihl) ≡ false =
          rw (le→ltb ihl 20 (omega arith)) (le→ltb _ _ (omega (arith, length-encode_ipv4))) in
        let inside : ltb (total_len p) ihl ≡ false = le→ltb _ _ (omega arith) in
        rw long (
          rw ihl-encode
            (rw fits (rw end-encode (rw inside (rw slice-encode (parse_tcp-encode _ _))))))

get_elem?-append :
    (a : Bytes) (x : ℕ) (b : Bytes) (i : ℕ) → length a ≡ i → get_elem? (a ++ x ∷ b) i ≡ some x
get_elem?-append [] x b zero e = refl
get_elem?-append [] x b (suc i) e = absurd (omega arith)
get_elem?-append (y ∷ a) x b zero e = absurd (omega arith)
get_elem?-append (y ∷ a) x b (suc i) e = get_elem?-append a x b i (omega arith)

get_elem?-append_next :
    (a : Bytes) (x y : ℕ) (b : Bytes) (i : ℕ)
    → length a ≡ i
    → get_elem? (a ++ x ∷ y ∷ b) (suc i) ≡ some y
get_elem?-append_next [] x y b zero e = refl
get_elem?-append_next [] x y b (suc i) e = absurd (omega arith)
get_elem?-append_next (z ∷ a) x y b zero e = absurd (omega arith)
get_elem?-append_next (z ∷ a) x y b (suc i) e = get_elem?-append_next a x y b i (omega arith)

drop-append_next :
    (a : Bytes) (x y : ℕ) (b : Bytes) (i : ℕ)
    → length a ≡ i
    → drop (suc (suc i)) (a ++ x ∷ y ∷ b) ≡ b
drop-append_next [] x y b zero e = refl
drop-append_next [] x y b (suc i) e = absurd (omega arith)
drop-append_next (z ∷ a) x y b zero e = absurd (omega arith)
drop-append_next (z ∷ a) x y b (suc i) e = drop-append_next a x y b i (omega arith)

-- The code up to the VLAN loop, on any Ethernet frame.
strip_ethernet-type :
    (macs : Bytes) (hi lo : ℕ) (rest : Bytes)
    → length macs ≡ 12
    → strip_ethernet (macs ++ (hi ∷ lo ∷ rest))
      ≡ (skip_vlan (suc (length rest)) (be16 hi lo) rest >>= ip_payload)
unfolding strip_ethernet
strip_ethernet-type macs hi lo rest e =
    let frame = macs ++ (hi ∷ lo ∷ rest) in
    let size : length frame ≡ 14 + length rest =
      omega (arith, length-append macs (hi ∷ lo ∷ rest)) in
    let long : ltb (length frame) 14 ≡ false = le→ltb _ _ (omega arith) in
    rw long (
      rw (index-in frame 12 hi (get_elem?-append macs hi (lo ∷ rest) 12 e)) (
        rw (index-in frame 13 lo (get_elem?-append_next macs hi lo rest 12 e))
          (rw (tail_from-eq frame 14 (omega arith)) (rw (drop-append_next macs hi lo rest 12 e)))))

strip_fixed-append :
    (h rest : Bytes) (n : ℕ) → length h ≡ n → strip_fixed n (h ++ rest) ≡ value rest
strip_fixed-append h rest n e =
    let long : ltb (length (h ++ rest)) n ≡ false =
      le→ltb _ _ (omega (arith, length-append h rest)) in
    rw long (
      tail_from-eq (h ++ rest) n (omega (arith, length-append h rest))
      ∙ ap (λ l. value l) (drop-append_length h rest n e))

strip_link-encode :
    (l : Link) (rest : Bytes) → IsLink l → strip_link (encode_link l rest) (dlt_of l) ≡ value rest
unfolding strip_link skip_vlan
strip_link-encode (ethernet macs) rest e = strip_ethernet-type macs 0x08 0x00 rest e
strip_link-encode (null_family h) rest e = strip_fixed-append h rest 4 e
strip_link-encode (sll h) rest e = strip_fixed-append h rest 16 e
strip_link-encode (sll2 h) rest e = strip_fixed-append h rest 20 e
strip_link-encode _ rest e = refl

-- For every link layer, every IPv4 packet whose fields fit their places, IP and TCP options
-- included, and any bytes behind the packet, parsing the frame returns exactly the segment that the
-- packet carries.
pub parse_frame-encode :
    (l : Link) (p : Packet) (trailer : Bytes)
    → IsLink l
    → IsWire p
    → parse_frame (encode_link l (encode_ipv4 p trailer)) (dlt_of l) ≡ value (segment_of p)
unfolding parse_frame parse_ip index
parse_frame-encode l p trailer link w =
    let version : high_nibble (4 * 16 + (5 + p.ip_words)) ≡ 4 = omega (arith, w.ip_words) in
    let some_bytes : (length (encode_ipv4 p trailer) == 0) ≡ false = ground arith in
    rw (strip_link-encode l (encode_ipv4 p trailer) link)
      (rw some_bytes (rw version (parse_ipv4-encode p w trailer)))

-- One round of the VLAN loop: the new type is the tag.
skip_vlan-tag :
    (tag ethertype fuel : ℕ) (rest : Bytes)
    → tag ≢ 0x8100
    → skip_vlan
        (suc (suc fuel))
        0x8100
        ((tag / 256) ∷ (tag % 256) ∷ (ethertype / 256) ∷ (ethertype % 256) ∷ rest)
      ≡ value (tag, rest)
unfolding skip_vlan index
skip_vlan-tag tag ethertype fuel rest p =
    let payload = (tag / 256) ∷ (tag % 256) ∷ (ethertype / 256) ∷ (ethertype % 256) ∷ rest in
    let long : leb 4 (length payload) ≡ true = ground arith in
    let same : be16 (tag / 256) (tag % 256) ≡ tag = omega arith in
    let other : (tag == 0x8100) ≡ false = ground arith in
    rw long (rw (tail_from-eq payload 4 (omega arith)) (rw same (rw other)))

-- An Ethernet frame with an 802.1Q tag is rejected, whatever it carries, unless the tag happens to
-- be 0x8100 or the type of an IP packet: the loop reads the tag where the inner type should be.
pub parse_frame-tagged :
    (macs : Bytes) (tag ethertype : ℕ) (rest : Bytes)
    → length macs ≡ 12
    → tag ≢ 0x8100
    → tag ≢ 0x0800
    → tag ≢ 0x86dd
    → parse_frame (encode_tagged macs tag ethertype rest) dlt_en10mb ≡ reject
unfolding parse_frame strip_link
parse_frame-tagged macs tag ethertype rest e p q r =
    let not_ip : (tag == 0x0800 || tag == 0x86dd) ≡ false = ground arith in
    rw (strip_ethernet-type macs 0x81 0x00 _ e)
      (rw (skip_vlan-tag tag ethertype (suc (suc (suc (length rest)))) rest p) (rw not_ip))
